-- ===== src/Sync/Service/Lifecycle.antt =====
-- One sync at a time, every outcome announced, and the cursor that it leaves.
use ylp_software.Base.{ℕ, suc, ◌+◌, ◌≡◌, Bool, true, false, List, [], ◌∷◌, ◌++◌, arith, All}
use ylp_software.Sync.Service.{
  SyncStatus, started, complete, failed, retrying, State, Event, sync_now, pulled, finished,
  timer_fired, connectivity, cleanup, completed, conflict, not_found, reset_failed, other_error,
  step, run,
}

abbrev pub starts : List SyncStatus → ℕ
starts [] = 0
starts (started ∷ es) = suc (starts es)
starts (_ ∷ es) = starts es

abbrev pub ends : List SyncStatus → ℕ
ends [] = 0
ends (complete ∷ es) = suc (ends es)
ends (failed ∷ es) = suc (ends es)
ends (_ ∷ es) = ends es

abbrev pub running : Bool → ℕ
running true = 1
running false = 0

starts-append : (es ds : List SyncStatus) → starts (es ++ ds) ≡ starts es + starts ds
starts-append [] ds = omega arith
starts-append (started ∷ es) ds = omega (arith, starts-append es ds)
starts-append (complete ∷ es) ds = omega (arith, starts-append es ds)
starts-append (failed ∷ es) ds = omega (arith, starts-append es ds)
starts-append (retrying ∷ es) ds = omega (arith, starts-append es ds)

ends-append : (es ds : List SyncStatus) → ends (es ++ ds) ≡ ends es + ends ds
ends-append [] ds = omega arith
ends-append (started ∷ es) ds = omega (arith, ends-append es ds)
ends-append (complete ∷ es) ds = omega (arith, ends-append es ds)
ends-append (failed ∷ es) ds = omega (arith, ends-append es ds)
ends-append (retrying ∷ es) ds = omega (arith, ends-append es ds)

-- The listener has been told of the sync that is under way, and of the end of every other one.
abbrev pub IsAnnounced : State → Type 0
IsAnnounced s =
    (s.has_listeners ≡ true) × (starts s.emitted ≡ ends s.emitted + running s.is_syncing)

-- The cursor's store works, and the service is not cleaned up.
abbrev pub IsOrdinary : Event → Type 0
IsOrdinary (finished reset_failed j) = ⊥
IsOrdinary cleanup = ⊥
IsOrdinary _ = Unit

step-IsAnnounced : (s : State) (e : Event) → IsOrdinary e → IsAnnounced s → IsAnnounced (step s e)
unfolding step
step-IsAnnounced s sync_now o h =
    ground (arith, starts-append s.emitted (started ∷ []), ends-append s.emitted (started ∷ []))
step-IsAnnounced s (pulled t) o h = ground arith
step-IsAnnounced s (finished completed j) o h =
    ground (arith, starts-append s.emitted (complete ∷ []), ends-append s.emitted (complete ∷ []))
step-IsAnnounced s (finished conflict j) o h = ground (
  arith,
  starts-append s.emitted (failed ∷ []),
  ends-append s.emitted (failed ∷ []),
  starts-append (s.emitted ++ failed ∷ []) (retrying ∷ []),
  ends-append (s.emitted ++ failed ∷ []) (retrying ∷ []),
)
step-IsAnnounced s (finished not_found j) o h =
    ground (arith, starts-append s.emitted (failed ∷ []), ends-append s.emitted (failed ∷ []))
step-IsAnnounced s (finished reset_failed j) o h = elim o [ ]
step-IsAnnounced s (finished other_error j) o h = ground (
  arith,
  starts-append s.emitted (failed ∷ []),
  ends-append s.emitted (failed ∷ []),
  starts-append (s.emitted ++ failed ∷ []) (retrying ∷ []),
  ends-append (s.emitted ++ failed ∷ []) (retrying ∷ []),
)
step-IsAnnounced s timer_fired o h =
    ground (arith, starts-append s.emitted (started ∷ []), ends-append s.emitted (started ∷ []))
step-IsAnnounced s (connectivity b) o h =
    ground (arith, starts-append s.emitted (started ∷ []), ends-append s.emitted (started ∷ []))
step-IsAnnounced s cleanup o h = elim o [ ]

-- Through any sequence of events in which no cursor reset fails and nothing is cleaned up, at most
-- one sync is under way, and the listener hears of each start and, once, of each end.
pub run-IsAnnounced :
    (s : State) (es : List Event) → All IsOrdinary es → IsAnnounced s → IsAnnounced (run s es)
unfolding run
run-IsAnnounced s [] o h = h
run-IsAnnounced s (e ∷ es) (o, os) h = run-IsAnnounced (step s e) es os (step-IsAnnounced s e o h)
