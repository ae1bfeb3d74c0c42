-- ===== src/Connection/Liveness/Probing.antt =====
-- The monitor keeps probing, and reports the loss of the peer once.
use ylp_software.Base.{
  ◌≡◌, refl, ◌≢◌, Bool, true, false, List, [], ◌∷◌, arith, is_some, leb, not, all,
}
use ylp_software.Connection.Liveness.{
  State, max_missed_pongs, Event, started, stopped, ping_due, pong_timeout, ping_received,
  pong_received, restarting, step, run,
}

-- A deadline is set exactly while a pong is awaited; two pongs in a row have been missed exactly
-- while the link counts as degraded.
pub record IsConsistent (s : State) : Type 0 where
  pub deadline : s.pong_deadline ≡ s.is_awaiting_pong
  pub degraded : s.is_degraded ≡ leb max_missed_pongs s.missed_pongs

-- One of the two timers is set, and not both.
abbrev pub IsProbing : State → Type 0
IsProbing s = is_some s.ping_timer ≡ not s.pong_deadline

step-IsConsistent : (s : State) (e : Event) → IsConsistent s → IsConsistent (step s e)
unfolding step
step-IsConsistent s started h = ground arith
step-IsConsistent s stopped h = ground arith
step-IsConsistent s (ping_due b) h = ground arith
step-IsConsistent s pong_timeout h = ground arith
step-IsConsistent s (ping_received b n) h = ground arith
step-IsConsistent s pong_received h = ground arith
step-IsConsistent s (restarting n) h = ground arith

step-IsProbing :
    (s : State) (e : Event) → e ≢ stopped → IsConsistent s → IsProbing s → IsProbing (step s e)
unfolding step
step-IsProbing s started n h p = ground arith
step-IsProbing s stopped n h p = absurd (n refl)
step-IsProbing s (ping_due b) n h p = ground arith
step-IsProbing s pong_timeout n h p = ground arith
step-IsProbing s (ping_received b k) n h p = ground arith
step-IsProbing s pong_received n h p = ground arith
step-IsProbing s (restarting k) n h p = ground arith

-- `true` where the monitor is not stopped by the event.
abbrev pub keeps_on : Event → Bool
keeps_on stopped = false
keeps_on _ = true

keeps_on_lem : (e : Event) → keeps_on e ≡ true → e ≢ stopped
keeps_on_lem e k p = ground (arith, k, p)

-- From a consistent state in which the monitor probes, and through every list of events without a
-- stop, the state stays consistent (the deadline is set exactly while a pong is awaited, the link
-- counts as degraded exactly from the second missed pong on) and exactly one of the two timers is
-- set: the probing never ends by itself.
pub run-IsProbing :
    (s : State) (es : List Event)
    → IsConsistent s
    → IsProbing s
    → all keeps_on es ≡ true
    → IsConsistent (run s es) × IsProbing (run s es)
unfolding run
run-IsProbing s [] c p k = (c, p)
run-IsProbing s (e ∷ es) c p k =
    run-IsProbing (step s e) es (step-IsConsistent s e c)
      (step-IsProbing s e (keeps_on_lem e (ground (arith, k))) c p) (ground (arith, k))
