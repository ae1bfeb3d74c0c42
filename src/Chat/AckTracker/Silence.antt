-- ===== src/Chat/AckTracker/Silence.antt =====
-- A message whose acknowledgement has come does not time out.
use ylp_software.Base.{
  ℕ, ◌+◌, ◌<◌, ◌≡◌, refl, ap, ◌∙◌, ◌≢◌, Bool, true, false, not, String, Option, none, some, List,
  [], ◌∷◌, ◌++◌, lookup, erase, lookup-insert, lookup-erase, filter, length, all, arith, nat_same,
  string_same, nat_beq_iff, eq_iff, ◌==◌, if◌then◌else◌,
}
use ylp_software.Chat.AckTracker.{
  State, initial, clear_found, clear, arm, erase_all, time_out, Event, armed, cleared, all_cleared,
  fired, step, run,
}

-- Every pending timer is the one that its message has in the map, and is older than the next one.
IsTracked : State → Type 0
IsTracked s =
    (t : ℕ) (k : String)
    → lookup t s.pending ≡ some k
    → (lookup k s.timeouts ≡ some t) × (t < s.next_handle)

-- No timer of the message is pending.
IsQuiet : String → State → Type 0
IsQuiet k s = (t : ℕ) → lookup t s.pending ≢ some k

lookup-erase_all :
    (t : ℕ) (k : String) (ts : List (String × ℕ)) (pending : List (ℕ × String))
    → lookup t (erase_all ts pending) ≡ some k
    → lookup t pending ≡ some k
lookup-erase_all t k [] pending h = h
lookup-erase_all t k ((j, u) ∷ ts) pending h =
    ground (arith, lookup-erase_all t k ts (erase u pending) h, lookup-erase u t pending)

erased_all :
    (t : ℕ) (k : String) (ts : List (String × ℕ)) (pending : List (ℕ × String))
    → lookup k ts ≡ some t
    → lookup t (erase_all ts pending) ≢ some k
erased_all t k [] pending h e = ground arith
erased_all t k ((j, u) ∷ ts) pending h e = ground (
  arith,
  erased_all t k ts (erase u pending),
  lookup-erase u t pending,
  eq_iff j k,
  lookup-erase_all t k ts (erase u pending) e,
  nat_beq_iff u t,
)

clear_found-IsTracked :
    (k : String) (o : Option ℕ) (s : State)
    → lookup k s.timeouts ≡ o
    → IsTracked s
    → IsTracked (clear_found k o s) × IsQuiet k (clear_found k o s)
unfolding IsTracked IsQuiet
clear_found-IsTracked k none s f h = (h, λ t e. ground (arith, h t k e))
clear_found-IsTracked k (some u) s f h = (
  λ t j e. ground (
    arith,
    h t j,
    lookup-erase u t s.pending,
    lookup-erase k j s.timeouts,
    eq_iff k j,
    nat_beq_iff u t,
  ),
  λ t e. ground (arith, h t k, lookup-erase u t s.pending, nat_beq_iff u t),
)

clear-IsTracked :
    (k : String) (s : State) → IsTracked s → IsTracked (clear k s) × IsQuiet k (clear k s)
unfolding clear
clear-IsTracked k s h = clear_found-IsTracked k (lookup k s.timeouts) s refl h

clear_found-next_handle :
    (k : String) (o : Option ℕ) (s : State) → (clear_found k o s).next_handle ≡ s.next_handle
clear_found-next_handle k none s = refl
clear_found-next_handle k (some t) s = refl

arm-IsTracked : (k : String) (s : State) → IsTracked s → IsTracked (arm k s)
unfolding IsTracked arm IsQuiet clear
arm-IsTracked k s h =
    let c = clear_found k (lookup k s.timeouts) s in
    let (tracked, quiet) = clear-IsTracked k s h in
    λ t j e. ground (
      arith,
      tracked t j,
      quiet t,
      clear_found-next_handle k (lookup k s.timeouts) s,
      lookup-insert k j s.next_handle c.timeouts,
      eq_iff k j,
      nat_beq_iff s.next_handle t,
    )

time_out-IsTracked :
    (t : ℕ) (o : Option String) (s : State)
    → lookup t s.pending ≡ o
    → IsTracked s
    → IsTracked (time_out t o s)
unfolding IsTracked
time_out-IsTracked t none s f h = h
time_out-IsTracked t (some k) s f h = λ u j e. ground (
  arith,
  h u j,
  h t k f,
  lookup-erase t u s.pending,
  lookup-erase k j s.timeouts,
  eq_iff k j,
  nat_beq_iff t u,
)

step-IsTracked : (s : State) (e : Event) → IsTracked s → IsTracked (step s e)
unfolding step IsTracked
step-IsTracked s (armed k) h = arm-IsTracked k s h
step-IsTracked s (cleared k) h = (clear-IsTracked k s h).0
step-IsTracked s all_cleared h = λ t k e. absurd (
    erased_all t k s.timeouts s.pending ((h t k (lookup-erase_all t k s.timeouts s.pending e)).0) e)
step-IsTracked s (fired t) h = time_out-IsTracked t (lookup t s.pending) s refl h

run-IsTracked : (s : State) (es : List Event) → IsTracked s → IsTracked (run s es)
unfolding run
run-IsTracked s [] h = h
run-IsTracked s (e ∷ es) h = run-IsTracked (step s e) es (step-IsTracked s e h)

-- `true` for every event but the arming of the message's timer.
abbrev pub spares : String → Event → Bool
spares k (armed j) = not (j == k)
spares k _ = true

abbrev pub times : String → List String → ℕ
times k js = length (filter (λ j. j == k) js)

times-append :
    (k j : String) (js : List String)
    → times k (js ++ j ∷ []) ≡ times k js + (if j == k then 1 else 0)
times-append k j [] = ground arith
times-append k j (i ∷ js) = ground (arith, times-append k j js)

clear_found-pending :
    (j : String) (o : Option ℕ) (s : State) (k : String)
    → IsQuiet k s
    → IsQuiet k (clear_found j o s) × ((clear_found j o s).timed_out ≡ s.timed_out)
unfolding IsQuiet
clear_found-pending j none s k q = (q, refl)
clear_found-pending j (some u) s k q =
    (λ t e. ground (arith, q t, lookup-erase u t s.pending), refl)

arm-IsQuiet :
    (j : String) (s : State) (k : String)
    → j == k ≡ false
    → IsQuiet k s
    → IsQuiet k (arm j s) × ((arm j s).timed_out ≡ s.timed_out)
unfolding IsQuiet arm
arm-IsQuiet j s k n q =
    let (quiet, same) = clear_found-pending j (lookup j s.timeouts) s k q in
    (λ t e. ground (arith, quiet t, eq_iff j k), same)

time_out-IsQuiet :
    (t : ℕ) (o : Option String) (s : State) (k : String)
    → lookup t s.pending ≡ o
    → IsQuiet k s
    → IsQuiet k (time_out t o s) × (times k (time_out t o s).timed_out ≡ times k s.timed_out)
unfolding IsQuiet
time_out-IsQuiet t none s k f q = (q, refl)
time_out-IsQuiet t (some j) s k f q = (
  λ u e. ground (arith, q u, lookup-erase t u s.pending),
  ground (arith, q t, times-append k j s.timed_out, eq_iff j k),
)

step-IsQuiet :
    (s : State) (e : Event) (k : String)
    → spares k e ≡ true
    → IsQuiet k s
    → IsQuiet k (step s e) × (times k (step s e).timed_out ≡ times k s.timed_out)
unfolding step IsQuiet
step-IsQuiet s (armed j) k n q =
    let (quiet, same) = arm-IsQuiet j s k (ground (arith, n)) q in (quiet, ap (times k) same)
step-IsQuiet s (cleared j) k n q =
    let (quiet, same) = clear_found-pending j (lookup j s.timeouts) s k q in
    (quiet, ap (times k) same)
step-IsQuiet s all_cleared k n q = (λ t e. q t (lookup-erase_all t k s.timeouts s.pending e), refl)
step-IsQuiet s (fired t) k n q = time_out-IsQuiet t (lookup t s.pending) s k refl q

run-IsQuiet :
    (s : State) (es : List Event) (k : String)
    → all (spares k) es ≡ true
    → IsQuiet k s
    → times k (run s es).timed_out ≡ times k s.timed_out
unfolding run
run-IsQuiet s [] k n q = refl
run-IsQuiet s (e ∷ es) k n q =
    let (quiet, same) = step-IsQuiet s e k (ground (arith, n)) q in
    run-IsQuiet (step s e) es k (ground (arith, n)) quiet ∙ same

initial-IsTracked : IsTracked initial
unfolding initial IsTracked
initial-IsTracked t k e = ground arith

clear_found-timed_out :
    (k : String) (o : Option ℕ) (s : State) → (clear_found k o s).timed_out ≡ s.timed_out
clear_found-timed_out k none s = refl
clear_found-timed_out k (some t) s = refl

-- After any history: once a message's timer has been cleared, and as long as it is not armed again,
-- the message does not time out any more, whatever else is armed, cleared or fires.
pub cleared-run :
    (history es : List Event) (k : String)
    → all (spares k) es ≡ true
    → let s = run initial history in
      times k (run (step s (cleared k)) es).timed_out ≡ times k s.timed_out
unfolding step clear
cleared-run history es k n =
    let s = run initial history in
    let (tracked, quiet) = clear-IsTracked k s (run-IsTracked initial history initial-IsTracked) in
    run-IsQuiet (clear k s) es k n quiet
    ∙ ap (times k) (clear_found-timed_out k (lookup k s.timeouts) s)
