-- ===== src/Connection/IceRestart/Budget.antt =====
-- The attempts of a controller that is driven by its own timers.
use ylp_software.Base.{
  ℕ, ◌≤◌, ◌<◌, ◌≡◌, refl, Bool, true, false, some, List, [], ◌∷◌, ◌++◌, ◌∙◌, Bool-cases, inl, inr,
  arith, nat_same, nat_beq_iff, ◌==◌, leb, length, if◌then◌else◌,
}
use ylp_software.Connection.IceRestart.{
  Timer, restart, fallback, connection_failed, State, initial, max_attempts, restart_delay_ms,
  clear_handle, Event, schedule, timer, settled, reset, schedule_ice_restart, on_timer, fire,
  settle, reset_ice_restart_state, step, run,
}

-- Where the controller stands: idle, waiting for the one timer that it knows of, or with one offer
-- in flight and no timer. A restart is begun only while attempts are left.
pub data Phase (s : State) : Type 0 where
  idle : s.pending ≡ [] → s.in_flight ≡ 0 → s.attempts ≤ max_attempts → Phase s
  waiting :
      (i : ℕ) (d : ℕ)
      → s.pending ≡ (i, restart d) ∷ []
      → s.handle ≡ some i
      → s.in_flight ≡ 0
      → s.attempts < max_attempts
      → Phase s
  flying : s.pending ≡ [] → s.in_flight ≡ 1 → s.attempts ≤ max_attempts → Phase s
  recovering :
      (i : ℕ)
      → s.pending ≡ (i, fallback) ∷ []
      → s.handle ≡ some i
      → s.in_flight ≡ 0
      → s.attempts ≤ max_attempts
      → Phase s

-- Nothing is scheduled or reset while an offer is in flight.
abbrev pub IsTimely : State → Event → Type 0
IsTimely s (schedule b) = s.in_flight ≡ 0
IsTimely s reset = s.in_flight ≡ 0
IsTimely s _ = Unit

module _ (s : State) where
  schedule_left :
      (b : Bool)
      → s.attempts < max_attempts
      → s.in_flight ≡ 0
      → (clear_handle s.handle s).pending ≡ []
      → Phase (schedule_ice_restart b s)
  unfolding schedule_ice_restart
  schedule_left b a f p =
      waiting s.next_id (if b then 0 else restart_delay_ms) (ground arith) (ground arith)
        (ground arith) (ground arith)

  schedule_spent :
      (b : Bool)
      → s.attempts ≡ max_attempts
      → let t = schedule_ice_restart b s in
        (t.pending ≡ s.pending)
        × (t.handle ≡ s.handle)
        × (t.in_flight ≡ s.in_flight)
        × (t.attempts ≡ s.attempts)
        × (t.effects ≡ s.effects ++ connection_failed ∷ [])
  unfolding schedule_ice_restart
  schedule_spent b a = ground arith

  schedule-Phase : (b : Bool) → s.in_flight ≡ 0 → Phase s → Phase (schedule_ice_restart b s)
  schedule-Phase b f (idle p f' a) = elim (Bool-cases (leb max_attempts s.attempts)) [
    | inl spent ↦
        let (p', h', g, a', e) = schedule_spent b (ground arith) in
        idle (p' ∙ p) (g ∙ f) (omega (arith, a'))
    | inr left ↦ schedule_left b (ground arith) f (ground arith)
  ]
  schedule-Phase b f (waiting i d p h f' a) = schedule_left b a f (ground (arith, nat_beq_iff i i))
  schedule-Phase b f (flying p f' a) = absurd (omega arith)
  schedule-Phase b f (recovering i p h f' a) = elim (Bool-cases (leb max_attempts s.attempts)) [
    | inl spent ↦
        let (p', h', g, a', e) = schedule_spent b (ground arith) in
        recovering i (p' ∙ p) (h' ∙ h) (g ∙ f) (omega (arith, a'))
    | inr left ↦ schedule_left b (ground arith) f (ground (arith, nat_beq_iff i i))
  ]

  settle-Phase : (made : Bool) → Phase s → Phase (settle made s)
  unfolding settle
  settle-Phase made (idle p f a) = idle (ground arith) (ground arith) (ground arith)
  settle-Phase made (waiting i d p h f a) =
      waiting i d (ground arith) (ground arith) (ground arith) (ground arith)
  settle-Phase made (flying p f a) =
      recovering s.next_id (ground arith) (ground arith) (ground arith) (ground arith)
  settle-Phase made (recovering i p h f a) =
      recovering i (ground arith) (ground arith) (ground arith) (ground arith)

  reset-Phase : s.in_flight ≡ 0 → Phase s → Phase (reset_ice_restart_state s)
  unfolding reset_ice_restart_state
  reset-Phase f (idle p f' a) = idle (ground arith) (ground arith) (ground arith)
  reset-Phase f (waiting i d p h f' a) =
      idle (ground (arith, nat_beq_iff i i)) (ground arith) (ground arith)
  reset-Phase f (flying p f' a) = absurd (omega arith)
  reset-Phase f (recovering i p h f' a) =
      idle (ground (arith, nat_beq_iff i i)) (ground arith) (ground arith)

fire_other :
    (s : State) (i j : ℕ) (t : Timer) → s.pending ≡ (j, t) ∷ [] → (j == i) ≡ false → fire i s ≡ s
unfolding fire
fire_other s i j t p n = ground arith

fire_same :
    (s : State) (i j : ℕ) (t : Timer)
    → s.pending ≡ (j, t) ∷ []
    → (j == i) ≡ true
    → fire i s ≡ on_timer t (record s { pending = [] })
unfolding fire
fire_same s i j t p n = rw (p, fire) (ground arith)

fire_none : (s : State) (i : ℕ) → s.pending ≡ [] → fire i s ≡ s
unfolding fire
fire_none s i p = ground arith

fire-Phase : (s : State) (i : ℕ) → Phase s → Phase (fire i s)
unfolding on_timer
fire-Phase s i (idle p f a) = rw (fire_none s i p) (idle p f a)
fire-Phase s i (flying p f a) = rw (fire_none s i p) (flying p f a)
fire-Phase s i (waiting j d p h f a) = elim (Bool-cases (j == i)) [
  | inl same ↦ rw (fire_same s i j (restart d) p same) (flying refl (omega arith) (omega arith))
  | inr other ↦ rw (fire_other s i j (restart d) p other) (waiting j d p h f a)
]
fire-Phase s i (recovering j p h f a) = elim (Bool-cases (j == i)) [
  | inl same ↦
      rw (fire_same s i j fallback p same)
        (schedule-Phase (record s { pending = [] }) true f (idle refl f a))
  | inr other ↦ rw (fire_other s i j fallback p other) (recovering j p h f a)
]

step-Phase : (s : State) (e : Event) → IsTimely s e → Phase s → Phase (step s e)
unfolding step
step-Phase s (schedule b) t p = schedule-Phase s b t p
step-Phase s (timer i) t p = fire-Phase s i p
step-Phase s (settled made) t p = settle-Phase s made p
step-Phase s reset t p = reset-Phase s t p

-- Each event is timely in the state that it meets.
abbrev pub AreTimely : State → List Event → Type 0
AreTimely s [] = Unit
AreTimely s (e ∷ es) = IsTimely s e × AreTimely (step s e) es

run-Phase : (s : State) (es : List Event) → AreTimely s es → Phase s → Phase (run s es)
unfolding run
run-Phase s [] t p = p
run-Phase s (e ∷ es) (t, ts) p = run-Phase (step s e) es ts (step-Phase s e t p)

Phase-attempts :
    (s : State) → Phase s → (s.attempts ≤ max_attempts) × (length s.pending ≤ 1) × (s.in_flight ≤ 1)
Phase-attempts s (idle p f a) = ground arith
Phase-attempts s (waiting i d p h f a) = ground arith
Phase-attempts s (flying p f a) = ground arith
Phase-attempts s (recovering i p h f a) = ground arith

-- As long as nothing is scheduled or reset while an offer is in flight, a controller makes at most
-- three attempts between two resets, and has at most one timer and at most one offer at a time.
pub run-attempts-le :
    (es : List Event)
    → AreTimely initial es
    → let s = run initial es in
      (s.attempts ≤ max_attempts) × (length s.pending ≤ 1) × (s.in_flight ≤ 1)
unfolding initial
run-attempts-le es t =
    Phase-attempts (run initial es) (run-Phase initial es t (idle refl refl (omega arith)))

none_flying : (s : State) (i : ℕ) → Phase s → s.pending ≡ (i, fallback) ∷ [] → s.in_flight ≡ 0
none_flying s i (idle p f a) e = f
none_flying s i (waiting j d p h f a) e = f
none_flying s i (flying p f a) e = absurd (ground arith)
none_flying s i (recovering j p h f a) e = f

-- The failure is reported when the attempts are spent: in a phase of a timely run, a fallback that fires
-- then announces it, and leaves nothing pending or in flight.
pub fallback_spent :
    (s : State) (i : ℕ)
    → Phase s
    → s.attempts ≡ max_attempts
    → s.pending ≡ (i, fallback) ∷ []
    → let t = step s (timer i) in
      (t.effects ≡ s.effects ++ connection_failed ∷ []) × (t.pending ≡ []) × (t.in_flight ≡ 0)
unfolding step on_timer
fallback_spent s i ph a p =
    let (same, handle, flying', attempts, effects) =
      schedule_spent (record s { pending = [] }) true a in
    rw (fire_same s i i fallback p ((nat_beq_iff i i).1 refl))
      (effects, same, flying' ∙ none_flying s i ph p)
