-- ===== src/Connection/IceRestart/Recovery.antt =====
-- A recovery that is noticed while a restart offer is in flight.
use ylp_software.Base.{
  ℕ, suc, ◌<◌, ◌≡◌, refl, Bool, true, some, List, [], ◌∷◌, ◌++◌, arith, lookup, erase, nat_same,
  nat_beq_iff, Option-cases, inl, inr,
}
use ylp_software.Connection.IceRestart.{
  Timer, restart, fallback, ice_restarting, State, max_attempts, schedule_ice_restart, on_timer,
  fire, settle, reset_ice_restart_state,
}

-- No pending timer has an id that is still to come.
abbrev pub IsFresh : ℕ → List (ℕ × Timer) → Type 0
IsFresh n [] = Unit
IsFresh n ((i, t) ∷ m) = (i < n) × IsFresh n m

lookup-append_fresh :
    (n : ℕ) (t : Timer) (m : List (ℕ × Timer)) → IsFresh n m → lookup n (m ++ (n, t) ∷ []) ≡ some t
lookup-append_fresh n t [] h = ground (arith, nat_beq_iff n n)
lookup-append_fresh n t ((i, u) ∷ m) (l, h) = ground (arith, lookup-append_fresh n t m h)

erase-IsFresh : (n i : ℕ) (m : List (ℕ × Timer)) → IsFresh n m → IsFresh n (erase i m)
erase-IsFresh n i [] h = tt
erase-IsFresh n i ((j, u) ∷ m) (l, h) = ground (arith, erase-IsFresh n i m h)

IsFresh-append :
    (n : ℕ) (t : Timer) (m : List (ℕ × Timer)) → IsFresh n m → IsFresh (suc n) (m ++ (n, t) ∷ [])
IsFresh-append n t [] h = (omega arith, tt)
IsFresh-append n t ((i, u) ∷ m) (l, h) = (omega arith, IsFresh-append n t m h)

reset_fields :
    (s : State)
    → IsFresh s.next_id s.pending
    → let t = reset_ice_restart_state s in
      (t.attempts ≡ 0)
      × (t.in_flight ≡ s.in_flight)
      × (t.next_id ≡ s.next_id)
      × IsFresh t.next_id t.pending
unfolding reset_ice_restart_state
reset_fields s h = elim (Option-cases s.handle) [
  | inl e ↦ rw e (refl, refl, refl, h)
  | inr (i, e) ↦ rw e (refl, refl, refl, erase-IsFresh s.next_id i s.pending h)
]

settle_fields :
    (s : State) (made : Bool)
    → IsFresh s.next_id s.pending
    → 0 < s.in_flight
    → let t = settle made s in
      (t.attempts ≡ s.attempts)
      × (t.handle ≡ some s.next_id)
      × (t.pending ≡ s.pending ++ (s.next_id, fallback) ∷ [])
      × (t.next_id ≡ suc s.next_id)
unfolding settle
settle_fields s made h f = ground arith

fire_found :
    (t : State) (i : ℕ) {u : Timer}
    → lookup i t.pending ≡ some u
    → fire i t ≡ on_timer u (record t { pending = erase i t.pending })
unfolding fire
fire_found t i l = rw (l, fire)

schedule_with_handle :
    (u : State) (i : ℕ)
    → u.attempts < max_attempts
    → u.handle ≡ some i
    → let t = schedule_ice_restart true u in
      (t.effects ≡ u.effects ++ ice_restarting ∷ [])
      × (t.pending ≡ erase i u.pending ++ (u.next_id, restart 0) ∷ [])
unfolding schedule_ice_restart
schedule_with_handle u i a e = ground arith

-- The fallback of a controller that has attempts left announces a restart and sets its timer.
fire_fallback :
    (t : State) (i : ℕ)
    → t.attempts < max_attempts
    → t.handle ≡ some i
    → lookup i t.pending ≡ some fallback
    → IsFresh t.next_id t.pending
    → ((fire i t).effects ≡ t.effects ++ ice_restarting ∷ [])
      × (lookup t.next_id (fire i t).pending ≡ some (restart 0))
unfolding on_timer
fire_fallback t i a e l h =
    let (effects, pending) =
      schedule_with_handle (record t { pending = erase i t.pending }) i a e in
    rw (fire_found t i l) (
      effects,
      rw pending (
          lookup-append_fresh t.next_id (restart 0) (erase i (erase i t.pending)) (
            erase-IsFresh t.next_id i (erase i t.pending) (erase-IsFresh t.next_id i t.pending h))),
    )

-- A reset while an offer is in flight does not end the restarts: when the offer settles, a
-- fallback timer is pending again, and its firing announces another restart and sets its timer.
pub reset-settle :
    (s : State) (made : Bool)
    → IsFresh s.next_id s.pending
    → 0 < s.in_flight
    → let t = settle made (reset_ice_restart_state s) in
      (i : ℕ) × (t.handle ≡ some i)
      × (lookup i t.pending ≡ some fallback)
      × ((fire i t).effects ≡ t.effects ++ ice_restarting ∷ [])
      × (lookup t.next_id (fire i t).pending ≡ some (restart 0))
reset-settle s made h f =
    let r = reset_ice_restart_state s in
    let t = settle made r in
    let (attempts, flying, id, fresh) = reset_fields s h in
    let (kept, handle, pending, next) = settle_fields r made fresh (omega arith) in
    let found : lookup r.next_id t.pending ≡ some fallback =
      rw pending (lookup-append_fresh r.next_id fallback r.pending fresh) in
    let fresh' : IsFresh t.next_id t.pending =
      rw (next, pending) (IsFresh-append r.next_id fallback r.pending fresh) in
    let (announced, armed) = fire_fallback t r.next_id (omega arith) handle found fresh' in
    (r.next_id, handle, found, announced, armed)
