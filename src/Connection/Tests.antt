-- ===== src/Connection/Tests.antt =====
-- The theorems on connections, applied to concrete runs.
use ylp_software.Base.{
  ℕ, ◌≡◌, refl, ◌≤◌, true, false, some, List, [], ◌∷◌, ◌++◌, arith, length, lookup, nat_same,
}
use ylp_software.Connection.IceRestart
use ylp_software.Connection.IceRestart.Budget.{run-attempts-le}
use ylp_software.Connection.IceRestart.Recovery.{reset-settle}
use ylp_software.Connection.Liveness
use ylp_software.Connection.Liveness.Probing.{IsConsistent, IsProbing, run-IsProbing}
use ylp_software.Connection.Liveness.Losses.{
  IsBalanced, IsLostOnce, silence, run-IsBalanced, silence-IsLostOnce,
}
use ylp_software.Connection.Planning.{dedupe_candidate_addresses}
use ylp_software.Connection.Planning.Candidates.{IsDialList, dedupe_candidate_addresses-IsDialList}

-- A restart that is scheduled, fires, and whose offer is made.
abbrev restarts : List IceRestart.Event
restarts = IceRestart.schedule false ∷ IceRestart.timer 0 ∷ IceRestart.settled true ∷ []

run-attempts-le_example :
    let s = IceRestart.run IceRestart.initial restarts in
    (s.attempts ≤ IceRestart.max_attempts) × (length s.pending ≤ 1) × (s.in_flight ≤ 1)
unfolding IceRestart.run IceRestart.step IceRestart.initial IceRestart.fire
run-attempts-le_example = run-attempts-le restarts (refl, (tt, (tt, tt)))

abbrev in_flight : IceRestart.State
in_flight = record IceRestart.initial { attempts = 1; in_flight = 1; next_id = 1 }

reset-settle_example :
    let t = IceRestart.settle true (IceRestart.reset_ice_restart_state in_flight) in
    (i : ℕ) × (t.handle ≡ some i)
    × (lookup i t.pending ≡ some IceRestart.fallback)
    × ((IceRestart.fire i t).effects ≡ t.effects ++ IceRestart.ice_restarting ∷ [])
    × (lookup t.next_id (IceRestart.fire i t).pending ≡ some (IceRestart.restart 0))
unfolding IceRestart.initial
reset-settle_example = reset-settle in_flight true tt (omega arith)

abbrev probing : Liveness.State
probing = record Liveness.initial { ping_timer = some 4000 }

abbrev probes : List Liveness.Event
probes =
    Liveness.ping_due true
    ∷ Liveness.pong_timeout
    ∷ Liveness.ping_due false
    ∷ Liveness.pong_received
    ∷ []

run-IsProbing_example :
    IsConsistent (Liveness.run probing probes) × IsProbing (Liveness.run probing probes)
unfolding Liveness.initial
run-IsProbing_example =
    run-IsProbing probing probes (record { deadline = refl; degraded = refl }) refl refl

run-IsBalanced_example :
    IsBalanced probing (Liveness.run (Liveness.step probing Liveness.started) probes)
run-IsBalanced_example = run-IsBalanced probing probes refl

silence-IsLostOnce_example : IsLostOnce Liveness.initial (
    Liveness.run
      (Liveness.run Liveness.initial (Liveness.started ∷ silence true 2))
      (silence true 3))
silence-IsLostOnce_example = silence-IsLostOnce true 3 Liveness.initial

dedupe_candidate_addresses-IsDialList_example :
    IsDialList "10.0.0.2"
      ("10.0.0.7" ∷ "" ∷ "10.0.0.2" ∷ [])
      (dedupe_candidate_addresses (some "10.0.0.2") (some ("10.0.0.7" ∷ "" ∷ "10.0.0.2" ∷ [])))
dedupe_candidate_addresses-IsDialList_example =
    dedupe_candidate_addresses-IsDialList "10.0.0.2" ("10.0.0.7" ∷ "" ∷ "10.0.0.2" ∷ [])
