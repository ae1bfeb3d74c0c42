-- ===== src/Chat/AckTracker/Tests.antt =====
-- The theorem on acknowledgements, applied to a concrete run.
use ylp_software.Base.{◌≡◌, refl, List, [], ◌∷◌}
use ylp_software.Chat.AckTracker.{initial, Event, armed, cleared, fired, run, step}
use ylp_software.Chat.AckTracker.Silence.{times, cleared-run}

abbrev history : List Event
history = armed "m1" ∷ armed "m2" ∷ armed "m1" ∷ []

abbrev later : List Event
later = fired 3 ∷ fired 2 ∷ []

cleared-run_example :
    times "m1" (run (step (run initial history) (cleared "m1")) later).timed_out
    ≡ times "m1" (run initial history).timed_out
cleared-run_example = cleared-run history later "m1" refl
