-- ===== src/Call/Service/Tests.antt =====
-- The theorems on calls, applied to concrete runs.
use Prim.Native.String.{compare}
use Prim.Native.Nat.{Ordering}
use ylp_software.Base.{
  ◌≡◌, refl, Bool, true, false, String, ◌&&◌, is_some, none, List, [], ◌∷◌, string_same, nat_same,
}
use ylp_software.Model.{audio, video}
use ylp_software.Call.Store.{session_at, live_session, open_session, mark_answered}
use ylp_software.Call.Store.Sound.{is_live_of}
use ylp_software.Call.Service.{
  Calls, with_session, start, inform_peer, ensure_session, on_call_ready,
}
use ylp_software.Call.Service.Running.{
  Outcome, Event, informed, ready_received, resumed, terminated, System, run, idle, step, resume,
}
use ylp_software.Call.Service.AudioLedger.{IsOwned}
use ylp_software.Call.Service.AudioLedger.Runs.{run-IsOwned}
use ylp_software.Call.Service.Sessions.Runs.{run-live}
use ylp_software.Call.Service.Readiness.{IsOnce, on_call_ready-IsOnce}
use ylp_software.Call.Service.Retirement.{
  IsReleased, locally, end_call, finish, is_reused, end-IsReleased,
}

abbrev later : String → String → Bool
later a b = elim (compare a b) [ Ordering.gt ↦ true | _ ↦ false ]

abbrev good : Outcome
good = record {
  fulfilled = true;
  now = 5000;
  is_webrtc_connected = true;
  sends = true;
  call_id = "call";
  conversation_id = "talk";
  peer_name = "Bea";
  message_id = "log";
}

abbrev broken : Outcome
broken = record good { fulfilled = false; sends = false }

-- A peer is invited.
abbrev ringing : List Event
ringing =
    informed audio "bea" ∷ resumed 0 good ∷ resumed 0 good ∷ resumed 0 good ∷ resumed 0 good ∷ []

-- The peer is ready, and the call begins.
abbrev in_call : List Event
in_call =
    informed audio "bea"
    ∷ resumed 0 good
    ∷ resumed 0 good
    ∷ resumed 0 good
    ∷ resumed 0 good
    ∷ ready_received "bea" "call"
    ∷ resumed 0 good
    ∷ resumed 0 good
    ∷ []

abbrev talking : Calls
talking = (run later (idle "ann") in_call).calls

run-live_example :
    is_live_of "bea" (session_at (run later (idle "ann") in_call).calls.store 0) ≡ true
unfolding run step on_call_ready inform_peer resume open_session mark_answered
run-live_example = run-live later "ann" in_call "bea" 0 refl

run-IsOwned_example : IsOwned (run later (idle "ann") in_call).calls.device
run-IsOwned_example = run-IsOwned later "ann" in_call

end-IsReleased_example :
    let d = finish (end_call (locally none 9000) "bea" talking) broken talking in
    IsReleased "bea" d
    × (is_some (live_session talking.store "bea")
          && is_reused (ensure_session "bea" video false none none (start video) d).1
        ≡ false)
end-IsReleased_example =
    end-IsReleased (locally none 9000) "bea" talking talking broken video false none none
      (start video)

abbrev waiting : System
waiting = run later (idle "ann") ringing

-- The call goes on, and another one ends.
abbrev afterwards : List Event
afterwards = resumed 0 good ∷ terminated "dan" none 7000 ∷ resumed 0 good ∷ []

on_call_ready-IsOnce_example : IsOnce later "bea" "call" waiting afterwards
unfolding run step on_call_ready inform_peer resume open_session
on_call_ready-IsOnce_example =
    on_call_ready-IsOnce later "bea" "call" waiting afterwards (with_session "bea" 0 (start audio))
      refl refl refl
