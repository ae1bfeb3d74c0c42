-- ===== src/Connection/Connecting/Tests.antt =====
-- The theorem on connects, applied to one that fails and is retried.
use ylp_software.Base.{◌*◌, ℕ, zero, suc, true, false, [], ◌∷◌, length}
use ylp_software.Connection.Planning.{auto}
use ylp_software.Connection.Connecting.{failed, established, World, Route, connect_to_peer}
use ylp_software.Connection.Connecting.Dialling.{HasEnded}
use ylp_software.Connection.Connecting.Ends.{connect_to_peer-HasEnded}

abbrev deaf : World
deaf = record {
  mode = auto;
  is_ws_allowed = true;
  ensures_ws = true;
  can_use_tcp = true;
  is_webrtc_connected = false;
  is_tcp_connected = false;
  answers = λ ip attempt. false;
  signals = failed ∷ established ∷ [];
}

abbrev worlds : ℕ → World
worlds zero = deaf
worlds (suc n) = record deaf { signals = established ∷ [] }

abbrev route : Route
route = record { candidates = "10.0.0.2" ∷ "10.0.1.2" ∷ []; has_port = true; is_polite = true }

connect_to_peer-HasEnded_example :
    HasEnded 2 2
      (6 * length route.candidates)
      (connect_to_peer 2 worlds route 0).0
      (connect_to_peer 2 worlds route 0).1
connect_to_peer-HasEnded_example = connect_to_peer-HasEnded worlds route
