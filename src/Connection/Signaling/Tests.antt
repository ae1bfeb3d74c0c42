-- ===== src/Connection/Signaling/Tests.antt =====
-- The theorems on the signaling socket, applied to concrete runs.
use ylp_software.Base.{
  ◌+◌, ◌≡◌, refl, true, false, String, none, some, List, [], ◌∷◌, ◌++◌, map, lookup, string_same,
  arith,
}
use ylp_software.Connection.Signaling.Socket.{
  offer, ice_candidate, Message, plain, Queued, ConnectOptions, connecting, State, initial,
}
use ylp_software.Connection.Signaling.Queue.{Cipher, send_message, discard_queued_negotiation_for}
use ylp_software.Connection.Signaling.Lifecycle.{
  on_open, backoff_delay, Event, connected_to, socket_opened, socket_failed, socket_closed, sending,
  reconnect_due, network_changed, heartbeat_due, disconnecting, step, run,
}
use ylp_software.Connection.Signaling.Delivery.{sealing, IsKept, send_message-IsKept}
use ylp_software.Connection.Signaling.Discarding.{survivors, discard-on_open}
use ylp_software.Connection.Signaling.Bounded.{IsQueueBounded, run-IsQueueBounded}
use ylp_software.Connection.Signaling.Changes.{network_changed-run}
use ylp_software.Connection.Signaling.Recovery.{socket_closed-reconnect_due, socket_closed-settled}
use ylp_software.Connection.Signaling.Closing.{IsDown, disconnecting-IsDown}
use ylp_software.Connection.Signaling.Attempts.{IsWithin, run-IsWithin}

abbrev options : ConnectOptions
options = record {
  auto_reconnect = true;
  max_reconnect_attempts = none;
  reconnect_base_delay_ms = none;
  reconnect_max_delay_ms = none;
  heartbeat_interval_ms = none;
  heartbeat_timeout_ms = none;
}

abbrev candidate : Message
candidate = record {
  kind = ice_candidate;
  to = some "peer";
  sender = some "me";
  credential = none;
  body = "candidate";
}

abbrev queued : String → Queued
queued peer = record {
  payload = plain (record candidate { to = some peer });
  created_at = 5;
  kind = offer;
  to = some peer;
}

-- The first socket is being connected; two offers are in the queue.
abbrev dialling : State
dialling = record initial {
  socket = some 1;
  state = connecting;
  socket_epoch = 1;
  last_connect_options = some options;
  connect_promise = some 1;
  pending_connect_reject = some 1;
  outbound_queue = queued "peer" ∷ queued "friend" ∷ [];
}

-- No peer's key is known.
abbrev no_keys : Cipher
no_keys = some (λ m peer. none)

send_message-IsKept_example :
    IsKept
      (sealing no_keys candidate)
      candidate
      7
      dialling
      (send_message no_keys candidate 7 dialling)
send_message-IsKept_example = send_message-IsKept no_keys candidate 7 dialling

discard-on_open_example :
    let t = on_open options 1 9 (discard_queued_negotiation_for "peer" dialling) in
    (t.wire
      ≡ dialling.wire
        ++ map (λ (q : Queued). q.payload) (survivors "peer" 9 dialling.outbound_queue))
    × (t.outbound_queue ≡ [])
    × (lookup "peer" t.pending_ice ≡ none)
unfolding initial
discard-on_open_example = discard-on_open options 1 9 "peer" dialling refl

abbrev calls : List Event
calls = sending no_keys candidate 7 ∷ socket_opened options 1 9 ∷ heartbeat_due ∷ []

run-IsQueueBounded_example : IsQueueBounded (run dialling calls)
unfolding initial
run-IsQueueBounded_example = run-IsQueueBounded dialling calls refl (omega arith)

network_changed-run_example :
    let reset = step dialling network_changed in
    let t =
      run
        (step (run reset (socket_failed 1 ∷ [])) (connected_to options true))
        (socket_closed 1 false 1000 ∷ []) in
    (run reset (socket_failed 1 ∷ []) ≡ reset)
    × (t ≡ step reset (connected_to options true))
    × (t.state ≡ connecting)
    × (t.outbound_queue ≡ dialling.outbound_queue)
    × (t.pending_ice ≡ dialling.pending_ice)
unfolding initial
network_changed-run_example =
    network_changed-run dialling options (socket_failed 1 ∷ []) (socket_closed 1 false 1000 ∷ [])
      (omega arith, tt) (omega arith, tt)

socket_closed-reconnect_due_example :
    let c = step dialling (socket_closed 1 false 1000) in
    let t = step c (reconnect_due true) in
    (c.reconnect_timer ≡ some (options, backoff_delay options dialling.reconnect_attempts 1000))
    × (t.state ≡ connecting)
    × (t.socket ≡ some 2)
    × (t.reconnect_attempts ≡ dialling.reconnect_attempts + 1)
    × (t.outbound_queue ≡ dialling.outbound_queue)
unfolding initial
socket_closed-reconnect_due_example =
    socket_closed-reconnect_due dialling options 1 1000 false (refl, refl, refl, refl, omega arith)

socket_closed-settled_example :
    let c = step dialling (socket_closed 1 false 1000) in
    let t = step c (reconnect_due true) in
    (c.settled ≡ dialling.settled)
    × (c.connect_promise ≡ some 1)
    × (t.settled ≡ dialling.settled)
    × (t.connect_promise ≡ some 2)
    × (t.pending_connect_reject ≡ some 2)
unfolding initial
socket_closed-settled_example =
    socket_closed-settled dialling options 1 1000 false (refl, refl, refl, refl, omega arith) refl

disconnecting-IsDown_example :
    IsDown dialling.wire (run (step dialling (disconnecting 1000)) (reconnect_due true ∷ calls))
unfolding initial
disconnecting-IsDown_example = disconnecting-IsDown 1000 dialling (reconnect_due true ∷ calls) refl

run-IsWithin_example :
    IsWithin 8 (run dialling (socket_closed 1 true 900 ∷ reconnect_due true ∷ []))
unfolding initial
run-IsWithin_example =
    run-IsWithin 8 dialling (socket_closed 1 true 900 ∷ reconnect_due true ∷ []) (tt, (tt, tt))
      (record { attempts = omega arith; last = omega arith; timed = tt })
