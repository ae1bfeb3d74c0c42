-- ===== src/Connection/Signaling/Lifecycle.antt =====
-- Connecting, losing the connection and connecting again (`WsSignalingAdapter`).
use ylp_software.Base.{
  ℕ, suc, ◌+◌, ◌*◌, ◌/◌, ◌^◌, min, max, Bool, true, false, not, ◌&&◌, ◌||◌, String, Option, none,
  some, List, [], ◌∷◌, ◌++◌, leb, get_or_else, is_some, ◌==◌, nat_same, if◌then◌else◌,
}
use ylp_software.Connection.Signaling.Socket.{
  Message, ping_frame, pong_frame, ConnectOptions, AdapterState, idle, connecting, opened, closing,
  announced_open, announced_close, ws_error, reconnect_failed, active_users, reconnecting, received,
  received_raw, closed_socket, State, emit, is_connected, transmit,
}
use ylp_software.Connection.Signaling.Queue.{
  Cipher, send_message, discard_queued_negotiation_for, flush_pending_ice, send_get_active_users,
  flush_queue,
}

abbrev pub is_connecting : AdapterState → Bool
is_connecting connecting = true
is_connecting _ = false

abbrev pub is_open_state : AdapterState → Bool
is_open_state opened = true
is_open_state _ = false

abbrev pub is_idle : AdapterState → Bool
is_idle idle = true
is_idle _ = false

abbrev pub clear_heartbeat : State → State
clear_heartbeat s = record s { heartbeat_timer = false; heartbeat_timeout_timer = false }

-- `this.socket.close(code, …)`: the socket is no longer OPEN.
abbrev pub close_socket : ℕ → Option ℕ → State → State
close_socket code none s = s
close_socket code (some i) s = emit (closed_socket i code) (record s { is_open = false })

-- The socket of a connection to another address.
abbrev pub close_stale : State → State
close_stale s =
    if is_some s.socket && (is_connecting s.state || is_open_state s.state)
    then close_socket 1000 s.socket (record s { state = closing })
    else s

abbrev pub forget_promise : State → State
forget_promise s = record s { connect_promise = none; pending_connect_reject = none }

-- `connect`; `constructs` tells whether the address and the socket can be built.
unfoldable pub connect : ConnectOptions → Bool → State → State
connect options constructs s =
    let c = close_stale (
      clear_heartbeat (record s {
        last_connect_options = some options;
        manually_closed = false;
        reconnect_timer = none;
      })) in
    let epoch = suc c.socket_epoch in
    if is_connecting s.state && is_some s.connect_promise
    then s
    else if is_open_state s.state && is_connected s
    then s
    else if constructs
    then record c {
      socket = some epoch;
      is_open = false;
      state = connecting;
      socket_epoch = epoch;
      connect_promise = some epoch;
      pending_connect_reject = some epoch;
    }
    else emit ws_error (forget_promise c)

-- `isCurrentSocket`
abbrev pub is_current_socket : State → ℕ → Bool
is_current_socket s i = get_or_else s.socket 0 == i && is_some s.socket && i == s.socket_epoch

-- `rejectConnect` of the `connect` that made socket `i`
unfoldable pub reject_connect : ℕ → State → State
reject_connect i s =
    if is_idle s.state || is_open_state s.state
    then s
    else record (forget_promise s) { settled = s.settled ++ (i, false) ∷ [] }

-- `startHeartbeat`
unfoldable pub start_heartbeat : ConnectOptions → State → State
start_heartbeat options s =
    if get_or_else options.heartbeat_interval_ms 15000 == 0
      || get_or_else options.heartbeat_timeout_ms 7000 == 0
    then s
    else record s { heartbeat_timer = true; heartbeat_timeout_timer = false }

-- `onopen` of the socket that `connect options` made
unfoldable pub on_open : ConnectOptions → ℕ → ℕ → State → State
unfolding flush_queue start_heartbeat
on_open options i now s =
    let o =
      emit announced_open (record s { is_open = true; reconnect_attempts = 0; state = opened }) in
    let h = forget_promise (start_heartbeat options (flush_queue now o)) in
    if is_current_socket s i then record h { settled = h.settled ++ (i, true) ∷ [] } else s

-- `onerror`
unfoldable pub on_error : ℕ → State → State
unfolding reject_connect
on_error i s =
    let e = emit ws_error s in
    if is_current_socket s i then if is_connecting s.state then reject_connect i e else e else s

-- The delay of a reconnection; the random factor is given in thousandths, from 800 to 1200.
unfoldable pub backoff_delay : ConnectOptions → ℕ → ℕ → ℕ
backoff_delay options attempts jitter =
    let base = get_or_else options.reconnect_base_delay_ms 750 in
    let cap = get_or_else options.reconnect_max_delay_ms 10000 in
    let delay = min cap ((2 * base * 18 ^ attempts + 10 ^ attempts) / (2 * 10 ^ attempts)) in
    max 100 ((2 * delay * jitter + 1000) / 2000)

abbrev pub max_attempts : ConnectOptions → ℕ
max_attempts options = get_or_else options.max_reconnect_attempts 8

-- `tryReconnect`, with the options of the last `connect`
unfoldable pub try_reconnect : Option ConnectOptions → ℕ → State → State
try_reconnect none jitter s = s
try_reconnect (some options) jitter s =
    if not options.auto_reconnect
    then s
    else if leb (max_attempts options) s.reconnect_attempts
    then emit reconnect_failed s
    else record (emit (reconnecting (s.reconnect_attempts + 1)) s) {
      reconnect_attempts = s.reconnect_attempts + 1;
      reconnect_timer = some (options, backoff_delay options s.reconnect_attempts jitter);
    }

-- `onclose`
unfoldable pub on_close : ℕ → Bool → ℕ → State → State
unfolding reject_connect try_reconnect
on_close i was_clean jitter s =
    let c = emit announced_close (record (clear_heartbeat s) { socket = none; state = idle }) in
    let r = if was_clean then c else reject_connect i c in
    if is_current_socket s i
    then if s.manually_closed then r else try_reconnect r.last_connect_options jitter r
    else s

-- The callback of the reconnection timer, if it is set.
unfoldable pub fire_reconnect : Option (ConnectOptions × ℕ) → Bool → State → State
unfolding connect
fire_reconnect none constructs s = s
fire_reconnect (some (options, delay)) constructs s =
    let t = record s { reconnect_timer = none } in
    if s.manually_closed then t else connect options constructs t

abbrev pub reject_pending : Option ℕ → State → State
reject_pending none s = s
reject_pending (some i) s = record s { settled = s.settled ++ (i, false) ∷ [] }

-- `resetTransportForNetworkChange`
unfoldable pub reset_transport_for_network_change : State → State
reset_transport_for_network_change s =
    let r = forget_promise (
      reject_pending s.pending_connect_reject
        (clear_heartbeat (record s { reconnect_timer = none }))) in
    let c = record r { socket = none; state = idle; socket_epoch = suc s.socket_epoch } in
    record (close_socket 4001 s.socket c) { reconnect_attempts = 0; manually_closed = false }

abbrev pub settle_disconnect : Option ℕ → State → State
settle_disconnect none s = s
settle_disconnect (some i) s = forget_promise (reject_pending (some i) s)

-- `disconnect`, with `resetSessionState`
unfoldable pub disconnect : ℕ → State → State
disconnect code s =
    let r =
      settle_disconnect s.pending_connect_reject
        (clear_heartbeat (record s { manually_closed = true; reconnect_timer = none })) in
    record (close_socket code s.socket r) {
      socket = none;
      state = idle;
      outbound_queue = [];
      reconnect_attempts = 0;
      last_connect_options = none;
    }

-- The callbacks of the two heartbeat timers.
unfoldable pub on_heartbeat : State → State
on_heartbeat s =
    if is_connected s then record (transmit ping_frame s) { heartbeat_timeout_timer = true } else s

unfoldable pub on_heartbeat_timeout : State → State
on_heartbeat_timeout s =
    let t = record s { heartbeat_timeout_timer = false } in
    if is_connected s then close_socket 4000 s.socket t else t

-- An incoming message, as `parseWsMessage` classifies it; a signaling message may bring the key of
-- its sender.
pub data Incoming : Type 0 where
  pong ping raw users : Incoming
  signaling : Message → Bool → Incoming
  forwarded : Message → Incoming

-- `handleIncomingMessage`
unfoldable pub handle_incoming_message : Cipher → ℕ → Incoming → State → State
unfolding flush_pending_ice
handle_incoming_message cipher now pong s = record s { heartbeat_timeout_timer = false }
handle_incoming_message cipher now ping s = if is_connected s then transmit pong_frame s else s
handle_incoming_message cipher now raw s = emit received_raw s
handle_incoming_message cipher now users s = emit active_users s
handle_incoming_message cipher now (signaling m brings_key) s = emit (received m) (
    if brings_key && is_some cipher
    then flush_pending_ice cipher (get_or_else m.sender "") now s
    else s)
handle_incoming_message cipher now (forwarded m) s = emit (received m) s

pub data Event : Type 0 where
  connected_to : ConnectOptions → Bool → Event
  socket_opened : ConnectOptions → ℕ → ℕ → Event
  socket_failed : ℕ → Event
  socket_closed : ℕ → Bool → ℕ → Event
  socket_dropped : Event
  socket_message : ℕ → Cipher → ℕ → Incoming → Event
  sending : Cipher → Message → ℕ → Event
  discarding : String → Event
  key_available : Cipher → String → ℕ → Event
  asking_users : Event
  reconnect_due : Bool → Event
  heartbeat_due heartbeat_late : Event
  network_changed : Event
  disconnecting : ℕ → Event

-- One event. A timer fires only while it is set; `socket_dropped` is the `readyState` that leaves
-- OPEN before `onclose` is called.
unfoldable pub step : State → Event → State
unfolding connect on_open on_error on_close fire_reconnect reset_transport_for_network_change
    disconnect on_heartbeat on_heartbeat_timeout handle_incoming_message send_message
    discard_queued_negotiation_for flush_pending_ice send_get_active_users
step s (connected_to options constructs) = connect options constructs s
step s (socket_opened options i now) = on_open options i now s
step s (socket_failed i) = on_error i s
step s (socket_closed i was_clean jitter) = on_close i was_clean jitter s
step s socket_dropped = record s { is_open = false }
step s (socket_message i cipher now m) =
    if is_current_socket s i then handle_incoming_message cipher now m s else s
step s (sending cipher m now) = send_message cipher m now s
step s (discarding peer) = discard_queued_negotiation_for peer s
step s (key_available cipher peer now) = flush_pending_ice cipher peer now s
step s asking_users = send_get_active_users s
step s (reconnect_due constructs) = fire_reconnect s.reconnect_timer constructs s
step s heartbeat_due = if s.heartbeat_timer then on_heartbeat s else s
step s heartbeat_late = if s.heartbeat_timeout_timer then on_heartbeat_timeout s else s
step s network_changed = reset_transport_for_network_change s
step s (disconnecting code) = disconnect code s

unfoldable pub run : State → List Event → State
run s [] = s
run s (e ∷ es) = run (step s e) es
