-- ===== src/Connection/Signaling/Socket.antt =====
-- What `WsSignalingAdapter` keeps (adapters/ws-signaling-adapter.ts) and the messages it carries. A
-- payload stands for its JSON text. What the listeners of the adapter's events do is not followed.
use ylp_software.Base.{
  ℕ, Bool, true, false, ◌&&◌, ◌||◌, String, Option, none, List, [], ◌∷◌, ◌++◌, is_some,
}

-- `message.type`: those of WebRTC's negotiation and `handshake` are told apart from the others.
pub data Kind : Type 0 where
  offer answer ice_candidate handshake : Kind
  other : String → Kind

-- A message, with `data.to`, `data.sender` and `data.credential`.
pub record Message : Type 0 where
  pub kind : Kind
  pub to : Option String
  pub sender : Option String
  pub credential : Option String
  pub body : String

-- What is written to a socket.
pub data Frame : Type 0 where
  plain : Message → Frame
  encrypted : Kind → String → String → String → Option String → Frame
  ping_frame pong_frame get_active_users : Frame

-- `QueuedSignalingMessage`
pub record Queued : Type 0 where
  pub payload : Frame
  pub created_at : ℕ
  pub kind : Kind
  pub to : Option String

-- `ConnectOptions`, without the parts of the address; `auto_reconnect` is `autoReconnect !== false`.
pub record ConnectOptions : Type 0 where
  pub auto_reconnect : Bool
  pub max_reconnect_attempts : Option ℕ
  pub reconnect_base_delay_ms : Option ℕ
  pub reconnect_max_delay_ms : Option ℕ
  pub heartbeat_interval_ms : Option ℕ
  pub heartbeat_timeout_ms : Option ℕ

pub data AdapterState : Type 0 where
  idle connecting opened closing : AdapterState

-- What the adapter's listeners are told, and the closing of sockets.
pub data Effect : Type 0 where
  announced_open announced_close ws_error reconnect_failed active_users : Effect
  reconnecting : ℕ → Effect
  received : Message → Effect
  received_raw : Effect
  closed_socket : ℕ → ℕ → Effect

-- A socket, and the promise of the `connect` that made it, are named by their epoch. `is_open` says
-- that the socket's `readyState` is OPEN; `settled` lists the promises that were resolved (`true`)
-- or rejected; the timer of a reconnection has the options and the delay it was set with.
pub record State : Type 0 where
  pub socket : Option ℕ
  pub is_open : Bool
  pub state : AdapterState
  pub socket_epoch : ℕ
  pub outbound_queue : List Queued
  pub reconnect_timer : Option (ConnectOptions × ℕ)
  pub reconnect_attempts : ℕ
  pub heartbeat_timer : Bool
  pub heartbeat_timeout_timer : Bool
  pub manually_closed : Bool
  pub last_connect_options : Option ConnectOptions
  pub connect_promise : Option ℕ
  pub pending_connect_reject : Option ℕ
  pub pending_ice : List (String × List (Message × ℕ))
  pub wire : List Frame
  pub settled : List (ℕ × Bool)
  pub effects : List Effect

unfoldable pub initial : State
initial = record {
  socket = none;
  is_open = false;
  state = idle;
  socket_epoch = 0;
  outbound_queue = [];
  reconnect_timer = none;
  reconnect_attempts = 0;
  heartbeat_timer = false;
  heartbeat_timeout_timer = false;
  manually_closed = false;
  last_connect_options = none;
  connect_promise = none;
  pending_connect_reject = none;
  pending_ice = [];
  wire = [];
  settled = [];
  effects = [];
}

abbrev pub emit : Effect → State → State
emit e s = record s { effects = s.effects ++ e ∷ [] }

-- `isConnected`
abbrev pub is_connected : State → Bool
is_connected s = is_some s.socket && s.is_open

abbrev pub transmit : Frame → State → State
transmit f s = record s { wire = s.wire ++ f ∷ [] }

-- `NEGOTIATION_TYPES.has(type)`
abbrev pub is_negotiation : Kind → Bool
is_negotiation offer = true
is_negotiation answer = true
is_negotiation ice_candidate = true
is_negotiation _ = false

abbrev pub is_ice : Kind → Bool
is_ice ice_candidate = true
is_ice _ = false

abbrev pub is_handshake : Kind → Bool
is_handshake handshake = true
is_handshake _ = false

-- `isSignalingMessage`
abbrev pub is_signaling_message : Message → Bool
is_signaling_message m =
    (is_negotiation m.kind || is_handshake m.kind) && is_some m.to && is_some m.sender
