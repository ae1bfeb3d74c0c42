-- ===== src/Call/Service.antt =====
-- `CallService` (services/call-service.ts): its state, the operations up to their first `await`, and
-- what they share. `Running` goes on from there.
pub mod Running
pub mod Disarmed
pub mod Readiness
pub mod Retirement
pub mod Sessions
pub mod AudioLedger
mod Tests
use ylp_software.Base.{
  ℕ, suc, Bool, true, false, not, ◌&&◌, ◌||◌, String, Option, none, some, List, [], ◌∷◌, ◌++◌,
  lookup, insert, erase, get_or_else, ◌<|>◌, is_some, nat_same, string_same, ◌==◌, if◌then◌else◌,
}
use ylp_software.Model.{CallType, CallStatus}
use ylp_software.Connection.CallRouting.{
  Reason, missed, Ending, Marker, set_active_call, clear_active_call,
}
use ylp_software.Call.Audio.{Device, silent, release_audio}
use ylp_software.Call.Store.{Session, Store, no_sessions, deref, live_session, resolve_final_status}

pub data ConnectedState : Type 0 where
  connected disconnected : ConnectedState

pub data Signal : Type 0 where
  invitation : CallType → Option String → Option String → Signal
  call_ready : Option String → Signal
  declined no_answer : Signal
  call_ended : Ending → Signal

-- What the service asks of its collaborators and tells its listeners.
pub data Command : Type 0 where
  set_polite : String → Bool → Command
  call_torn_down : String → Command
  sent : String → Signal → Command
  acknowledged : String → Option String → Command
  sync_started : Command
  stream_emitted : ℕ → Command
  local_stream_ready : String → Command

pub record Calls : Type 0 where
  pub user_id : String
  pub store : Store
  pub device : Device
  pub connected_state_by_peer : List (String × ConnectedState)
  pub remote_stream : Option ℕ
  pub has_busy_reject_handler : Bool
  pub call_ready_handler : Option (String × CallType)
  pub marker : Marker
  pub commands : List Command

abbrev pub new_calls : String → Calls
new_calls user = record {
  user_id = user;
  store = no_sessions;
  device = silent;
  connected_state_by_peer = [];
  remote_stream = none;
  has_busy_reject_handler = false;
  call_ready_handler = none;
  marker = record { user_id = user; active_call_peer_id = none; glare_accepted_peers = [] };
  commands = [];
}

-- What an operation has still to do with its session, once it has it.
pub data Continuation : Type 0 where
  start answer inform : CallType → Continuation
  reject mark_missed : Continuation

-- An operation that awaits something. `ending` and `late_log` are in `finalizeSession` and
-- `saveCallLogWithReceipts`.
pub data Task : Type 0 where
  creating : String → CallType → Bool → Option String → Option String → Continuation → Task
  with_session : String → ℕ → Continuation → Task
  connecting initializing : String → CallType → ℕ → Task
  renegotiating : String → Task
  early_media : String → CallType → ℕ → Task
  awaiting_channel answering : String → Task
  preparing informing : String → CallType → ℕ → Task
  ending : String → Option ℕ → Option ℕ → CallStatus → ℕ → String → Task
  remote_ending : String → ℕ → Option String → Task
  late_log : String → Option String → Task

abbrev pub command : Command → Calls → Calls
command x c = record c { commands = c.commands ++ x ∷ [] }

abbrev pub is_connected_state : Option ConnectedState → Bool
is_connected_state (some connected) = true
is_connected_state state = false

-- `getConnectedState(peerId) === "connected"`
abbrev pub is_connected : Calls → String → Bool
is_connected c peer = is_connected_state (lookup peer c.connected_state_by_peer)

abbrev pub connect_state : String → Calls → Calls
connect_state peer c = record c {
  connected_state_by_peer = insert peer connected c.connected_state_by_peer;
}

-- `releasePerCallResources`, `clearCallSignalingHandlers`
unfoldable pub release_per_call_resources : String → Calls → Calls
unfolding release_audio
release_per_call_resources peer c = record c {
  device = release_audio peer c.device;
  connected_state_by_peer = erase peer c.connected_state_by_peer;
  remote_stream = none;
  marker = clear_active_call peer c.marker;
  has_busy_reject_handler = false;
  call_ready_handler = none;
}

abbrev pub reuse_or_create :
    String
    → CallType
    → Bool
    → Option String
    → Option String
    → Continuation
    → Calls
    → Option ℕ
    → Calls × Option Task
reuse_or_create peer type incoming conversation call_id next c (some ref) =
    (c, some (with_session peer ref next))
reuse_or_create peer type incoming conversation call_id next c none = (
  record c { remote_stream = none },
  some (creating peer type incoming conversation call_id next),
)

-- `ensureSession` up to its first `await`.
unfoldable pub ensure_session :
    String
    → CallType
    → Bool
    → Option String
    → Option String
    → Continuation
    → Calls
    → Calls × Option Task
ensure_session peer type incoming conversation call_id next c =
    reuse_or_create peer type incoming conversation call_id next c (live_session c.store peer)

-- `startCall`
unfoldable pub start_call :
    (String → String → Bool) → CallType → String → Calls → Calls × Option Task
unfolding ensure_session
start_call later type peer c =
    ensure_session peer type false none none (start type)
      (command (set_polite peer (later peer c.user_id)) c)

-- `answerCall`
unfoldable pub answer_call :
    (String → String → Bool)
    → CallType
    → String
    → Option String
    → Option String
    → Calls
    → Calls × Option Task
unfolding ensure_session
answer_call later type peer conversation call_id c =
    ensure_session peer type true conversation call_id (answer type)
      (command (set_polite peer (later peer c.user_id)) c)

-- `informPeerForIncomingCall`
unfoldable pub inform_peer : CallType → String → Calls → Calls × Option Task
unfolding ensure_session
inform_peer type peer c =
    if peer == c.user_id
    then (c, none)
    else ensure_session peer type false none none (inform type) c

abbrev pub initiator : Calls → String → Option Session → String
initiator c peer none = c.user_id
initiator c peer (some session) = if session.is_incoming then peer else c.user_id

-- `terminateCallConnection` up to its first `await`.
unfoldable pub terminate_call : String → Option Reason → ℕ → Calls → Calls × Option Task
unfolding resolve_final_status
terminate_call peer reason now c =
    let ref = lookup peer c.store.call_sessions in
    let session = deref c.store ref in
    let live = live_session c.store peer in
    let torn = if is_some live || is_connected c peer then call_torn_down peer ∷ [] else [] in
    (
      record c { commands = c.commands ++ torn },
      some (
          ending peer ref live (resolve_final_status reason session) now
            (initiator c peer session)),
    )

-- The `catch` of `startCall`.
unfoldable pub recover : String → ℕ → Calls → Calls × Option Task
unfolding terminate_call
recover peer now c =
    if is_connected c peer then (c, none) else terminate_call peer (some missed) now c

abbrev pub end_remotely : String → Ending → Calls → Option ℕ → Option ℕ → Calls × Option Task
end_remotely peer payload c none live = (c, some (late_log peer payload.message_id))
end_remotely peer payload c (some ref) none =
    (release_per_call_resources peer (command (acknowledged peer payload.message_id) c), none)
end_remotely peer payload c (some ref) (some live) =
    (command (call_torn_down peer) c, some (remote_ending peer live payload.message_id))

-- `handleRemoteCallEnded` up to its first `await`.
unfoldable pub handle_remote_call_ended : String → Ending → Calls → Calls × Option Task
unfolding release_per_call_resources
handle_remote_call_ended peer payload c =
    end_remotely peer payload c (lookup peer c.store.call_sessions) (live_session c.store peer)

abbrev pub call_id_of : Option Session → Option String
call_id_of none = none
call_id_of (some session) = some session.call_id

abbrev pub conversation_id_of : Option Session → Option String
conversation_id_of none = none
conversation_id_of (some session) = some session.conversation_id

abbrev pub is_call : Option String → String → Bool
is_call none call_id = false
is_call (some own) call_id = call_id == own

-- Whether the `call-ready` is of the session that the handler waits for.
abbrev pub is_correlated : Calls → Option (String × CallType) → String → String → Bool
is_correlated c none peer call_id = false
is_correlated c (some (waited, type)) peer call_id =
    peer == waited && is_call (call_id_of (deref c.store (live_session c.store waited))) call_id

abbrev pub start_waited :
    (String → String → Bool) → Option (String × CallType) → Calls → Calls × Option Task
start_waited later none c = (c, none)
start_waited later (some (waited, type)) c =
    start_call later type waited (record c { call_ready_handler = none })

-- The handler of `call-ready`.
unfoldable pub on_call_ready :
    (String → String → Bool) → String → String → Calls → Calls × Option Task
unfolding start_call
on_call_ready later peer call_id c =
    if is_correlated c c.call_ready_handler peer call_id
    then start_waited later c.call_ready_handler c
    else (c, none)

-- The listener of `remoteStream`.
unfoldable pub on_remote_stream : ℕ → Calls → Calls
on_remote_stream stream c =
    command (stream_emitted stream) (record c { remote_stream = some stream })
