-- ===== src/Call/Service/Running.antt =====
-- `CallService` (services/call-service.ts) after an `await`, and the operations as they interleave.
use ylp_software.Base.{
  ℕ, zero, suc, Bool, true, false, ◌&&◌, String, Option, none, some, List, [], ◌∷◌, ◌++◌,
  if◌then◌else◌,
}
use ylp_software.Model.{CallType, audio, CallStatus}
use ylp_software.Connection.CallRouting.{
  Reason, completed, missed, rejected, Ending, set_active_call,
}
use ylp_software.Call.Audio.{DeviceEvent, start_audio_session, on_device_event}
use ylp_software.Call.Store.{
  Session, session_at, deref, open_session, mark_answered, retire, calculate_duration_seconds,
}
use ylp_software.Call.Service.{
  Signal, invitation, call_ready, declined, no_answer, call_ended, sent, acknowledged, sync_started,
  local_stream_ready, Calls, new_calls, Continuation, start, answer, inform, reject, mark_missed,
  Task, creating, with_session, connecting, initializing, renegotiating, early_media,
  awaiting_channel, answering, preparing, informing, ending, remote_ending, late_log, command,
  is_connected, connect_state, release_per_call_resources, ensure_session, start_call, answer_call,
  inform_peer, terminate_call, recover, handle_remote_call_ended, call_id_of, conversation_id_of,
  on_call_ready, on_remote_stream,
}

-- What an operation finds when it goes on: whether what it awaited was fulfilled, with what value,
-- and what it then reads: the clock, `isWebrtcConnected`, and whether `sendCallMessage` throws.
pub record Outcome : Type 0 where
  pub fulfilled : Bool
  pub now : ℕ
  pub is_webrtc_connected : Bool
  pub sends : Bool
  pub call_id : String
  pub conversation_id : String
  pub peer_name : String
  pub message_id : String

abbrev pub new_session : String → CallType → Bool → Outcome → Session
new_session peer type incoming o = record {
  call_id = o.call_id;
  peer_id = peer;
  call_type = type;
  started_at = o.now;
  answered_at = none;
  peer_name = o.peer_name;
  is_incoming = incoming;
  finalized = false;
  conversation_id = o.conversation_id;
}

-- A failed `ensureSession`: `startCall` recovers, the other operations throw.
abbrev pub fail_session : String → Continuation → Outcome → Calls → Calls × Option Task
fail_session peer (start type) o c = recover peer o.now c
fail_session peer next o c = (c, none)

abbrev pub start_media : String → CallType → ℕ → Calls → Calls × Option Task
start_media peer type ref c = (
  record c { device = start_audio_session type peer c.device },
  some (initializing peer type ref),
)

-- `rejectIncomingCall`, `markMissedIncomingCall`, with the session.
abbrev pub send_and_end : String → Signal → Reason → Outcome → Calls → Calls × Option Task
send_and_end peer signal reason o c =
    if o.sends
    then terminate_call peer (some reason) o.now (command (sent peer signal) c)
    else (c, none)

abbrev pub continue_with : String → ℕ → Continuation → Outcome → Calls → Calls × Option Task
continue_with peer ref (start type) o c =
    if is_connected c peer && o.is_webrtc_connected
    then (c, none)
    else if o.is_webrtc_connected
    then start_media peer type ref c
    else (c, some (connecting peer type ref))
continue_with peer ref (answer type) o c = (
  record c {
    store = mark_answered ref o.now c.store;
    marker = set_active_call (some peer) c.marker;
    device = start_audio_session type peer c.device;
  },
  some (early_media peer type ref),
)
continue_with peer ref (inform type) o c =
    (record c { marker = set_active_call (some peer) c.marker }, some (preparing peer type ref))
continue_with peer ref reject o c = send_and_end peer declined rejected o c
continue_with peer ref mark_missed o c = send_and_end peer no_answer missed o c

abbrev pub accept : String → ℕ → Outcome → Calls → Calls × Option Task
accept peer ref o c =
    let s = command (sent peer (call_ready (call_id_of (session_at c.store ref)))) c in
    if o.sends
    then (s, some (if o.is_webrtc_connected then answering peer else awaiting_channel peer))
    else (c, none)

abbrev pub register_handlers : String → CallType → Outcome → Calls → Calls
register_handlers peer type o c =
    let ready = if o.fulfilled then local_stream_ready peer ∷ [] else [] in
    record c {
      commands = c.commands ++ ready;
      has_busy_reject_handler = true;
      call_ready_handler = some (peer, type);
    }

abbrev pub invite : String → CallType → Option Session → Calls → Calls
invite peer type session c =
    command (sent peer (invitation type (conversation_id_of session) (call_id_of session))) c

-- `informPeerForIncomingCall` after the media.
abbrev pub notify_peer : String → CallType → ℕ → Outcome → Calls → Calls × Option Task
notify_peer peer type ref o c =
    let h = register_handlers peer type o c in
    if o.sends
    then (invite peer type (session_at c.store ref) h, none)
    else terminate_call peer (some missed) o.now h

abbrev pub reason_of : CallStatus → Reason
reason_of CallStatus.completed = completed
reason_of CallStatus.rejected = rejected
reason_of status = missed

abbrev pub call_type_of : Option Session → CallType
call_type_of none = audio
call_type_of (some session) = session.call_type

-- The `finally` of `finalizeSession`, if it has a session.
unfoldable pub finalize_session : String → Option ℕ → Calls → Calls
finalize_session peer none c = c
finalize_session peer (some ref) c = record c { store = retire peer ref c.store }

abbrev pub saved_message_id : Option ℕ → Outcome → String
saved_message_id none o = ""
saved_message_id (some live) o = if o.fulfilled then o.message_id else ""

abbrev pub end_message :
    String → Option ℕ → Option ℕ → CallStatus → ℕ → String → Outcome → Calls → Ending
end_message peer ref live status end_time who o c =
    let session = deref c.store ref in
    record {
      peer_id = c.user_id;
      call_id = call_id_of session;
      status = some (reason_of status);
      ended_at = some end_time;
      duration_seconds = some (calculate_duration_seconds session end_time);
      initiator_id = some who;
      call_type = some (call_type_of session);
      message_id = some (saved_message_id live o);
      conversation_id = conversation_id_of session;
    }

abbrev pub tell_ended :
    String → Option ℕ → Option ℕ → CallStatus → ℕ → String → Outcome → Calls → Calls
tell_ended peer ref live status end_time who o c =
    let message = end_message peer ref live status end_time who o c in
    let s = if o.sends then sent peer (call_ended message) ∷ [] else [] in
    record c { commands = c.commands ++ s }

-- `terminateCallConnection` after the `await` of `finalizeSession`.
unfoldable pub finish_ending :
    String → Option ℕ → Option ℕ → CallStatus → ℕ → String → Outcome → Calls → Calls
unfolding finalize_session release_per_call_resources
finish_ending peer ref live status end_time who o c =
    release_per_call_resources peer
      (tell_ended peer ref live status end_time who o (finalize_session peer live c))

abbrev pub tell_remote_ended : String → Option String → Calls → Calls
tell_remote_ended peer message_id c =
    command (acknowledged peer message_id) (command sync_started c)

-- `handleRemoteCallEnded` after the `await` of `finalizeSession`.
unfoldable pub finish_remote_ending : String → ℕ → Option String → Calls → Calls
unfolding finalize_session release_per_call_resources
finish_remote_ending peer ref message_id c =
    release_per_call_resources peer
      (tell_remote_ended peer message_id (finalize_session peer (some ref) c))

abbrev pub tell_late : String → Option String → Outcome → Calls → Calls
tell_late peer message_id o c =
    let s = if o.fulfilled then sync_started ∷ [] else [] in
    command (acknowledged peer message_id) (record c { commands = c.commands ++ s })

-- `handleRemoteCallEnded` after the late call log.
unfoldable pub finish_late_log : String → Option String → Outcome → Calls → Calls
unfolding release_per_call_resources
finish_late_log peer message_id o c =
    release_per_call_resources peer (tell_late peer message_id o c)

-- An operation goes on: the state it leaves, and what it awaits next.
unfoldable pub resume : Task → Outcome → Calls → Calls × Option Task
unfolding recover terminate_call finish_ending finish_remote_ending finish_late_log
resume (creating peer type incoming conversation call_id next) o c =
    if o.fulfilled
    then (
      record c { store = open_session (new_session peer type incoming o) c.store },
      some (with_session peer c.store.next_ref next),
    )
    else fail_session peer next o c
resume (with_session peer ref next) o c = continue_with peer ref next o c
resume (connecting peer type ref) o c =
    if o.fulfilled then start_media peer type ref c else recover peer o.now c
resume (initializing peer type ref) o c =
    if o.fulfilled
    then (record c { store = mark_answered ref o.now c.store }, some (renegotiating peer))
    else recover peer o.now c
resume (renegotiating peer) o c =
    if o.fulfilled then (connect_state peer c, none) else recover peer o.now c
resume (early_media peer type ref) o c = if o.fulfilled then accept peer ref o c else (c, none)
resume (awaiting_channel peer) o c = (c, if o.fulfilled then some (answering peer) else none)
resume (answering peer) o c = if o.fulfilled then (connect_state peer c, none) else (c, none)
resume (preparing peer type ref) o c =
    (c, if o.fulfilled then some (informing peer type ref) else none)
resume (informing peer type ref) o c = notify_peer peer type ref o c
resume (ending peer ref live status end_time who) o c =
    (finish_ending peer ref live status end_time who o c, none)
resume (remote_ending peer ref message_id) o c = (finish_remote_ending peer ref message_id c, none)
resume (late_log peer message_id) o c = (finish_late_log peer message_id o c, none)

-- What happens to the service: its operations, the events that it listens to, and the end of an
-- `await` of one of the operations that are running.
pub data Event : Type 0 where
  started : CallType → String → Event
  answered : CallType → String → Option String → Option String → Event
  informed : CallType → String → Event
  rejecting marking_missed : CallType → String → Option String → Event
  terminated : String → Option Reason → ℕ → Event
  remote_ended : String → Ending → Event
  ready_received : String → String → Event
  stream_received : ℕ → Event
  device_changed : DeviceEvent → Event
  resumed : ℕ → Outcome → Event

pub record System : Type 0 where
  pub calls : Calls
  pub tasks : List Task

-- `spawn`: the operation that has reached an `await` joins the running ones.
abbrev pub spawn : List Task → Calls × Option Task → System
spawn ts (c, none) = record { calls = c; tasks = ts }
spawn ts (c, some t) = record { calls = c; tasks = ts ++ t ∷ [] }

abbrev pub take_task : ℕ → List Task → List Task → Option (Task × List Task)
take_task i done [] = none
take_task zero done (t ∷ ts) = some (t, done ++ ts)
take_task (suc i) done (t ∷ ts) = take_task i (done ++ t ∷ []) ts

abbrev pub resume_task : Outcome → System → Option (Task × List Task) → System
resume_task o s none = s
resume_task o s (some (t, ts)) = spawn ts (resume t o s.calls)

module _ (later : String → String → Bool) where
  unfoldable pub step : Event → System → System
  step (started type peer) s = spawn s.tasks (start_call later type peer s.calls)
  step (answered type peer conversation call_id) s =
      spawn s.tasks (answer_call later type peer conversation call_id s.calls)
  step (informed type peer) s = spawn s.tasks (inform_peer type peer s.calls)
  step (rejecting type peer conversation) s =
      spawn s.tasks (ensure_session peer type true conversation none reject s.calls)
  step (marking_missed type peer conversation) s =
      spawn s.tasks (ensure_session peer type true conversation none mark_missed s.calls)
  step (terminated peer reason now) s = spawn s.tasks (terminate_call peer reason now s.calls)
  step (remote_ended peer payload) s = spawn s.tasks (handle_remote_call_ended peer payload s.calls)
  step (ready_received peer call_id) s = spawn s.tasks (on_call_ready later peer call_id s.calls)
  step (stream_received stream) s = record s { calls = on_remote_stream stream s.calls }
  step (device_changed e) s = record s {
    calls = record s.calls { device = on_device_event e s.calls.device };
  }
  step (resumed i o) s = resume_task o s (take_task i [] s.tasks)

  unfoldable pub run : System → List Event → System
  run s [] = s
  run s (e ∷ es) = run (step e s) es

abbrev pub idle : String → System
idle user = record { calls = new_calls user; tasks = [] }
