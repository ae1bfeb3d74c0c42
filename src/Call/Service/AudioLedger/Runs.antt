-- ===== src/Call/Service/AudioLedger/Runs.antt =====
-- The operations of `CallService` and the audio of the device.
use ylp_software.Base.{
  refl, ℕ, Bool, true, false, ◌&&◌, String, Option, none, some, List, [], ◌∷◌, lookup, nat_same,
  string_same, ◌==◌, if◌then◌else◌,
}
use ylp_software.Model.{CallType}
use ylp_software.Connection.CallRouting.{Reason, rejected, missed, Ending}
use ylp_software.Call.Store.{session_at, live_session, open_session, mark_answered}
use ylp_software.Call.Service.{
  Signal, sent, call_ready, call_id_of, Calls, Continuation, start, answer, inform, reject,
  mark_missed, Task, creating, with_session, connecting, initializing, renegotiating, early_media,
  awaiting_channel, answering, preparing, informing, ending, remote_ending, late_log, is_connected,
  ensure_session, reuse_or_create, start_call, answer_call, inform_peer, terminate_call, recover,
  end_remotely, handle_remote_call_ended, is_correlated, start_waited, on_remote_stream,
  on_call_ready, set_polite, command, acknowledged, release_per_call_resources, declined, no_answer,
  connect_state,
}
use ylp_software.Call.Service.Running.{
  Outcome, new_session, fail_session, continue_with, accept, send_and_end, start_media,
  finalize_session, register_handlers, invite, tell_ended, tell_late, tell_remote_ended,
  finish_ending, finish_remote_ending, finish_late_log, resume, Event, started, answered, informed,
  rejecting, marking_missed, terminated, remote_ended, ready_received, stream_received,
  device_changed, resumed, System, spawn, take_task, resume_task, step, run, idle,
}
use ylp_software.Call.Service.AudioLedger.{
  IsOwned, on_device_event-IsOwned, start_audio_session-IsOwned, release_audio-IsOwned,
}

abbrev Holds : Calls × Option Task → Type 0
Holds r = IsOwned r.0.device

Holds-if : (b : Bool) (p q : Calls × Option Task) → Holds p → Holds q → Holds (if b then p else q)
Holds-if true p q h k = h
Holds-if false p q h k = k

reuse_or_create-Holds :
    (peer : String) (type : CallType) (b : Bool) (conversation call_id : Option String)
    (next : Continuation) (c : Calls) (o : Option ℕ)
    → IsOwned c.device
    → Holds (reuse_or_create peer type b conversation call_id next c o)
reuse_or_create-Holds peer type b conversation call_id next c none h = h
reuse_or_create-Holds peer type b conversation call_id next c (some ref) h = h

ensure_session-Holds :
    (peer : String) (type : CallType) (b : Bool) (conversation call_id : Option String)
    (next : Continuation) (c : Calls)
    → IsOwned c.device
    → Holds (ensure_session peer type b conversation call_id next c)
unfolding ensure_session
ensure_session-Holds peer type b conversation call_id next c h =
    reuse_or_create-Holds peer type b conversation call_id next c (live_session c.store peer) h

recover-Holds :
    (peer : String) (now : ℕ) (c : Calls) → IsOwned c.device → Holds (recover peer now c)
unfolding recover terminate_call
recover-Holds peer now c h =
    Holds-if (is_connected c peer) (c, none) (terminate_call peer (some missed) now c) h h

release-IsOwned :
    (peer : String) (c : Calls)
    → IsOwned c.device
    → IsOwned (release_per_call_resources peer c).device
unfolding release_per_call_resources
release-IsOwned peer c h = release_audio-IsOwned peer c.device h

end_remotely-Holds :
    (peer : String) (payload : Ending) (c : Calls) (o live : Option ℕ)
    → IsOwned c.device
    → Holds (end_remotely peer payload c o live)
end_remotely-Holds peer payload c none live h = h
end_remotely-Holds peer payload c (some ref) none h =
    release-IsOwned peer (command (acknowledged peer payload.message_id) c) h
end_remotely-Holds peer payload c (some ref) (some live) h = h

start_call-Holds :
    (later : String → String → Bool) (type : CallType) (peer : String) (c : Calls)
    → IsOwned c.device
    → Holds (start_call later type peer c)
unfolding start_call
start_call-Holds later type peer c h =
    ensure_session-Holds peer type false none none (start type)
      (command (set_polite peer (later peer c.user_id)) c) h

start_waited-Holds :
    (later : String → String → Bool) (o : Option (String × CallType)) (c : Calls)
    → IsOwned c.device
    → Holds (start_waited later o c)
start_waited-Holds later none c h = h
start_waited-Holds later (some (waited, type)) c h =
    start_call-Holds later type waited (record c { call_ready_handler = none }) h

fail_session-Holds :
    (peer : String) (next : Continuation) (o : Outcome) (c : Calls)
    → IsOwned c.device
    → Holds (fail_session peer next o c)
fail_session-Holds peer (start type) o c h = recover-Holds peer o.now c h
fail_session-Holds peer (answer type) o c h = h
fail_session-Holds peer (inform type) o c h = h
fail_session-Holds peer reject o c h = h
fail_session-Holds peer mark_missed o c h = h

send_and_end-Holds :
    (peer : String) (signal : Signal) (reason : Reason) (o : Outcome) (c : Calls)
    → IsOwned c.device
    → Holds (send_and_end peer signal reason o c)
unfolding terminate_call
send_and_end-Holds peer signal reason o c h =
    Holds-if o.sends (terminate_call peer (some reason) o.now (command (sent peer signal) c))
      (c, none) h h

continue_with-Holds :
    (peer : String) (ref : ℕ) (next : Continuation) (o : Outcome) (c : Calls)
    → IsOwned c.device
    → Holds (continue_with peer ref next o c)
continue_with-Holds peer ref (start type) o c h =
    Holds-if (is_connected c peer && o.is_webrtc_connected) (c, none)
      (if o.is_webrtc_connected
        then start_media peer type ref c
        else (c, some (connecting peer type ref)))
      h
      (Holds-if o.is_webrtc_connected (start_media peer type ref c)
        (c, some (connecting peer type ref)) (start_audio_session-IsOwned type peer c.device) h)
continue_with-Holds peer ref (answer type) o c h = start_audio_session-IsOwned type peer c.device
continue_with-Holds peer ref (inform type) o c h = h
continue_with-Holds peer ref reject o c h = send_and_end-Holds peer declined rejected o c h
continue_with-Holds peer ref mark_missed o c h = send_and_end-Holds peer no_answer missed o c h

finalize_session-IsOwned :
    (peer : String) (o : Option ℕ) (c : Calls)
    → IsOwned c.device
    → IsOwned (finalize_session peer o c).device
unfolding finalize_session
finalize_session-IsOwned peer none c h = h
finalize_session-IsOwned peer (some ref) c h = h

resume-Holds : (t : Task) (o : Outcome) (c : Calls) → IsOwned c.device → Holds (resume t o c)
unfolding resume finish_ending finish_remote_ending finish_late_log terminate_call
resume-Holds (creating peer type b conversation call_id next) o c h =
    Holds-if o.fulfilled
      (
        record c { store = open_session (new_session peer type b o) c.store },
        some (with_session peer c.store.next_ref next),
      )
      (fail_session peer next o c) h (fail_session-Holds peer next o c h)
resume-Holds (with_session peer ref next) o c h = continue_with-Holds peer ref next o c h
resume-Holds (connecting peer type ref) o c h =
    Holds-if o.fulfilled (start_media peer type ref c) (recover peer o.now c)
      (start_audio_session-IsOwned type peer c.device) (recover-Holds peer o.now c h)
resume-Holds (initializing peer type ref) o c h =
    Holds-if o.fulfilled
      (record c { store = mark_answered ref o.now c.store }, some (renegotiating peer))
      (recover peer o.now c) h (recover-Holds peer o.now c h)
resume-Holds (renegotiating peer) o c h =
    Holds-if o.fulfilled (connect_state peer c, none) (recover peer o.now c) h
      (recover-Holds peer o.now c h)
resume-Holds (early_media peer type ref) o c h =
    Holds-if o.fulfilled (accept peer ref o c) (c, none)
      (Holds-if o.sends
        (
          command (sent peer (call_ready (call_id_of (session_at c.store ref)))) c,
          some (if o.is_webrtc_connected then answering peer else awaiting_channel peer),
        )
        (c, none) h h)
      h
resume-Holds (awaiting_channel peer) o c h = h
resume-Holds (answering peer) o c h =
    Holds-if o.fulfilled (connect_state peer c, none) (c, none) h h
resume-Holds (preparing peer type ref) o c h = h
resume-Holds (informing peer type ref) o c h =
    Holds-if o.sends
      (invite peer type (session_at c.store ref) (register_handlers peer type o c), none)
      (terminate_call peer (some missed) o.now (register_handlers peer type o c)) h h
resume-Holds (ending peer ref live status end_time who) o c h =
    release-IsOwned peer
      (tell_ended peer ref live status end_time who o (finalize_session peer live c))
      (finalize_session-IsOwned peer live c h)
resume-Holds (remote_ending peer ref message_id) o c h =
    release-IsOwned peer (tell_remote_ended peer message_id (finalize_session peer (some ref) c))
      (finalize_session-IsOwned peer (some ref) c h)
resume-Holds (late_log peer message_id) o c h =
    release-IsOwned peer (tell_late peer message_id o c) h

spawn-IsOwned :
    (ts : List Task) (r : Calls × Option Task) → Holds r → IsOwned (spawn ts r).calls.device
spawn-IsOwned ts (c, none) h = h
spawn-IsOwned ts (c, some t) h = h

resume_task-IsOwned :
    (o : Outcome) (s : System) (taken : Option (Task × List Task))
    → IsOwned s.calls.device
    → IsOwned (resume_task o s taken).calls.device
resume_task-IsOwned o s none h = h
resume_task-IsOwned o s (some (t, ts)) h =
    spawn-IsOwned ts (resume t o s.calls) (resume-Holds t o s.calls h)

module _ (later : String → String → Bool) where
  step-IsOwned :
      (e : Event) (s : System) → IsOwned s.calls.device → IsOwned (step later e s).calls.device
  unfolding step on_remote_stream answer_call inform_peer terminate_call handle_remote_call_ended
      on_call_ready
  step-IsOwned (started type peer) s h =
      spawn-IsOwned s.tasks (start_call later type peer s.calls)
        (start_call-Holds later type peer s.calls h)
  step-IsOwned (answered type peer conversation call_id) s h =
      spawn-IsOwned s.tasks (answer_call later type peer conversation call_id s.calls) (
        ensure_session-Holds peer type true conversation call_id (answer type)
          (command (set_polite peer (later peer s.calls.user_id)) s.calls) h)
  step-IsOwned (informed type peer) s h = spawn-IsOwned s.tasks (inform_peer type peer s.calls) (
      Holds-if (peer == s.calls.user_id) (s.calls, none)
        (ensure_session peer type false none none (inform type) s.calls) h
        (ensure_session-Holds peer type false none none (inform type) s.calls h))
  step-IsOwned (rejecting type peer conversation) s h =
      spawn-IsOwned s.tasks (ensure_session peer type true conversation none reject s.calls)
        (ensure_session-Holds peer type true conversation none reject s.calls h)
  step-IsOwned (marking_missed type peer conversation) s h =
      spawn-IsOwned s.tasks (ensure_session peer type true conversation none mark_missed s.calls)
        (ensure_session-Holds peer type true conversation none mark_missed s.calls h)
  step-IsOwned (terminated peer reason now) s h =
      spawn-IsOwned s.tasks (terminate_call peer reason now s.calls) h
  step-IsOwned (remote_ended peer payload) s h =
      spawn-IsOwned s.tasks (handle_remote_call_ended peer payload s.calls) (
        end_remotely-Holds peer payload s.calls (lookup peer s.calls.store.call_sessions)
          (live_session s.calls.store peer) h)
  step-IsOwned (ready_received peer call_id) s h =
      spawn-IsOwned s.tasks (on_call_ready later peer call_id s.calls) (
        Holds-if (is_correlated s.calls s.calls.call_ready_handler peer call_id)
          (start_waited later s.calls.call_ready_handler s.calls) (s.calls, none)
          (start_waited-Holds later s.calls.call_ready_handler s.calls h) h)
  step-IsOwned (stream_received stream) s h = h
  step-IsOwned (device_changed e) s h = on_device_event-IsOwned e s.calls.device h
  step-IsOwned (resumed i o) s h = resume_task-IsOwned o s (take_task i [] s.tasks) h

  run-preserves :
      (s : System) (es : List Event)
      → IsOwned s.calls.device
      → IsOwned (run later s es).calls.device
  unfolding run
  run-preserves s [] h = h
  run-preserves s (e ∷ es) h = run-preserves (step later e s) es (step-IsOwned e s h)

  -- Whatever operations are started, however they interleave, and whatever happens to the headset, the
  -- screen is kept on, and the listeners of the audio devices are registered, exactly while the audio
  -- session of the device is on, and that is on only while some peer owns it.
  pub run-IsOwned :
      (user : String) (es : List Event) → IsOwned (run later (idle user) es).calls.device
  run-IsOwned user es =
      run-preserves (idle user) es (record { screen = refl; listeners = refl; owner = refl })
