-- ===== src/Call/Service/Sessions/Resuming.antt =====
-- `CallService` after an `await`, and its sessions.
use ylp_software.Base.{
  ◌≡◌, refl, sym, ℕ, Bool, ◌&&◌, String, Option, none, some, arith, nat_same, string_same,
  if◌then◌else◌,
}
use ylp_software.Model.{CallType}
use mathlib.Core.Path.{subst}
use ylp_software.Connection.CallRouting.{Reason, rejected, missed}
use ylp_software.Call.Store.{session_at, open_session, mark_answered}
use ylp_software.Call.Store.Sound.{
  IsSound, open_session-IsSound, mark_answered-IsSound, retire-IsSound, Extends,
  open_session-Extends, mark_answered-Extends, retire-Extends,
}
use ylp_software.Call.Service.{
  Signal, sent, call_ready, call_id_of, Calls, Continuation, start, answer, inform, reject,
  mark_missed, Task, creating, with_session, connecting, initializing, renegotiating, early_media,
  awaiting_channel, answering, preparing, informing, ending, remote_ending, late_log, is_connected,
  terminate_call, recover, command, release_per_call_resources, declined, no_answer, connect_state,
}
use ylp_software.Call.Service.Running.{
  Outcome, new_session, fail_session, continue_with, register_handlers, invite, notify_peer, accept,
  send_and_end, start_media, resume, finalize_session, finish_ending, finish_remote_ending,
  finish_late_log,
}
use ylp_software.Call.Service.Sessions.{
  IsOwned, IsOwnedRef, Keeps, Keeps-if, recover-Keeps, still, terminate_call-Keeps,
}

-- `ensureSession` has its session.
opens-Keeps :
    (peer : String) (type : CallType) (b : Bool) (next : Continuation) (o : Outcome) (c : Calls)
    → IsSound c.store
    → Keeps c.store (
      record c { store = open_session (new_session peer type b o) c.store },
      some (with_session peer c.store.next_ref next),
    )
opens-Keeps peer type b next o c h = record {
  sound = open_session-IsSound c.store (new_session peer type b o) h refl;
  extends = open_session-Extends c.store (new_session peer type b o) h;
  owned = tt;
}

fail_session-Keeps :
    (peer : String) (next : Continuation) (o : Outcome) (c : Calls)
    → IsSound c.store
    → Keeps c.store (fail_session peer next o c)
fail_session-Keeps peer (start type) o c h = recover-Keeps peer o.now c h
fail_session-Keeps peer (answer type) o c h = still c none h tt
fail_session-Keeps peer (inform type) o c h = still c none h tt
fail_session-Keeps peer reject o c h = still c none h tt
fail_session-Keeps peer mark_missed o c h = still c none h tt

send_and_end-Keeps :
    (peer : String) (signal : Signal) (reason : Reason) (o : Outcome) (c : Calls)
    → IsSound c.store
    → Keeps c.store (send_and_end peer signal reason o c)
send_and_end-Keeps peer signal reason o c h =
    Keeps-if c.store o.sends
      (terminate_call peer (some reason) o.now (command (sent peer signal) c)) (c, none)
      (terminate_call-Keeps peer (some reason) o.now (command (sent peer signal) c) h)
      (still c none h tt)

start_media-Keeps :
    (peer : String) (type : CallType) (ref : ℕ) (c : Calls)
    → IsSound c.store
    → Keeps c.store (start_media peer type ref c)
start_media-Keeps peer type ref c h = record { sound = h; extends = λ p r q. q; owned = tt }

continue_with-Keeps :
    (peer : String) (ref : ℕ) (next : Continuation) (o : Outcome) (c : Calls)
    → IsSound c.store
    → Keeps c.store (continue_with peer ref next o c)
continue_with-Keeps peer ref (start type) o c h =
    Keeps-if c.store (is_connected c peer && o.is_webrtc_connected) (c, none)
      (if o.is_webrtc_connected
        then start_media peer type ref c
        else (c, some (connecting peer type ref)))
      (still c none h tt)
      (Keeps-if c.store o.is_webrtc_connected (start_media peer type ref c)
        (c, some (connecting peer type ref)) (start_media-Keeps peer type ref c h)
        (still c (some (connecting peer type ref)) h tt))
continue_with-Keeps peer ref (answer type) o c h = record {
  sound = mark_answered-IsSound c.store ref o.now h;
  extends = mark_answered-Extends c.store ref o.now;
  owned = tt;
}
continue_with-Keeps peer ref (inform type) o c h = record {
  sound = h;
  extends = λ p r q. q;
  owned = tt;
}
continue_with-Keeps peer ref reject o c h = send_and_end-Keeps peer declined rejected o c h
continue_with-Keeps peer ref mark_missed o c h = send_and_end-Keeps peer no_answer missed o c h

accept-Keeps :
    (peer : String) (ref : ℕ) (o : Outcome) (c : Calls)
    → IsSound c.store
    → Keeps c.store (accept peer ref o c)
accept-Keeps peer ref o c h =
    Keeps-if c.store o.sends
      (
        command (sent peer (call_ready (call_id_of (session_at c.store ref)))) c,
        some (if o.is_webrtc_connected then answering peer else awaiting_channel peer),
      )
      (c, none) (record { sound = h; extends = λ p r q. q; owned = ground arith })
      (still c none h tt)

notify_peer-Keeps :
    (peer : String) (type : CallType) (ref : ℕ) (o : Outcome) (c : Calls)
    → IsSound c.store
    → Keeps c.store (notify_peer peer type ref o c)
notify_peer-Keeps peer type ref o c h =
    Keeps-if c.store o.sends
      (invite peer type (session_at c.store ref) (register_handlers peer type o c), none)
      (terminate_call peer (some missed) o.now (register_handlers peer type o c))
      (record { sound = h; extends = λ p r q. q; owned = tt })
      (terminate_call-Keeps peer (some missed) o.now (register_handlers peer type o c) h)

finalize_session-Keeps :
    (peer : String) (live : Option ℕ) (c d : Calls)
    → IsSound c.store
    → IsOwnedRef c.store peer live
    → d.store ≡ (finalize_session peer live c).store
    → Keeps c.store (d, none)
unfolding finalize_session
finalize_session-Keeps peer none c d h k e = record {
  sound = subst IsSound (sym e) h;
  extends = subst (Extends c.store) (sym e) (λ p r q. q);
  owned = tt;
}
finalize_session-Keeps peer (some ref) c d h k e = record {
  sound = subst IsSound (sym e) (retire-IsSound c.store peer ref h k);
  extends = subst (Extends c.store) (sym e) (retire-Extends c.store peer ref);
  owned = tt;
}

pub resume-Keeps :
    (t : Task) (o : Outcome) (c : Calls)
    → IsSound c.store
    → IsOwned c.store t
    → Keeps c.store (resume t o c)
unfolding resume finish_ending finish_remote_ending finish_late_log release_per_call_resources
resume-Keeps (creating peer type b conversation call_id next) o c h k =
    Keeps-if c.store o.fulfilled
      (
        record c { store = open_session (new_session peer type b o) c.store },
        some (with_session peer c.store.next_ref next),
      )
      (fail_session peer next o c) (opens-Keeps peer type b next o c h)
      (fail_session-Keeps peer next o c h)
resume-Keeps (with_session peer ref next) o c h k = continue_with-Keeps peer ref next o c h
resume-Keeps (connecting peer type ref) o c h k =
    Keeps-if c.store o.fulfilled (start_media peer type ref c) (recover peer o.now c)
      (start_media-Keeps peer type ref c h) (recover-Keeps peer o.now c h)
resume-Keeps (initializing peer type ref) o c h k =
    Keeps-if c.store o.fulfilled
      (record c { store = mark_answered ref o.now c.store }, some (renegotiating peer))
      (recover peer o.now c)
      (record {
        sound = mark_answered-IsSound c.store ref o.now h;
        extends = mark_answered-Extends c.store ref o.now;
        owned = tt;
      })
      (recover-Keeps peer o.now c h)
resume-Keeps (renegotiating peer) o c h k =
    Keeps-if c.store o.fulfilled (connect_state peer c, none) (recover peer o.now c)
      (record { sound = h; extends = λ p r q. q; owned = tt }) (recover-Keeps peer o.now c h)
resume-Keeps (early_media peer type ref) o c h k =
    Keeps-if c.store o.fulfilled (accept peer ref o c) (c, none) (accept-Keeps peer ref o c h)
      (still c none h tt)
resume-Keeps (awaiting_channel peer) o c h k =
    still c (if o.fulfilled then some (answering peer) else none) h (ground arith)
resume-Keeps (answering peer) o c h k =
    Keeps-if c.store o.fulfilled (connect_state peer c, none) (c, none)
      (record { sound = h; extends = λ p r q. q; owned = tt }) (still c none h tt)
resume-Keeps (preparing peer type ref) o c h k =
    still c (if o.fulfilled then some (informing peer type ref) else none) h (ground arith)
resume-Keeps (informing peer type ref) o c h k = notify_peer-Keeps peer type ref o c h
resume-Keeps (ending peer ref live status end_time who) o c h k =
    finalize_session-Keeps peer live c (finish_ending peer ref live status end_time who o c) h k
      refl
resume-Keeps (remote_ending peer ref message_id) o c h k =
    finalize_session-Keeps peer (some ref) c (finish_remote_ending peer ref message_id c) h k refl
resume-Keeps (late_log peer message_id) o c h k = record {
  sound = h;
  extends = λ p r q. q;
  owned = tt;
}
