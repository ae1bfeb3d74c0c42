-- ===== src/Call/Service/Sessions.antt =====
-- The operations of `CallService` up to their first `await`, and its sessions.
mod Resuming
pub mod Runs
use ylp_software.Base.{
  ◌≡◌, refl, sym, ◌==◌, ℕ, zero, suc, Bool, true, false, not, ◌&&◌, ◌||◌, String, Option, none,
  some, List, [], ◌∷◌, ◌++◌, arith, All, All-append, lookup, nat_same, string_same, if◌then◌else◌,
  Option-cases, inl, inr,
}
use ylp_software.Model.{CallType, CallStatus}
use mathlib.Core.Path.{subst}
use ylp_software.Connection.CallRouting.{Reason, rejected, missed, Ending}
use ylp_software.Call.Store.{
  Session, Store, session_at, live_session, open_session, mark_answered, retire,
}
use ylp_software.Call.Store.Sound.{
  is_of, is_live_of, IsSound, no_sessions-IsSound, open_session-IsSound, mark_answered-IsSound,
  retire-IsSound, Extends, open_session-Extends, mark_answered-Extends, retire-Extends,
  live_session-of,
}
use ylp_software.Call.Service.{
  Signal, sent, call_ready, call_id_of, Calls, Continuation, start, answer, inform, reject,
  mark_missed, Task, creating, with_session, connecting, initializing, renegotiating, early_media,
  awaiting_channel, answering, preparing, informing, ending, remote_ending, late_log, is_connected,
  ensure_session, reuse_or_create, start_call, answer_call, inform_peer, terminate_call, recover,
  end_remotely, handle_remote_call_ended, is_correlated, start_waited, set_polite, command,
  call_torn_down, release_per_call_resources, declined, no_answer, connect_state, on_call_ready,
}
use ylp_software.Call.Service.Running.{
  Outcome, new_session, fail_session, continue_with, register_handlers, invite, started, answered,
  informed, rejecting, marking_missed, terminated, remote_ended, ready_received, stream_received,
  device_changed, resumed, notify_peer, accept, send_and_end, start_media, reason_of, resume, Event,
  System, spawn, take_task, resume_task, step, run, idle, finalize_session, finish_ending,
  finish_remote_ending, finish_late_log,
}

-- A session that is being finalized is of the peer it is finalized for.
abbrev pub IsOwnedRef : Store → String → Option ℕ → Type 0
IsOwnedRef s peer none = Unit
IsOwnedRef s peer (some ref) = is_of peer (session_at s ref) ≡ true

abbrev pub IsOwned : Store → Task → Type 0
IsOwned s (ending peer ref live status end_time who) = IsOwnedRef s peer live
IsOwned s (remote_ending peer ref message_id) = IsOwnedRef s peer (some ref)
IsOwned s task = Unit

abbrev pub IsOwnedNext : Store → Option Task → Type 0
IsOwnedNext s none = Unit
IsOwnedNext s (some t) = IsOwned s t

IsOwnedRef-Extends :
    (s t : Store) (peer : String) (o : Option ℕ)
    → Extends s t
    → IsOwnedRef s peer o
    → IsOwnedRef t peer o
IsOwnedRef-Extends s t peer none e h = tt
IsOwnedRef-Extends s t peer (some ref) e h = e peer ref h

IsOwned-Extends : (s t : Store) (task : Task) → Extends s t → IsOwned s task → IsOwned t task
IsOwned-Extends s t (ending peer ref live status end_time who) e h =
    IsOwnedRef-Extends s t peer live e h
IsOwned-Extends s t (remote_ending peer ref message_id) e h =
    IsOwnedRef-Extends s t peer (some ref) e h
IsOwned-Extends s t (creating _ _ _ _ _ _) e h = tt
IsOwned-Extends s t (with_session _ _ _) e h = tt
IsOwned-Extends s t (connecting _ _ _) e h = tt
IsOwned-Extends s t (initializing _ _ _) e h = tt
IsOwned-Extends s t (renegotiating _) e h = tt
IsOwned-Extends s t (early_media _ _ _) e h = tt
IsOwned-Extends s t (awaiting_channel _) e h = tt
IsOwned-Extends s t (answering _) e h = tt
IsOwned-Extends s t (preparing _ _ _) e h = tt
IsOwned-Extends s t (informing _ _ _) e h = tt
IsOwned-Extends s t (late_log _ _) e h = tt

-- What every step of an operation keeps.
record Keeps (s : Store) (r : Calls × Option Task) : Type 0 where
  sound : IsSound r.0.store
  extends : Extends s r.0.store
  owned : IsOwnedNext r.0.store r.1

-- A step that leaves the sessions alone.
still :
    (c : Calls) (o : Option Task) → IsSound c.store → IsOwnedNext c.store o → Keeps c.store (c, o)
still c o h k = record { sound = h; extends = λ peer ref p. p; owned = k }

Keeps-if :
    (s : Store) (b : Bool) (p q : Calls × Option Task)
    → Keeps s p
    → Keeps s q
    → Keeps s (if b then p else q)
Keeps-if s true p q h k = h
Keeps-if s false p q h k = k

reuse_or_create-Keeps :
    (peer : String) (type : CallType) (b : Bool) (conversation call_id : Option String)
    (next : Continuation) (c : Calls) (o : Option ℕ)
    → IsSound c.store
    → Keeps c.store (reuse_or_create peer type b conversation call_id next c o)
reuse_or_create-Keeps peer type b conversation call_id next c none h = record {
  sound = h;
  extends = λ p ref q. q;
  owned = tt;
}
reuse_or_create-Keeps peer type b conversation call_id next c (some ref) h =
    still c (some (with_session peer ref next)) h tt

ensure_session-Keeps :
    (peer : String) (type : CallType) (b : Bool) (conversation call_id : Option String)
    (next : Continuation) (c : Calls)
    → IsSound c.store
    → Keeps c.store (ensure_session peer type b conversation call_id next c)
unfolding ensure_session
ensure_session-Keeps peer type b conversation call_id next c h =
    reuse_or_create-Keeps peer type b conversation call_id next c (live_session c.store peer) h

IsOwnedRef-live :
    (s : Store) (peer : String) (o : Option ℕ)
    → IsSound s
    → live_session s peer ≡ o
    → IsOwnedRef s peer o
IsOwnedRef-live s peer none h e = tt
IsOwnedRef-live s peer (some ref) h e = live_session-of s peer ref h e

terminate_call-Keeps :
    (peer : String) (reason : Option Reason) (now : ℕ) (c : Calls)
    → IsSound c.store
    → Keeps c.store (terminate_call peer reason now c)
unfolding terminate_call
terminate_call-Keeps peer reason now c h = record {
  sound = h;
  extends = λ p ref q. q;
  owned = IsOwnedRef-live c.store peer (live_session c.store peer) h refl;
}

recover-Keeps :
    (peer : String) (now : ℕ) (c : Calls) → IsSound c.store → Keeps c.store (recover peer now c)
unfolding recover
recover-Keeps peer now c h =
    Keeps-if c.store (is_connected c peer) (c, none) (terminate_call peer (some missed) now c)
      (still c none h tt) (terminate_call-Keeps peer (some missed) now c h)

end_remotely-Keeps :
    (peer : String) (payload : Ending) (c : Calls) (o live : Option ℕ)
    → IsSound c.store
    → IsOwnedRef c.store peer live
    → Keeps c.store (end_remotely peer payload c o live)
unfolding release_per_call_resources
end_remotely-Keeps peer payload c none live h k =
    still c (some (late_log peer payload.message_id)) h tt
end_remotely-Keeps peer payload c (some ref) none h k = record {
  sound = h;
  extends = λ p r q. q;
  owned = tt;
}
end_remotely-Keeps peer payload c (some ref) (some live) h k = record {
  sound = h;
  extends = λ p r q. q;
  owned = k;
}

start_call-Keeps :
    (later : String → String → Bool) (type : CallType) (peer : String) (c : Calls)
    → IsSound c.store
    → Keeps c.store (start_call later type peer c)
unfolding start_call
start_call-Keeps later type peer c h =
    ensure_session-Keeps peer type false none none (start type)
      (command (set_polite peer (later peer c.user_id)) c) h

answer_call-Keeps :
    (later : String → String → Bool) (type : CallType) (peer : String)
    (conversation call_id : Option String) (c : Calls)
    → IsSound c.store
    → Keeps c.store (answer_call later type peer conversation call_id c)
unfolding answer_call
answer_call-Keeps later type peer conversation call_id c h =
    ensure_session-Keeps peer type true conversation call_id (answer type)
      (command (set_polite peer (later peer c.user_id)) c) h

handle_remote_call_ended-Keeps :
    (peer : String) (payload : Ending) (c : Calls)
    → IsSound c.store
    → Keeps c.store (handle_remote_call_ended peer payload c)
unfolding handle_remote_call_ended
handle_remote_call_ended-Keeps peer payload c h =
    end_remotely-Keeps peer payload c (lookup peer c.store.call_sessions)
      (live_session c.store peer) h
      (IsOwnedRef-live c.store peer (live_session c.store peer) h refl)

start_waited-Keeps :
    (later : String → String → Bool) (o : Option (String × CallType)) (c : Calls)
    → IsSound c.store
    → Keeps c.store (start_waited later o c)
start_waited-Keeps later none c h = still c none h tt
start_waited-Keeps later (some (waited, type)) c h =
    start_call-Keeps later type waited (record c { call_ready_handler = none }) h

on_call_ready-Keeps :
    (later : String → String → Bool) (peer call_id : String) (c : Calls)
    → IsSound c.store
    → Keeps c.store (on_call_ready later peer call_id c)
unfolding on_call_ready
on_call_ready-Keeps later peer call_id c h =
    Keeps-if c.store (is_correlated c c.call_ready_handler peer call_id)
      (start_waited later c.call_ready_handler c) (c, none)
      (start_waited-Keeps later c.call_ready_handler c h) (still c none h tt)

inform_peer-Keeps :
    (type : CallType) (peer : String) (c : Calls)
    → IsSound c.store
    → Keeps c.store (inform_peer type peer c)
unfolding inform_peer
inform_peer-Keeps type peer c h =
    Keeps-if c.store (peer == c.user_id) (c, none)
      (ensure_session peer type false none none (inform type) c) (still c none h tt)
      (ensure_session-Keeps peer type false none none (inform type) c h)
