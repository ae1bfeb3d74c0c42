-- ===== src/Call/Service/Sessions/Runs.antt =====
-- The sessions of `CallService` along a run.
use ylp_software.Base.{
  ◌≡◌, ℕ, zero, suc, Bool, true, String, Option, none, some, List, [], ◌∷◌, ◌++◌, All, All-append,
  lookup, nat_same, string_same,
}
use ylp_software.Call.Store.{Store, session_at}
use ylp_software.Call.Store.Sound.{is_live_of, IsSound, no_sessions-IsSound, Extends}
use ylp_software.Call.Service.{
  on_remote_stream, Calls, reject, mark_missed, Task, ensure_session, start_call, answer_call,
  inform_peer, terminate_call, handle_remote_call_ended, on_call_ready,
}
use ylp_software.Call.Service.Running.{
  Outcome, started, answered, informed, rejecting, marking_missed, terminated, remote_ended,
  ready_received, stream_received, device_changed, resumed, resume, Event, System, spawn, take_task,
  resume_task, step, run, idle,
}
use ylp_software.Call.Service.Sessions.{
  IsOwned, IsOwned-Extends, Keeps, answer_call-Keeps, ensure_session-Keeps,
  handle_remote_call_ended-Keeps, inform_peer-Keeps, on_call_ready-Keeps, start_call-Keeps,
  terminate_call-Keeps,
}
use ylp_software.Call.Service.Sessions.Resuming.{resume-Keeps}

record IsSoundSystem (s : System) : Type 0 where
  sound : IsSound s.calls.store
  owned : All (IsOwned s.calls.store) s.tasks

All-Extends : (s t : Store) (ts : List Task) → Extends s t → All (IsOwned s) ts → All (IsOwned t) ts
All-Extends s t [] e h = tt
All-Extends s t (x ∷ xs) e (h, hs) = (IsOwned-Extends s t x e h, All-Extends s t xs e hs)

spawn-IsSoundSystem :
    (s : Store) (ts : List Task) (r : Calls × Option Task)
    → All (IsOwned s) ts
    → Keeps s r
    → IsSoundSystem (spawn ts r)
spawn-IsSoundSystem s ts (c, none) h k = record {
  sound = k.sound;
  owned = All-Extends s c.store ts k.extends h;
}
spawn-IsSoundSystem s ts (c, some t) h k = record {
  sound = k.sound;
  owned =
      All-append (IsOwned c.store) ts (t ∷ []) (All-Extends s c.store ts k.extends h) (k.owned, tt);
}

abbrev IsOwnedTaken : Store → Option (Task × List Task) → Type 0
IsOwnedTaken s none = Unit
IsOwnedTaken s (some (t, ts)) = IsOwned s t × All (IsOwned s) ts

take_task-IsOwnedTaken :
    (s : Store) (i : ℕ) (done ts : List Task)
    → All (IsOwned s) done
    → All (IsOwned s) ts
    → IsOwnedTaken s (take_task i done ts)
take_task-IsOwnedTaken s i done [] h k = tt
take_task-IsOwnedTaken s zero done (t ∷ ts) h (k, ks) = (k, All-append (IsOwned s) done ts h ks)
take_task-IsOwnedTaken s (suc i) done (t ∷ ts) h (k, ks) =
    take_task-IsOwnedTaken s i (done ++ t ∷ []) ts (All-append (IsOwned s) done (t ∷ []) h (k, tt))
      ks

resume_task-IsSoundSystem :
    (o : Outcome) (s : System) (taken : Option (Task × List Task))
    → IsSoundSystem s
    → IsOwnedTaken s.calls.store taken
    → IsSoundSystem (resume_task o s taken)
resume_task-IsSoundSystem o s none h k = h
resume_task-IsSoundSystem o s (some (t, ts)) h (k, ks) =
    spawn-IsSoundSystem s.calls.store ts (resume t o s.calls) ks
      (resume-Keeps t o s.calls h.sound k)

module _ (later : String → String → Bool) where
  step-IsSoundSystem : (e : Event) (s : System) → IsSoundSystem s → IsSoundSystem (step later e s)
  unfolding step on_remote_stream
  step-IsSoundSystem (started type peer) s h =
      spawn-IsSoundSystem s.calls.store s.tasks (start_call later type peer s.calls) h.owned
        (start_call-Keeps later type peer s.calls h.sound)
  step-IsSoundSystem (answered type peer conversation call_id) s h =
      spawn-IsSoundSystem s.calls.store s.tasks
        (answer_call later type peer conversation call_id s.calls) h.owned
        (answer_call-Keeps later type peer conversation call_id s.calls h.sound)
  step-IsSoundSystem (informed type peer) s h =
      spawn-IsSoundSystem s.calls.store s.tasks (inform_peer type peer s.calls) h.owned
        (inform_peer-Keeps type peer s.calls h.sound)
  step-IsSoundSystem (rejecting type peer conversation) s h =
      spawn-IsSoundSystem s.calls.store s.tasks
        (ensure_session peer type true conversation none reject s.calls) h.owned
        (ensure_session-Keeps peer type true conversation none reject s.calls h.sound)
  step-IsSoundSystem (marking_missed type peer conversation) s h =
      spawn-IsSoundSystem s.calls.store s.tasks
        (ensure_session peer type true conversation none mark_missed s.calls) h.owned
        (ensure_session-Keeps peer type true conversation none mark_missed s.calls h.sound)
  step-IsSoundSystem (terminated peer reason now) s h =
      spawn-IsSoundSystem s.calls.store s.tasks (terminate_call peer reason now s.calls) h.owned
        (terminate_call-Keeps peer reason now s.calls h.sound)
  step-IsSoundSystem (remote_ended peer payload) s h =
      spawn-IsSoundSystem s.calls.store s.tasks (handle_remote_call_ended peer payload s.calls)
        h.owned (handle_remote_call_ended-Keeps peer payload s.calls h.sound)
  step-IsSoundSystem (ready_received peer call_id) s h =
      spawn-IsSoundSystem s.calls.store s.tasks (on_call_ready later peer call_id s.calls) h.owned
        (on_call_ready-Keeps later peer call_id s.calls h.sound)
  step-IsSoundSystem (stream_received stream) s h = record { sound = h.sound; owned = h.owned }
  step-IsSoundSystem (device_changed e) s h = record { sound = h.sound; owned = h.owned }
  step-IsSoundSystem (resumed i o) s h =
      resume_task-IsSoundSystem o s (take_task i [] s.tasks) h
        (take_task-IsOwnedTaken s.calls.store i [] s.tasks tt h.owned)

  run-IsSoundSystem :
      (s : System) (es : List Event) → IsSoundSystem s → IsSoundSystem (run later s es)
  unfolding run
  run-IsSoundSystem s [] h = h
  run-IsSoundSystem s (e ∷ es) h = run-IsSoundSystem (step later e s) es (step-IsSoundSystem e s h)

  -- Whatever operations are started, however they interleave at their `await`s, and whatever these
  -- give, a session that the map has for a peer is one of that peer that is not finalized: from a new
  -- service on, the operations never find the session of a call that has ended.
  pub run-live :
      (user : String) (es : List Event) (peer : String) (ref : ℕ)
      → lookup peer (run later (idle user) es).calls.store.call_sessions ≡ some ref
      → is_live_of peer (session_at (run later (idle user) es).calls.store ref) ≡ true
  run-live user es peer ref h =
      (run-IsSoundSystem (idle user) es
          (record { sound = no_sessions-IsSound; owned = tt })).sound.live
        peer ref h
