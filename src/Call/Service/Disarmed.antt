-- ===== src/Call/Service/Disarmed.antt =====
-- The handler of `call-ready`: only an invitation sets it.
use ylp_software.Base.{
  ◌≡◌, refl, ap, ℕ, zero, suc, Bool, true, false, String, Option, none, some, List, [], ◌∷◌, ◌++◌,
  any, any-append, arith, if◌then◌else◌,
}
use ylp_software.Model.{CallType}
use ylp_software.Connection.CallRouting.{Ending}
use ylp_software.Call.Store.{live_session}
use ylp_software.Call.Service.{
  Continuation, start, answer, inform, reject, mark_missed, Calls, Task, creating, with_session,
  connecting, initializing, renegotiating, early_media, awaiting_channel, answering, preparing,
  informing, ending, remote_ending, late_log, command, set_polite, reuse_or_create, ensure_session,
  start_call, answer_call, terminate_call, recover, end_remotely, handle_remote_call_ended,
  release_per_call_resources, on_remote_stream, is_correlated, start_waited, on_call_ready,
}
use ylp_software.Call.Service.Running.{
  Outcome, fail_session, continue_with, resume, finish_ending, finish_remote_ending,
  finish_late_log, Event, started, answered, informed, rejecting, marking_missed, terminated,
  remote_ended, ready_received, stream_received, device_changed, resumed, System, spawn, take_task,
  resume_task, step, run,
}

abbrev pub is_inform : Continuation → Bool
is_inform (inform type) = true
is_inform next = false

-- An operation on its way to invite a peer.
abbrev pub is_inviting : Task → Bool
is_inviting (creating peer type incoming conversation call_id next) = is_inform next
is_inviting (with_session peer ref next) = is_inform next
is_inviting (preparing peer type ref) = true
is_inviting (informing peer type ref) = true
is_inviting task = false

abbrev pub is_invitation : Event → Bool
is_invitation (informed type peer) = true
is_invitation e = false

abbrev pub invites : Option Task → Bool
invites none = false
invites (some t) = is_inviting t

-- No `call-ready` is waited for, and no peer is being invited.
abbrev pub IsDisarmed : System → Type 0
IsDisarmed s = (s.calls.call_ready_handler ≡ none) × (any is_inviting s.tasks ≡ false)

-- What an operation leaves that invites no one.
abbrev pub IsCalm : Calls × Option Task → Type 0
IsCalm r = (r.0.call_ready_handler ≡ none) × (invites r.1 ≡ false)

IsCalm-if :
    (b : Bool) (p q : Calls × Option Task) → IsCalm p → IsCalm q → IsCalm (if b then p else q)
IsCalm-if true p q h k = h
IsCalm-if false p q h k = k

pub spawn-IsDisarmed :
    (ts : List Task) (r : Calls × Option Task)
    → IsCalm r
    → any is_inviting ts ≡ false
    → IsDisarmed (spawn ts r)
spawn-IsDisarmed ts (c, none) (h, i) k = (h, k)
spawn-IsDisarmed ts (c, some t) (h, i) k =
    (h, ground (arith, any-append is_inviting ts (t ∷ []), i, k))

session-IsCalm :
    (peer : String) (type : CallType) (incoming : Bool) (conversation call_id : Option String)
    (next : Continuation) (c : Calls) (o : Option ℕ)
    → c.call_ready_handler ≡ none
    → is_inform next ≡ false
    → IsCalm (reuse_or_create peer type incoming conversation call_id next c o)
session-IsCalm peer type incoming conversation call_id next c none h i = (h, i)
session-IsCalm peer type incoming conversation call_id next c (some ref) h i = (h, i)

pub start_call-IsCalm :
    (later : String → String → Bool) (type : CallType) (peer : String) (c : Calls)
    → c.call_ready_handler ≡ none
    → IsCalm (start_call later type peer c)
unfolding start_call ensure_session
start_call-IsCalm later type peer c h =
    session-IsCalm peer type false none none (start type)
      (command (set_polite peer (later peer c.user_id)) c) (live_session c.store peer) h refl

recover-IsCalm :
    (peer : String) (now : ℕ) (c : Calls)
    → c.call_ready_handler ≡ none
    → IsCalm (recover peer now c)
unfolding recover terminate_call
recover-IsCalm peer now c h = ground arith

remote-IsCalm :
    (peer : String) (payload : Ending) (c : Calls) (o l : Option ℕ)
    → c.call_ready_handler ≡ none
    → IsCalm (end_remotely peer payload c o l)
unfolding release_per_call_resources
remote-IsCalm peer payload c none l h = (h, refl)
remote-IsCalm peer payload c (some ref) none h = ground arith
remote-IsCalm peer payload c (some ref) (some live) h = (h, refl)

fail-IsCalm :
    (peer : String) (next : Continuation) (o : Outcome) (c : Calls)
    → c.call_ready_handler ≡ none
    → IsCalm (fail_session peer next o c)
fail-IsCalm peer (start type) o c h = recover-IsCalm peer o.now c h
fail-IsCalm peer (answer type) o c h = (h, refl)
fail-IsCalm peer (inform type) o c h = (h, refl)
fail-IsCalm peer reject o c h = (h, refl)
fail-IsCalm peer mark_missed o c h = (h, refl)

continue-IsCalm :
    (peer : String) (ref : ℕ) (next : Continuation) (o : Outcome) (c : Calls)
    → c.call_ready_handler ≡ none
    → is_inform next ≡ false
    → IsCalm (continue_with peer ref next o c)
unfolding terminate_call
continue-IsCalm peer ref (start type) o c h i = ground arith
continue-IsCalm peer ref (answer type) o c h i = (h, refl)
continue-IsCalm peer ref (inform type) o c h i = absurd (ground (arith, i))
continue-IsCalm peer ref reject o c h i = ground arith
continue-IsCalm peer ref mark_missed o c h i = ground arith

resume-IsCalm :
    (t : Task) (o : Outcome) (c : Calls)
    → is_inviting t ≡ false
    → c.call_ready_handler ≡ none
    → IsCalm (resume t o c)
unfolding resume finish_ending finish_remote_ending finish_late_log
resume-IsCalm (creating peer type incoming conversation call_id next) o c i h =
    ground (arith, i, h, fail-IsCalm peer next o c h)
resume-IsCalm (with_session peer ref next) o c i h = continue-IsCalm peer ref next o c h i
resume-IsCalm (connecting peer type ref) o c i h = ground (arith, recover-IsCalm peer o.now c h)
resume-IsCalm (initializing peer type ref) o c i h = ground (arith, recover-IsCalm peer o.now c h)
resume-IsCalm (renegotiating peer) o c i h = ground (arith, recover-IsCalm peer o.now c h)
resume-IsCalm (early_media peer type ref) o c i h = ground arith
resume-IsCalm (awaiting_channel peer) o c i h = ground arith
resume-IsCalm (answering peer) o c i h = ground arith
resume-IsCalm (preparing peer type ref) o c i h = absurd (ground (arith, i))
resume-IsCalm (informing peer type ref) o c i h = absurd (ground (arith, i))
resume-IsCalm (ending peer ref live status end_time who) o c i h = (refl, refl)
resume-IsCalm (remote_ending peer ref message_id) o c i h = (refl, refl)
resume-IsCalm (late_log peer message_id) o c i h = (refl, refl)

-- The operation that is taken, and the others.
abbrev AreCalm : Option (Task × List Task) → Type 0
AreCalm none = Unit
AreCalm (some (t, ts)) = (is_inviting t ≡ false) × (any is_inviting ts ≡ false)

take-AreCalm :
    (i : ℕ) (done ts : List Task)
    → any is_inviting done ≡ false
    → any is_inviting ts ≡ false
    → AreCalm (take_task i done ts)
take-AreCalm zero done [] h k = tt
take-AreCalm (suc i) done [] h k = tt
take-AreCalm zero done (t ∷ ts) h k =
    (ground (arith, k), ground (arith, any-append is_inviting done ts, h, k))
take-AreCalm (suc i) done (t ∷ ts) h k =
    take-AreCalm i (done ++ t ∷ []) ts (ground (arith, any-append is_inviting done (t ∷ []), h, k))
      (ground (arith, k))

resume_task-IsDisarmed :
    (o : Outcome) (s : System) (r : Option (Task × List Task))
    → IsDisarmed s
    → AreCalm r
    → IsDisarmed (resume_task o s r)
resume_task-IsDisarmed o s none h a = h
resume_task-IsDisarmed o s (some (t, ts)) h a =
    spawn-IsDisarmed ts (resume t o s.calls) (resume-IsCalm t o s.calls a.0 h.0) a.1

module _ (later : String → String → Bool) where
  -- While none is waited for, a `call-ready` does nothing.
  pub disarmed :
      (other id : String) (c : Calls)
      → c.call_ready_handler ≡ none
      → on_call_ready later other id c ≡ (c, none)
  unfolding on_call_ready
  disarmed other id c h =
      ap (λ o. if is_correlated c o other id then start_waited later o c else (c, none)) h

  step-IsDisarmed :
      (e : Event) (s : System)
      → is_invitation e ≡ false
      → IsDisarmed s
      → IsDisarmed (step later e s)
  unfolding step answer_call ensure_session terminate_call handle_remote_call_ended on_remote_stream
  step-IsDisarmed (started type peer) s i h =
      spawn-IsDisarmed s.tasks _ (start_call-IsCalm later type peer s.calls h.0) h.1
  step-IsDisarmed (answered type peer conversation call_id) s i h =
      spawn-IsDisarmed s.tasks _
        (session-IsCalm peer type true conversation call_id (answer type)
          (command (set_polite peer (later peer s.calls.user_id)) s.calls)
          (live_session s.calls.store peer) h.0 refl)
        h.1
  step-IsDisarmed (informed type peer) s i h = absurd (ground (arith, i))
  step-IsDisarmed (rejecting type peer conversation) s i h =
      spawn-IsDisarmed s.tasks _
        (session-IsCalm peer type true conversation none reject s.calls
          (live_session s.calls.store peer) h.0 refl)
        h.1
  step-IsDisarmed (marking_missed type peer conversation) s i h =
      spawn-IsDisarmed s.tasks _
        (session-IsCalm peer type true conversation none mark_missed s.calls
          (live_session s.calls.store peer) h.0 refl)
        h.1
  step-IsDisarmed (terminated peer reason now) s i h =
      spawn-IsDisarmed s.tasks (terminate_call peer reason now s.calls) (h.0, refl) h.1
  step-IsDisarmed (remote_ended peer payload) s i h =
      spawn-IsDisarmed s.tasks (handle_remote_call_ended peer payload s.calls)
        (remote-IsCalm peer payload s.calls _ _ h.0) h.1
  step-IsDisarmed (ready_received peer id) s i h = rw (disarmed peer id s.calls h.0) h
  step-IsDisarmed (stream_received stream) s i h = ground arith
  step-IsDisarmed (device_changed e) s i h = h
  step-IsDisarmed (resumed n o) s i h =
      resume_task-IsDisarmed o s (take_task n [] s.tasks) h (take-AreCalm n [] s.tasks refl h.1)

  pub run-IsDisarmed :
      (s : System) (es : List Event)
      → any is_invitation es ≡ false
      → IsDisarmed s
      → IsDisarmed (run later s es)
  unfolding run
  run-IsDisarmed s [] i h = h
  run-IsDisarmed s (e ∷ es) i h =
      run-IsDisarmed (step later e s) es (ground (arith, i))
        (step-IsDisarmed e s (ground (arith, i)) h)
