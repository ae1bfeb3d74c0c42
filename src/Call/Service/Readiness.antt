-- ===== src/Call/Service/Readiness.antt =====
-- The answer `call-ready` of the peer that this device calls.
use ylp_software.Base.{
  ◌≡◌, refl, Bool, true, false, ◌&&◌, String, Option, none, some, List, any, sym, ◌==◌, arith,
  string_same, if◌then◌else◌,
}
use mathlib.Core.Path.{subst}
use ylp_software.Model.{CallType}
use ylp_software.Call.Store.{deref, live_session}
use ylp_software.Call.Service.{
  Calls, Task, is_call, call_id_of, is_correlated, start_waited, on_call_ready,
}
use ylp_software.Call.Service.Running.{Event, ready_received, System, step, run}
use ylp_software.Call.Service.Disarmed.{
  is_inviting, is_invitation, IsCalm, spawn-IsDisarmed, start_call-IsCalm, disarmed, run-IsDisarmed,
}

abbrev pub waits_for : Option (String × CallType) → String → Bool
waits_for none peer = false
waits_for (some (waited, type)) peer = peer == waited

abbrev pub is_of_live_call : Calls → String → String → Bool
is_of_live_call c peer call_id =
    is_call (call_id_of (deref c.store (live_session c.store peer))) call_id

&&-both : (a b : Bool) → a && b ≡ true → (a ≡ true) × (b ≡ true)
&&-both a b h = ground arith

-- A call that a `call-ready` has started.
abbrev IsStarted :
    String → String → Calls → Option (String × CallType) → Calls × Option Task → Type 0
IsStarted peer call_id c o r =
    (waits_for o peer ≡ true) × (is_of_live_call c peer call_id ≡ true) × IsCalm r

start_waited-IsStarted :
    (later : String → String → Bool) (peer call_id : String) (c : Calls) (t : Task)
    (o : Option (String × CallType)) (b : Bool)
    → is_correlated c o peer call_id ≡ b
    → (if b then start_waited later o c else (c, none)).1 ≡ some t
    → IsStarted peer call_id c o (if b then start_waited later o c else (c, none))
start_waited-IsStarted later peer call_id c t o false e h = absurd (ground (arith, h))
start_waited-IsStarted later peer call_id c t none true e h = absurd (ground (arith, e))
start_waited-IsStarted later peer call_id c t (some (waited, type)) true e h =
    let both = &&-both (peer == waited) (is_of_live_call c waited call_id) e in
    (
      both.0,
      subst (λ p. is_of_live_call c p call_id ≡ true)
          (sym ((string_same.same_iff peer waited).0 both.0)) both.1,
      start_call-IsCalm later type waited (record c { call_ready_handler = none }) refl,
    )

on_call_ready-IsStarted :
    (later : String → String → Bool) (peer call_id : String) (c : Calls) (t : Task)
    → (on_call_ready later peer call_id c).1 ≡ some t
    → IsStarted peer call_id c c.call_ready_handler (on_call_ready later peer call_id c)
unfolding on_call_ready
on_call_ready-IsStarted later peer call_id c t h =
    start_waited-IsStarted later peer call_id c t c.call_ready_handler
      (is_correlated c c.call_ready_handler peer call_id) refl h

-- The `call-ready` was waited for, and after these events none is.
abbrev pub IsOnce : (String → String → Bool) → String → String → System → List Event → Type 0
IsOnce later peer call_id s es =
    let d = (run later (step later (ready_received peer call_id) s) es).calls in
    (waits_for s.calls.call_ready_handler peer ≡ true)
    × (is_of_live_call s.calls peer call_id ≡ true)
    × ((other id : String) → on_call_ready later other id d ≡ (d, none))

-- Where no invitation of a peer is under way, a `call-ready` starts the call only if it comes from
-- the peer that was invited, and with the call id of the session with that peer that is not finalized.
-- After it has, and after whatever operations are then started, interleave and end, other than the
-- invitation of a peer, no `call-ready`, from whomever, starts a call or changes the state.
pub on_call_ready-IsOnce :
    (later : String → String → Bool) (peer call_id : String) (s : System) (es : List Event)
    (t : Task)
    → any is_inviting s.tasks ≡ false
    → any is_invitation es ≡ false
    → (on_call_ready later peer call_id s.calls).1 ≡ some t
    → IsOnce later peer call_id s es
unfolding step
on_call_ready-IsOnce later peer call_id s es t i j h =
    let (waited, live, calm) = on_call_ready-IsStarted later peer call_id s.calls t h in
    let d = step later (ready_received peer call_id) s in
    let quiet =
      run-IsDisarmed later d es j
        (spawn-IsDisarmed s.tasks (on_call_ready later peer call_id s.calls) calm i) in
    (waited, live, λ other id. disarmed later other id (run later d es).calls quiet.0)
