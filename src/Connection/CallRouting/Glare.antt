-- ===== src/Connection/CallRouting/Glare.antt =====
-- Two devices that call each other at the same time.
use ylp_software.Base.{
  ◌≡◌, refl, Bool, true, false, not, String, Option, none, some, [], ◌∷◌, contains-add, arith,
  get_or_else, ap, ◌∙◌, ◌==◌, string_same, Bool-cases, inl, inr, ◌⊎◌,
}
use ylp_software.Model.{CallType}
use ylp_software.Connection.CallRouting.{
  Invitation, Rejection, invitation, CallRouterResult, emit_call, emit_busy, busy_reject, glare,
  Marker, has_active_call, should_ignore_call_busy, handle, emitted, sent, Services,
  handle_busy_reject, route_rejection, is_active_with, saved_log, reject_after_log, busy_rejection,
  dispatch_call_result,
}

-- One of the devices: its id is `self`, and it is calling `peer`.
abbrev pub Calls : Marker → String → String → Type 0
Calls m self peer = (m.user_id ≡ self) × (m.active_call_peer_id ≡ some peer)

-- The winner accepts the loser's invitation, and marks it.
pub record Accepts (env : Services) (m : Marker) (peer : String) (type : CallType) (i : Invitation)
    (r : CallRouterResult) : Type 0 where
  pub routed : r ≡ glare peer type i
  pub told : (dispatch_call_result env m r).1 ≡ emitted (emit_call type i) ∷ []
  pub marked : should_ignore_call_busy (dispatch_call_result env m r).0 peer ≡ true
  pub kept : (dispatch_call_result env m r).0.active_call_peer_id ≡ m.active_call_peer_id

abbrev pub busy_peer : CallRouterResult → Option String
busy_peer (emit_busy p) = some p.peer_id
busy_peer r = none

-- The loser rejects the winner's invitation: it saves no call log, rings nobody, and sends one
-- message, which is routed as busy.
pub record Rejects (env : Services) (m : Marker) (peer : String) (type : CallType) (i : Invitation)
    (r : CallRouterResult) : Type 0 where
  pub routed : r ≡ busy_reject peer type i.call_id
  pub answer : Rejection
  pub is_busy : answer.is_busy ≡ true
  pub from : answer.peer_id ≡ m.user_id
  pub only : (dispatch_call_result env m r).1 ≡ sent peer answer ∷ []
  pub heard : busy_peer (route_rejection answer) ≡ some m.user_id
  pub kept : (dispatch_call_result env m r).0 ≡ m

self-same : (k : String) → (k == k) ≡ true
self-same k = (string_same.same_iff k k).1 refl

is-active :
    (m : Marker) {peer : String}
    → m.active_call_peer_id ≡ some peer
    → (other : String) → has_active_call m other ≡ (peer == other)
is-active m a other = ap (λ x. is_active_with x other) a

module _ (later : String → String → Bool) (env : Services) where
  accepts :
      (m : Marker) (self peer : String) (type : CallType) (i : Invitation)
      → Calls m self peer
      → i.peer_id ≡ peer
      → later self peer ≡ false
      → Accepts env m peer type i (handle later m m (invitation type i))
  unfolding handle dispatch_call_result
  accepts m self peer type i (u, a) f l = record {
    routed = ground (arith, string_same.same_iff peer peer);
    told = ground (arith, string_same.same_iff peer peer);
    marked =
        ground
          (arith, string_same.same_iff peer peer, contains-add peer peer m.glare_accepted_peers);
    kept = ground (arith, string_same.same_iff peer peer);
  }

  busy-routes :
      (m : Marker) (self peer : String) (type : CallType) (i : Invitation)
      → Calls m self peer
      → i.peer_id ≡ peer
      → later self peer ≡ true
      → handle later m m (invitation type i) ≡ busy_reject peer type i.call_id
  unfolding handle
  busy-routes m self peer type i (u, a) f l = ground (arith, string_same.same_iff peer peer)

  saved_log-glare : (answer : Option (Option String)) → saved_log answer true ≡ some none
  saved_log-glare none = refl
  saved_log-glare (some answer) = refl

  busy-answers :
      (m : Marker) (self peer : String) (type : CallType) (call_id : Option String)
      → Calls m self peer
      → handle_busy_reject env m peer type call_id ≡ busy_rejection env m peer type call_id none
  unfolding handle_busy_reject
  busy-answers m self peer type call_id (u, a) =
      ap (λ b. reject_after_log env m peer type call_id (saved_log env.save_log b))
        (is-active m a peer ∙ self-same peer)
      ∙ ap (reject_after_log env m peer type call_id) (saved_log-glare env.save_log)

  rejects :
      (m : Marker) (self peer : String) (type : CallType) (i : Invitation)
      → Calls m self peer
      → i.peer_id ≡ peer
      → later self peer ≡ true
      → Rejects env m peer type i (handle later m m (invitation type i))
  unfolding dispatch_call_result busy_rejection route_rejection
  rejects m self peer type i c f l = record {
    routed = busy-routes m self peer type i c f l;
    answer = record {
      peer_id = m.user_id;
      is_busy = true;
      call_id = some (get_or_else i.call_id env.new_id);
      conversation_id = some (env.direct_conversation_id m.user_id peer);
      message_id = none;
      call_type = some type;
    };
    is_busy = refl;
    from = refl;
    only =
        ap (λ r. (dispatch_call_result env m r).1) (busy-routes m self peer type i c f l)
        ∙ busy-answers m self peer type i.call_id c;
    heard = refl;
    kept = ap (λ r. (dispatch_call_result env m r).0) (busy-routes m self peer type i c f l);
  }

abbrev pub IsResolved :
    (String → String → Bool)
    → Services
    → Services
    → Marker
    → Marker
    → CallType
    → CallType
    → Invitation
    → Invitation
    → Type 0
IsResolved later env_a env_b m_a m_b type_a type_b i_a i_b =
    Accepts env_a m_a i_b.peer_id type_b i_b (handle later m_a m_a (invitation type_b i_b))
    × Rejects env_b m_b i_a.peer_id type_a i_a (handle later m_b m_b (invitation type_a i_a))

-- Two devices that are calling each other, each of which handles the other's
-- invitation while its own call is still the active one, are not both refused and do not both
-- ring: one of them routes the invitation as glare, reports the call and is set to ignore a busy
-- answer of the other, and keeps its active call; the other one routes it as busy, whatever the call
-- log does, saves no call log, reports nothing, keeps its marker, and sends one answer, in its
-- name, which is routed as a busy answer of it. Exactly one of the two ids is to be later than the
-- other one in the order on texts.
pub glare-IsResolved :
    (later : String → String → Bool)
    → (env_a env_b : Services) → (m_a m_b : Marker) → (type_a type_b : CallType)
    → (i_a i_b : Invitation) → later i_a.peer_id i_b.peer_id ≡ not (later i_b.peer_id i_a.peer_id)
    → Calls m_a i_a.peer_id i_b.peer_id
    → Calls m_b i_b.peer_id i_a.peer_id
    → IsResolved later env_a env_b m_a m_b type_a type_b i_a i_b
      ⊎ IsResolved later env_b env_a m_b m_a type_b type_a i_b i_a
glare-IsResolved later env_a env_b m_a m_b type_a type_b i_a i_b n c_a c_b =
    elim (Bool-cases (later i_a.peer_id i_b.peer_id)) [
      | inl l ↦ inr (
        accepts later env_b m_b i_b.peer_id i_a.peer_id type_a i_a c_b refl (ground arith),
        rejects later env_a m_a i_a.peer_id i_b.peer_id type_b i_b c_a refl l,
      )
      | inr l ↦ inl (
        accepts later env_a m_a i_a.peer_id i_b.peer_id type_b i_b c_a refl l,
        rejects later env_b m_b i_b.peer_id i_a.peer_id type_a i_a c_b refl (ground arith),
      )
    ]
