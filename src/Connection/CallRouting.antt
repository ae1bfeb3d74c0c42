-- ===== src/Connection/CallRouting.antt =====
-- Who may ring (services/call-message-router.ts, and the busy marker of services/connection-service.ts):
-- `CallMessageRouter.handle`, `dispatchCallResult`, `handleBusyReject`, `setActiveCall`,
-- `clearActiveCall`. Texts are compared by `later`, the `>` of the source's language.
pub mod Glare
mod Tests
use ylp_software.Base.{
  ℕ, Bool, true, false, not, ◌&&◌, String, Option, none, some, List, [], ◌∷◌, contains, add,
  get_or_else, ◌==◌, string_same, if◌then◌else◌,
}
use ylp_software.Model.{CallType, audio, video}

-- An invitation, by its type: `audio-call` or `video-call`.
pub record Invitation : Type 0 where
  pub peer_id : String
  pub caller_name : String
  pub conversation_id : Option String
  pub call_id : Option String

-- How a call ended, in a message and to the caller of `terminateCallConnection`.
pub data Reason : Type 0 where
  completed missed rejected : Reason

-- `CallEndedEventPayload`
pub record Ending : Type 0 where
  pub peer_id : String
  pub call_id : Option String
  pub status : Option Reason
  pub ended_at : Option ℕ
  pub duration_seconds : Option ℕ
  pub initiator_id : Option String
  pub call_type : Option CallType
  pub message_id : Option String
  pub conversation_id : Option String

-- `data` of a `call-rejected`.
pub record Rejection : Type 0 where
  pub peer_id : String
  pub is_busy : Bool
  pub call_id : Option String
  pub conversation_id : Option String
  pub message_id : Option String
  pub call_type : Option CallType

pub data CallMessage : Type 0 where
  invitation : CallType → Invitation → CallMessage
  call_ended : Ending → CallMessage
  call_ready : String → String → CallMessage
  call_rejected : Rejection → CallMessage
  call_missed : String → CallMessage

-- `CallBusyPayload`
pub record BusyPayload : Type 0 where
  pub peer_id : String
  pub call_id : String
  pub conversation_id : String
  pub message_id : Option String
  pub call_type : CallType

-- `CallRejectedPayload`
pub record RejectedPayload : Type 0 where
  pub peer_id : String
  pub call_id : Option String
  pub conversation_id : Option String
  pub call_type : Option CallType

-- `CallRouterResult`
pub data CallRouterResult : Type 0 where
  emit_call : CallType → Invitation → CallRouterResult
  emit_ended : Ending → CallRouterResult
  emit_ready : String → String → CallRouterResult
  emit_busy : BusyPayload → CallRouterResult
  emit_rejected : RejectedPayload → CallRouterResult
  busy_reject : String → CallType → Option String → CallRouterResult
  glare : String → CallType → Invitation → CallRouterResult
  noop : CallRouterResult

-- `user.id`, `activeCallPeerId` and `glareAcceptedPeers` of the connection service.
pub record Marker : Type 0 where
  pub user_id : String
  pub active_call_peer_id : Option String
  pub glare_accepted_peers : List String

-- `setActiveCall`
unfoldable pub set_active_call : Option String → Marker → Marker
set_active_call none m = record m { active_call_peer_id = none; glare_accepted_peers = [] }
set_active_call (some peer) m = record m { active_call_peer_id = some peer }

-- `this.activeCallPeerId === peerId`
abbrev pub is_active_with : Option String → String → Bool
is_active_with none peer = false
is_active_with (some active) peer = active == peer

abbrev pub has_active_call : Marker → String → Bool
has_active_call m peer = is_active_with m.active_call_peer_id peer

-- `clearActiveCall`
unfoldable pub clear_active_call : String → Marker → Marker
unfolding set_active_call
clear_active_call peer m = if has_active_call m peer then set_active_call none m else m

-- `shouldIgnoreCallBusy`
abbrev pub should_ignore_call_busy : Marker → String → Bool
should_ignore_call_busy m peer = contains peer m.glare_accepted_peers

abbrev pub is_busy_for : (String → String → Bool) → String → Option String → String → Bool
is_busy_for later user none caller = false
is_busy_for later user (some active) caller = if active == caller then later user caller else true

-- `shouldBusyRejectIncomingCall`
unfoldable pub should_busy_reject : (String → String → Bool) → Marker → String → Bool
should_busy_reject later m caller = is_busy_for later m.user_id m.active_call_peer_id caller

-- `handle` of a `call-rejected`.
unfoldable pub route_rejection : Rejection → CallRouterResult
route_rejection r =
    if r.is_busy
    then emit_busy (record {
      peer_id = r.peer_id;
      call_id = get_or_else r.call_id "";
      conversation_id = get_or_else r.conversation_id "";
      message_id = r.message_id;
      call_type = get_or_else r.call_type audio;
    })
    else emit_rejected (record {
      peer_id = r.peer_id;
      call_id = r.call_id;
      conversation_id = r.conversation_id;
      call_type = r.call_type;
    })

-- `handle`. Whether the device is busy is asked when the message comes (`before`); whether it calls
-- the same peer is asked when the notification has been shown (`after`).
unfoldable pub handle : (String → String → Bool) → Marker → Marker → CallMessage → CallRouterResult
unfolding should_busy_reject route_rejection
handle later before after (invitation type i) =
    if should_busy_reject later before i.peer_id
    then busy_reject i.peer_id type i.call_id
    else if has_active_call after i.peer_id
    then glare i.peer_id type i
    else emit_call type i
handle later before after (call_ended e) = emit_ended e
handle later before after (call_ready from call_id) = emit_ready from call_id
handle later before after (call_rejected r) = route_rejection r
handle later before after (call_missed from) = noop

-- What the connection service does: its events, the call log that it has saved, and the message
-- that it sends.
pub data Effect : Type 0 where
  emitted : CallRouterResult → Effect
  log_saved : String → CallType → String → Effect
  sent : String → Rejection → Effect

-- What the service is set up with: `saveCallLogWithReceipts` of the call service, if there is one,
-- by the id that it returns (`none` where it throws), `uuid.v4()`, and `directConversationId`.
pub record Services : Type 0 where
  pub save_log : Option (Option String)
  pub new_id : String
  pub direct_conversation_id : String → String → String

unfoldable pub busy_rejection :
    Services → Marker → String → CallType → Option String → Option String → List Effect
busy_rejection env m caller type call_id message_id =
    sent caller (record {
      peer_id = m.user_id;
      is_busy = true;
      call_id = some (get_or_else call_id env.new_id);
      conversation_id = some (env.direct_conversation_id m.user_id caller);
      message_id = message_id;
      call_type = some type;
    })
    ∷ []

-- The saving of the call log; `none` where it throws.
abbrev pub saved_log : Option (Option String) → Bool → Option (Option String)
saved_log none is_own_glare = some none
saved_log (some answer) true = some none
saved_log (some none) false = none
saved_log (some (some id)) false = some (some id)

abbrev pub log_effect : String → CallType → Option String → List Effect → List Effect
log_effect caller type none es = es
log_effect caller type (some id) es = log_saved caller type id ∷ es

abbrev pub reject_after_log :
    Services → Marker → String → CallType → Option String → Option (Option String) → List Effect
reject_after_log env m caller type call_id none = []
reject_after_log env m caller type call_id (some message_id) =
    log_effect caller type message_id (busy_rejection env m caller type call_id message_id)

-- `handleBusyReject`
unfoldable pub handle_busy_reject :
    Services → Marker → String → CallType → Option String → List Effect
handle_busy_reject env m caller type call_id =
    reject_after_log env m caller type call_id (saved_log env.save_log (has_active_call m caller))

-- `dispatchCallResult`
unfoldable pub dispatch_call_result : Services → Marker → CallRouterResult → Marker × List Effect
unfolding handle_busy_reject
dispatch_call_result env m (busy_reject peer type call_id) =
    (m, handle_busy_reject env m peer type call_id)
dispatch_call_result env m (glare peer type i) = (
  record m { glare_accepted_peers = add m.glare_accepted_peers peer },
  emitted (emit_call type i) ∷ [],
)
dispatch_call_result env m noop = (m, [])
dispatch_call_result env m r = (m, emitted r ∷ [])
