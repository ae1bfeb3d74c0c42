-- ===== src/Sync/Push.antt =====
-- `SyncService.buildPushPayload`, `hasPayload` and `pushToServer` (sync-service.ts).
pub mod Rejected
pub mod Laws
pub mod Requests
use ylp_software.Base.{
  ℕ, ltb, Bool, true, false, not, ◌&&◌, ◌||◌, String, Option, none, some, List, [], ◌∷◌, ◌++◌, map,
  filter, contains, insert, length, truthy, truthy?, get_or_else, string_same, ◌==◌, ◌<|>◌,
  if◌then◌else◌,
}
use ylp_software.Model.{MessageStatusType, CallStatus, sent, delivered, initiating}
use ylp_software.Sync.Timestamp.{Runtime}
use ylp_software.Sync.Records.{
  Conversation, ConversationParticipant, Message, Call, CallParticipant, Receipt, EntityChanges,
  Changes,
}
use ylp_software.Sync.Payload.{
  ServerConversation, ServerParticipant, ServerMessage, ServerCall, ServerCallParticipant,
  ServerReceipt, conversation_payload, participant_payload, message_payload, call_payload,
  call_participant_payload, receipt_payload,
}
use ylp_software.Chat.ReceiptManager.{should_push_receipt}

-- `convId && convId === selfConvId && data.id`
abbrev pub is_self_message : String → Message → Bool
is_self_message self m =
    let conv = m.conversation_id <|> m.conversation in
    truthy? conv && get_or_else conv "" == self && truthy? m.id

abbrev pub self_ids_in : String → List Message → List String
self_ids_in self ms = map (λ (m : Message). get_or_else m.id "") (filter (is_self_message self) ms)

-- `selfMessageIds`. The query for the conversation with oneself may throw (`none`), which is
-- logged, or find nothing.
unfoldable pub self_message_ids :
    Option String → (String → Option (Option String)) → List Message → List String
self_message_ids none find_self ms = []
self_message_ids (some user) find_self ms = elim (truthy user) [
  | false ↦ []
  | true ↦ elim (find_self user) [
    | none ↦ []
    | some found ↦ elim (truthy? found) [
      | true ↦ self_ids_in (get_or_else found "") ms
      | false ↦ []
    ]
  ]
]

abbrev pub is_initiating : Option CallStatus → Bool
is_initiating (some initiating) = true
is_initiating _ = false

-- `excludedCallIds`: the calls that are still being set up.
unfoldable pub excluded_call_ids : List Call → List String
excluded_call_ids calls =
    map (λ (c : Call). get_or_else c.id "")
      (filter (λ c. is_initiating c.status && truthy? c.id) calls)

unfoldable pub is_excluded_call : List String → Call → Bool
is_excluded_call excluded c = contains (get_or_else c.id "") excluded

-- `isExcludedCallParticipant`
unfoldable pub is_excluded_call_participant : List String → CallParticipant → Bool
is_excluded_call_participant excluded p =
    let call_id = p.call_id <|> p.call in
    truthy? call_id && contains (get_or_else call_id "") excluded

abbrev pub is_sent : Option MessageStatusType → Bool
is_sent (some sent) = true
is_sent _ = false

-- `mapSelfReceiptStatus`
unfoldable pub map_self_receipt_status : List String → Receipt → Receipt
map_self_receipt_status self_ids r =
    let msg_id = r.message_id <|> r.message in
    if truthy? msg_id && contains (get_or_else msg_id "") self_ids && is_sent r.status
    then record r { status = some delivered }
    else r

-- `rejectedIds`
unfoldable pub rejected_ids : {A : Type 0} → (A → Option String) → (A → Bool) → List A → List String
rejected_ids id_of should_reject records =
    map (λ r. get_or_else (id_of r) "") (filter (λ r. truthy? (id_of r) && should_reject r) records)

-- A row of the table of peers, as far as the push reads it.
pub record PeerRow : Type 0 where
  pub id : String
  pub username : String
  pub first_name : String
  pub last_name : Option String
  pub is_guest : Bool

pub record GuestUser : Type 0 where
  pub first_name : String
  pub last_name : String
  pub username : String

-- `PeerRepository.getByIds`; `none` where it throws.
abbrev pub PeerQuery : Type 0
PeerQuery = List String → Option (List PeerRow)

abbrev pub add_guest : List (String × GuestUser) → PeerRow → List (String × GuestUser)
add_guest guests peer =
    if peer.is_guest && truthy peer.first_name
    then insert peer.id
        (record {
          first_name = peer.first_name;
          last_name = get_or_else peer.last_name "";
          username = peer.username;
        })
        guests
    else guests

abbrev pub add_guests : List (String × GuestUser) → List PeerRow → List (String × GuestUser)
add_guests guests [] = guests
add_guests guests (p ∷ ps) = add_guests (add_guest guests p) ps

-- `participantUserIds`
abbrev pub participant_user_ids : List ServerParticipant → List String
participant_user_ids ps =
    filter truthy (map (λ (p : ServerParticipant). get_or_else p.user_id "") ps)

unfoldable pub guests_among : PeerQuery → List String → Option (List (String × GuestUser))
guests_among get_by_ids [] = some []
guests_among get_by_ids (k ∷ ids) = elim (get_by_ids (k ∷ ids)) [
  | none ↦ none
  | some peers ↦ some (add_guests [] peers)
]

-- `guest_users`: the guests among the participants whose rows are pushed.
unfoldable pub guest_users :
    Option PeerQuery → List ServerParticipant → Option (List (String × GuestUser))
unfolding guests_among
guest_users none created = some []
guest_users (some get_by_ids) created = guests_among get_by_ids (participant_user_ids created)

-- The `changes` of the request.
pub record PushChanges : Type 0 where
  pub conversations : EntityChanges ServerConversation
  pub conversation_participants : EntityChanges ServerParticipant
  pub messages : EntityChanges ServerMessage
  pub calls : EntityChanges ServerCall
  pub call_participants : EntityChanges ServerCallParticipant
  pub message_receipts : EntityChanges ServerReceipt

-- `experimentalRejectedIds`; a table without rejected rows has no entry.
pub record RejectedIds : Type 0 where
  pub message_receipts : Option (List String)
  pub calls : Option (List String)
  pub call_participants : Option (List String)

abbrev pub entry : List String → Option (List String)
entry [] = none
entry (k ∷ ids) = some (k ∷ ids)

module _ (rt : Runtime) where
  -- `changes` of the result, with the sets that the first part of the method computes.
  unfoldable pub push_changes : List String → List String → Changes → PushChanges
  unfolding is_excluded_call is_excluded_call_participant map_self_receipt_status
      should_push_receipt
  push_changes self_ids excluded changes = record {
    conversations = record {
      created = map (conversation_payload rt) changes.conversations.created;
      updated = map (conversation_payload rt) changes.conversations.updated;
      deleted = changes.conversations.deleted;
    };
    conversation_participants = record {
      created = map (participant_payload rt) changes.conversation_participants.created;
      updated = map (participant_payload rt) changes.conversation_participants.updated;
      deleted = changes.conversation_participants.deleted;
    };
    messages = record {
      created = map (message_payload rt) changes.messages.created;
      updated = map (message_payload rt) changes.messages.updated;
      deleted = changes.messages.deleted;
    };
    calls = record {
      created =
          map (call_payload rt)
            (filter (λ r. not (is_excluded_call excluded r)) changes.calls.created);
      updated =
          map (call_payload rt)
            (filter (λ r. not (is_excluded_call excluded r)) changes.calls.updated);
      deleted = changes.calls.deleted;
    };
    call_participants = record {
      created = map (call_participant_payload rt) (
          filter (λ r. not (is_excluded_call_participant excluded r))
            changes.call_participants.created);
      updated = map (call_participant_payload rt) (
          filter (λ r. not (is_excluded_call_participant excluded r))
            changes.call_participants.updated);
      deleted = changes.call_participants.deleted;
    };
    message_receipts = record {
      created = map (receipt_payload rt) (
          filter (λ (r : Receipt). should_push_receipt r.status)
            (map (map_self_receipt_status self_ids) changes.message_receipts.created));
      updated = map (receipt_payload rt) (
          filter (λ (r : Receipt). should_push_receipt r.status)
            (map (map_self_receipt_status self_ids) changes.message_receipts.updated));
      deleted = changes.message_receipts.deleted;
    };
  }

  -- `experimentalRejectedIds` of the result.
  unfoldable pub push_rejected : List String → List String → Changes → RejectedIds
  unfolding is_excluded_call is_excluded_call_participant map_self_receipt_status
      should_push_receipt rejected_ids
  push_rejected self_ids excluded changes = record {
    message_receipts = entry (
        rejected_ids (λ (r : Receipt). r.id) (λ r. not (should_push_receipt r.status))
          (map (map_self_receipt_status self_ids) changes.message_receipts.created
            ++ map (map_self_receipt_status self_ids) changes.message_receipts.updated));
    calls = entry (
        rejected_ids (λ (r : Call). r.id) (is_excluded_call excluded)
          (changes.calls.created ++ changes.calls.updated));
    call_participants = entry (
        rejected_ids (λ (r : CallParticipant). r.id) (is_excluded_call_participant excluded)
          (changes.call_participants.created ++ changes.call_participants.updated));
  }

pub record PushPayload : Type 0 where
  pub changes : PushChanges
  pub guest_users : List (String × GuestUser)
  pub rejected : RejectedIds

-- What the sync service was constructed with, and the query of its participant repository.
pub record PushContext : Type 0 where
  pub runtime : Runtime
  pub current_user_id : Option String
  pub find_self : String → Option (Option String)
  pub get_by_ids : Option PeerQuery

module _ (ctx : PushContext) where
  abbrev pub self_ids_of : Changes → List String
  self_ids_of changes =
      self_message_ids ctx.current_user_id ctx.find_self
        (changes.messages.created ++ changes.messages.updated)

  abbrev pub excluded_of : Changes → List String
  excluded_of changes = excluded_call_ids (changes.calls.created ++ changes.calls.updated)

  -- `buildPushPayload`; `none` where the query for the peers throws.
  unfoldable pub build_push_payload : Changes → Option PushPayload
  build_push_payload changes =
      let created =
        map (participant_payload ctx.runtime) changes.conversation_participants.created in
      elim (guest_users ctx.get_by_ids created) [
        | none ↦ none
        | some guests ↦ some (record {
          changes = push_changes ctx.runtime (self_ids_of changes) (excluded_of changes) changes;
          guest_users = guests;
          rejected = push_rejected ctx.runtime (self_ids_of changes) (excluded_of changes) changes;
        })
      ]

abbrev pub has_items : {A : Type 0} → EntityChanges A → Bool
has_items c = ltb 0 (length c.created) || ltb 0 (length c.updated) || ltb 0 (length c.deleted)

-- `hasPayload`
unfoldable pub has_payload : PushChanges → Bool
has_payload p =
    has_items p.conversations
    || has_items p.conversation_participants
    || has_items p.messages
    || has_items p.calls
    || has_items p.call_participants
    || has_items p.message_receipts

pub record PushRequest : Type 0 where
  pub last_pulled_at : ℕ
  pub changes : PushChanges
  pub guest_users : List (String × GuestUser)

-- `pushToServer` up to the answer of the server: the request, if one is sent, and the rejected ids.
unfoldable pub push_to_server :
    PushContext → Changes → Option ℕ → Option (Option PushRequest × RejectedIds)
push_to_server ctx changes last_pulled_at = elim (build_push_payload ctx changes) [
  | none ↦ none
  | some p ↦
      if has_payload p.changes
      then some (
        some (record {
          last_pulled_at = get_or_else last_pulled_at 0;
          changes = p.changes;
          guest_users = p.guest_users;
        }),
        p.rejected,
      )
      else some (none, p.rejected)
]
