-- ===== src/Sync/Records.antt =====
-- The rows that are pulled and pushed: `EntityLocalPayloadMap` (sync-service.ts) has each column
-- under its server name, its local name or both; the server's rows (sync.api.ts) have the first
-- set only. All columns are optional here, as in the source's `updated` rows.
use ylp_software.Base.{ℕ, Bool, String, Option, List, []}
use ylp_software.Model.{MessageStatusType, CallType, CallStatus, MessageType, ConversationType}
use ylp_software.Sync.Timestamp.{Stamp}

pub record Conversation : Type 0 where
  pub id : Option String
  pub title : Option String
  pub conversation_type : Option ConversationType
  pub type : Option ConversationType
  pub is_deleted : Option Bool
  pub is_deleted_local : Option Bool
  pub created_at : Stamp
  pub created_at_local : Stamp
  pub updated_at : Stamp
  pub updated_at_local : Stamp

pub record ConversationParticipant : Type 0 where
  pub id : Option String
  pub conversation_id : Option String
  pub conversation : Option String
  pub user_id : Option String
  pub user : Option String
  pub joined_at : Stamp
  pub joined_at_local : Stamp
  pub is_deleted : Option Bool
  pub is_deleted_local : Option Bool
  pub created_at : Stamp
  pub created_at_local : Stamp
  pub updated_at : Stamp
  pub updated_at_local : Stamp

pub record Message : Type 0 where
  pub id : Option String
  pub conversation_id : Option String
  pub conversation : Option String
  pub sender_id : Option String
  pub sender : Option String
  pub content : Option String
  pub message_type : Option MessageType
  pub message_type_local : Option MessageType
  pub is_deleted : Option Bool
  pub is_deleted_local : Option Bool
  pub created_at : Stamp
  pub created_at_local : Stamp
  pub updated_at : Stamp
  pub updated_at_local : Stamp

pub record Call : Type 0 where
  pub id : Option String
  pub call_type : Option CallType
  pub call_type_local : Option CallType
  pub status : Option CallStatus
  pub start_time : Stamp
  pub start_time_local : Stamp
  pub end_time : Stamp
  pub end_time_local : Stamp
  pub conversation_id : Option String
  pub conversation : Option String
  pub initiator_id : Option String
  pub initiator : Option String
  pub is_deleted : Option Bool
  pub is_deleted_local : Option Bool
  pub created_at : Stamp
  pub created_at_local : Stamp
  pub updated_at : Stamp
  pub updated_at_local : Stamp

pub record CallParticipant : Type 0 where
  pub id : Option String
  pub call_id : Option String
  pub call : Option String
  pub user_id : Option String
  pub user : Option String
  pub joined_at : Stamp
  pub joined_at_local : Stamp
  pub left_at : Stamp
  pub left_at_local : Stamp
  pub is_deleted : Option Bool
  pub is_deleted_local : Option Bool
  pub created_at : Stamp
  pub created_at_local : Stamp
  pub updated_at : Stamp
  pub updated_at_local : Stamp

pub record Receipt : Type 0 where
  pub id : Option String
  pub status : Option MessageStatusType
  pub message_id : Option String
  pub message : Option String
  pub user_id : Option String
  pub user : Option String
  pub is_deleted : Option Bool
  pub is_deleted_local : Option Bool
  pub created_at : Stamp
  pub created_at_local : Stamp
  pub updated_at : Stamp
  pub updated_at_local : Stamp

-- One table's changes.
pub record EntityChanges (A : Type 0) : Type 0 where
  pub created : List A
  pub updated : List A
  pub deleted : List String

abbrev pub no_entity_changes : {A : Type 0} → EntityChanges A
no_entity_changes = record { created = []; updated = []; deleted = [] }

-- `SyncChanges`
pub record Changes : Type 0 where
  pub conversations : EntityChanges Conversation
  pub conversation_participants : EntityChanges ConversationParticipant
  pub messages : EntityChanges Message
  pub calls : EntityChanges Call
  pub call_participants : EntityChanges CallParticipant
  pub message_receipts : EntityChanges Receipt

abbrev pub no_changes : Changes
no_changes = record {
  conversations = no_entity_changes;
  conversation_participants = no_entity_changes;
  messages = no_entity_changes;
  calls = no_entity_changes;
  call_participants = no_entity_changes;
  message_receipts = no_entity_changes;
}

-- `ServerEntityPage`
pub record EntityPage (A : Type 0) : Type 0 where
  pub created : List A
  pub updated : List A
  pub deleted : List String
  pub has_more : Bool
  pub next_cursor : Option ℕ

-- `ServerSyncResponse`
pub record Page : Type 0 where
  pub conversations : EntityPage Conversation
  pub conversation_participants : EntityPage ConversationParticipant
  pub messages : EntityPage Message
  pub calls : EntityPage Call
  pub call_participants : EntityPage CallParticipant
  pub message_receipts : EntityPage Receipt
  pub timestamp : ℕ
