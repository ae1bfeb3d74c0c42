-- ===== src/Sync/Payload.antt =====
-- `SyncPayloadBuilder.toServerPayload` (sync-payload-builder.ts): a local row as the server wants
-- it. Its warnings about missing keys and zero timestamps only write to the log.
pub mod RoundTrip
use ylp_software.Base.{ℕ, Bool, false, String, Option, none, some, get_or_else, ◌<|>◌}
use ylp_software.Model.{MessageStatusType, CallType, CallStatus, MessageType, ConversationType}
use ylp_software.Sync.Timestamp.{Runtime, to_int, ◌<?>◌}
use ylp_software.Sync.Records.{
  Conversation, ConversationParticipant, Message, Call, CallParticipant, Receipt,
}

pub record ServerConversation : Type 0 where
  pub id : Option String
  pub title : String
  pub conversation_type : Option ConversationType
  pub is_deleted : Bool
  pub created_at : ℕ
  pub updated_at : ℕ

pub record ServerParticipant : Type 0 where
  pub id : Option String
  pub conversation_id : Option String
  pub user_id : Option String
  pub joined_at : ℕ
  pub is_deleted : Bool
  pub created_at : ℕ
  pub updated_at : ℕ

pub record ServerMessage : Type 0 where
  pub id : Option String
  pub conversation_id : Option String
  pub sender_id : Option String
  pub message_type : Option MessageType
  pub content : Option String
  pub is_deleted : Bool
  pub created_at : ℕ
  pub updated_at : ℕ

pub record ServerCall : Type 0 where
  pub id : Option String
  pub call_type : Option CallType
  pub status : Option CallStatus
  pub start_time : ℕ
  pub end_time : ℕ
  pub conversation_id : Option String
  pub initiator_id : Option String
  pub is_deleted : Bool
  pub created_at : ℕ
  pub updated_at : ℕ

pub record ServerCallParticipant : Type 0 where
  pub id : Option String
  pub call_id : Option String
  pub user_id : Option String
  pub joined_at : ℕ
  pub left_at : ℕ
  pub is_deleted : Bool
  pub created_at : ℕ
  pub updated_at : ℕ

pub record ServerReceipt : Type 0 where
  pub id : Option String
  pub status : Option MessageStatusType
  pub message_id : Option String
  pub user_id : Option String
  pub is_deleted : Bool
  pub created_at : ℕ
  pub updated_at : ℕ

-- `Boolean(data.is_deleted ?? data.isDeleted)`
abbrev pub flag : Option Bool → Option Bool → Bool
flag a b = get_or_else (a <|> b) false

module _ (rt : Runtime) where
  unfoldable pub conversation_payload : Conversation → ServerConversation
  conversation_payload data' = record {
    id = data'.id;
    title = get_or_else data'.title "";
    conversation_type = data'.conversation_type <|> data'.type;
    is_deleted = flag data'.is_deleted data'.is_deleted_local;
    created_at = to_int rt (data'.created_at <?> data'.created_at_local);
    updated_at = to_int rt (data'.updated_at <?> data'.updated_at_local);
  }

  unfoldable pub participant_payload : ConversationParticipant → ServerParticipant
  participant_payload data' = record {
    id = data'.id;
    conversation_id = data'.conversation_id <|> data'.conversation;
    user_id = data'.user_id <|> data'.user;
    joined_at = to_int rt (data'.joined_at <?> data'.joined_at_local);
    is_deleted = flag data'.is_deleted data'.is_deleted_local;
    created_at = to_int rt (data'.created_at <?> data'.created_at_local);
    updated_at = to_int rt (data'.updated_at <?> data'.updated_at_local);
  }

  unfoldable pub message_payload : Message → ServerMessage
  message_payload data' = record {
    id = data'.id;
    conversation_id = data'.conversation_id <|> data'.conversation;
    sender_id = data'.sender_id <|> data'.sender;
    message_type = data'.message_type <|> data'.message_type_local;
    content = data'.content;
    is_deleted = flag data'.is_deleted data'.is_deleted_local;
    created_at = to_int rt (data'.created_at <?> data'.created_at_local);
    updated_at = to_int rt (data'.updated_at <?> data'.updated_at_local);
  }

  unfoldable pub call_payload : Call → ServerCall
  call_payload data' = record {
    id = data'.id;
    call_type = data'.call_type <|> data'.call_type_local;
    status = data'.status;
    start_time = to_int rt (data'.start_time <?> data'.start_time_local);
    end_time = to_int rt (data'.end_time <?> data'.end_time_local);
    conversation_id = data'.conversation_id <|> data'.conversation;
    initiator_id = data'.initiator_id <|> data'.initiator;
    is_deleted = flag data'.is_deleted data'.is_deleted_local;
    created_at = to_int rt (data'.created_at <?> data'.created_at_local);
    updated_at = to_int rt (data'.updated_at <?> data'.updated_at_local);
  }

  unfoldable pub call_participant_payload : CallParticipant → ServerCallParticipant
  call_participant_payload data' = record {
    id = data'.id;
    call_id = data'.call_id <|> data'.call;
    user_id = data'.user_id <|> data'.user;
    joined_at = to_int rt (data'.joined_at <?> data'.joined_at_local);
    left_at = to_int rt (data'.left_at <?> data'.left_at_local);
    is_deleted = flag data'.is_deleted data'.is_deleted_local;
    created_at = to_int rt (data'.created_at <?> data'.created_at_local);
    updated_at = to_int rt (data'.updated_at <?> data'.updated_at_local);
  }

  unfoldable pub receipt_payload : Receipt → ServerReceipt
  receipt_payload data' = record {
    id = data'.id;
    status = data'.status;
    message_id = data'.message_id <|> data'.message;
    user_id = data'.user_id <|> data'.user;
    is_deleted = flag data'.is_deleted data'.is_deleted_local;
    created_at = to_int rt (data'.created_at <?> data'.created_at_local);
    updated_at = to_int rt (data'.updated_at <?> data'.updated_at_local);
  }
