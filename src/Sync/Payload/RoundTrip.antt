-- ===== src/Sync/Payload/RoundTrip.antt =====
-- A row that is pulled, stored in the columns of the local schema
-- (features/shared/core/database/schema.ts) and pushed again is the server's row. Where the
-- server's timestamp is a text, what is pushed is the parsed date.
use ylp_software.Base.{ℕ, ◌≡◌, false, none, some, get_or_else, arith}
use ylp_software.Sync.Timestamp.{Stamp, undefined, Runtime, to_timestamp, trunc_or_zero}
use ylp_software.Sync.Records.{
  Conversation, ConversationParticipant, Message, Call, CallParticipant, Receipt,
}
use ylp_software.Sync.Normalize.{
  MigrationKeys, normalize_conversation, normalize_participant, normalize_message,
  normalize_created_message, created_content, normalize_call, normalize_call_participant,
  normalize_receipt,
}
use ylp_software.Sync.Payload.{
  conversation_payload, participant_payload, message_payload, call_payload,
  call_participant_payload, receipt_payload,
}

-- The columns that the schema has for each table; the others are not stored.
unfoldable pub conversation_columns : Conversation → Conversation
conversation_columns r = record r {
  conversation_type = none;
  is_deleted_local = none;
  created_at_local = undefined;
  updated_at_local = undefined;
}

unfoldable pub participant_columns : ConversationParticipant → ConversationParticipant
participant_columns r = record r {
  conversation_id = none;
  user_id = none;
  joined_at_local = undefined;
  is_deleted_local = none;
  created_at_local = undefined;
  updated_at_local = undefined;
}

unfoldable pub message_columns : Message → Message
message_columns r = record r {
  conversation_id = none;
  sender_id = none;
  message_type_local = none;
  is_deleted_local = none;
  created_at_local = undefined;
  updated_at_local = undefined;
}

unfoldable pub call_columns : Call → Call
call_columns r = record r {
  call_type_local = none;
  start_time_local = undefined;
  end_time_local = undefined;
  conversation_id = none;
  initiator_id = none;
  is_deleted_local = none;
  created_at_local = undefined;
  updated_at_local = undefined;
}

unfoldable pub call_participant_columns : CallParticipant → CallParticipant
call_participant_columns r = record r {
  call_id = none;
  user_id = none;
  joined_at_local = undefined;
  left_at_local = undefined;
  is_deleted_local = none;
  created_at_local = undefined;
  updated_at_local = undefined;
}

unfoldable pub receipt_columns : Receipt → Receipt
receipt_columns r = record r {
  message_id = none;
  user_id = none;
  is_deleted_local = none;
  created_at_local = undefined;
  updated_at_local = undefined;
}

module _ (rt : Runtime) where
  -- The server's timestamp as a number of milliseconds, 0 where it has none.
  abbrev pub millis : Stamp → ℕ
  millis t = trunc_or_zero (to_timestamp rt t)

  -- The round trip keeps the server's row, in every table: ids, foreign keys, types and states as
  -- they were, deletion as false where the server left it out, timestamps in milliseconds.
  pub record KeepsServerRows (keys : MigrationKeys) (c : Conversation) (p : ConversationParticipant)
      (m : Message) (l : Call) (q : CallParticipant) (r : Receipt) : Type 0 where
    pub conversation :
        conversation_payload rt (conversation_columns (normalize_conversation rt c)) ≡ record {
          id = c.id;
          title = get_or_else c.title "";
          conversation_type = c.conversation_type;
          is_deleted = get_or_else c.is_deleted false;
          created_at = millis c.created_at;
          updated_at = millis c.updated_at;
        }
    pub participant :
        participant_payload rt (participant_columns (normalize_participant rt p)) ≡ record {
          id = p.id;
          conversation_id = p.conversation_id;
          user_id = p.user_id;
          joined_at = millis p.joined_at;
          is_deleted = get_or_else p.is_deleted false;
          created_at = millis p.created_at;
          updated_at = millis p.updated_at;
        }
    pub message :
        message_payload rt (message_columns (normalize_created_message rt keys m)) ≡ record {
          id = m.id;
          conversation_id = m.conversation_id;
          sender_id = m.sender_id;
          message_type = m.message_type;
          content = some (created_content keys m);
          is_deleted = get_or_else m.is_deleted false;
          created_at = millis m.created_at;
          updated_at = millis m.updated_at;
        }
    pub call : call_payload rt (call_columns (normalize_call rt l)) ≡ record {
      id = l.id;
      call_type = l.call_type;
      status = l.status;
      start_time = millis l.start_time;
      end_time = millis l.end_time;
      conversation_id = l.conversation_id;
      initiator_id = l.initiator_id;
      is_deleted = get_or_else l.is_deleted false;
      created_at = millis l.created_at;
      updated_at = millis l.updated_at;
    }
    pub call_participant :
        call_participant_payload rt (call_participant_columns (normalize_call_participant rt q))
        ≡ record {
          id = q.id;
          call_id = q.call_id;
          user_id = q.user_id;
          joined_at = millis q.joined_at;
          left_at = millis q.left_at;
          is_deleted = get_or_else q.is_deleted false;
          created_at = millis q.created_at;
          updated_at = millis q.updated_at;
        }
    pub receipt : receipt_payload rt (receipt_columns (normalize_receipt rt r)) ≡ record {
      id = r.id;
      status = r.status;
      message_id = r.message_id;
      user_id = r.user_id;
      is_deleted = get_or_else r.is_deleted false;
      created_at = millis r.created_at;
      updated_at = millis r.updated_at;
    }

  -- Pulling a row, storing it in the columns of the schema and pushing it keeps the server's row,
  -- in each of the six tables: ids, foreign keys, types and states as they were, an absent title as
  -- the empty text, an absent mark of deletion as false, times in milliseconds and 0 where they are
  -- absent or no number, and the content of a message as the normaliser decrypts it.
  pub payload-normalize :
      (keys : MigrationKeys) (c : Conversation) (p : ConversationParticipant) (m : Message)
      (l : Call) (q : CallParticipant) (r : Receipt)
      → KeepsServerRows keys c p m l q r
  unfolding conversation_payload participant_payload message_payload call_payload
      call_participant_payload receipt_payload conversation_columns participant_columns
      message_columns call_columns call_participant_columns receipt_columns normalize_conversation
      normalize_participant normalize_message normalize_created_message normalize_call
      normalize_call_participant normalize_receipt
  payload-normalize keys c p m l q r = record {
    conversation = ground arith;
    participant = ground arith;
    message = ground arith;
    call = ground arith;
    call_participant = ground arith;
    receipt = ground arith;
  }
