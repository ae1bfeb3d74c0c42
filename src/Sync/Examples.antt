-- ===== src/Sync/Examples.antt =====
-- The rows, pages, databases and events that the tests of the synchronisation are run on.
use ylp_software.Base.{
  ℕ, zero, suc, Bool, true, false, String, Option, none, some, List, [], ◌∷◌, filter, contains,
  string_same,
}
use ylp_software.Model.{MessageStatusType, CallStatus}
use ylp_software.Sync.Timestamp.{num, int, nan, undefined, Runtime}
use ylp_software.Sync.Records.{
  Conversation, ConversationParticipant, Message, Call, CallParticipant, Receipt, EntityPage,
  Changes, no_changes, Page,
}
use ylp_software.Sync.Pull.{Server}
use ylp_software.Sync.Normalize.{Query, LocalDb, MessageRow}
use ylp_software.Sync.Normalize.Existing.{Tables}

abbrev pub runtime : Runtime
runtime = record { parse_date = λ s. nan; parse_number = λ s. nan }

abbrev pub conversation : String → String → Conversation
conversation k title = record {
  id = some k;
  title = some title;
  conversation_type = none;
  type = none;
  is_deleted = none;
  is_deleted_local = none;
  created_at = num (int 1);
  created_at_local = undefined;
  updated_at = num (int 2);
  updated_at_local = undefined;
}

abbrev pub participant : String → String → ConversationParticipant
participant k user = record {
  id = some k;
  conversation_id = some "c1";
  conversation = none;
  user_id = some user;
  user = none;
  joined_at = num (int 1);
  joined_at_local = undefined;
  is_deleted = none;
  is_deleted_local = none;
  created_at = num (int 1);
  created_at_local = undefined;
  updated_at = num (int 2);
  updated_at_local = undefined;
}

abbrev pub message : String → String → Message
message k content = record {
  id = some k;
  conversation_id = some "c1";
  conversation = none;
  sender_id = some "u1";
  sender = none;
  content = some content;
  message_type = none;
  message_type_local = none;
  is_deleted = none;
  is_deleted_local = none;
  created_at = num (int 1);
  created_at_local = undefined;
  updated_at = num (int 2);
  updated_at_local = undefined;
}

abbrev pub call : String → CallStatus → Call
call k status = record {
  id = some k;
  call_type = none;
  call_type_local = none;
  status = some status;
  start_time = num (int 1);
  start_time_local = undefined;
  end_time = undefined;
  end_time_local = undefined;
  conversation_id = some "c1";
  conversation = none;
  initiator_id = some "u1";
  initiator = none;
  is_deleted = none;
  is_deleted_local = none;
  created_at = num (int 1);
  created_at_local = undefined;
  updated_at = num (int 2);
  updated_at_local = undefined;
}

abbrev pub call_participant : String → String → CallParticipant
call_participant k call_id = record {
  id = some k;
  call_id = some call_id;
  call = none;
  user_id = some "u1";
  user = none;
  joined_at = num (int 1);
  joined_at_local = undefined;
  left_at = undefined;
  left_at_local = undefined;
  is_deleted = none;
  is_deleted_local = none;
  created_at = num (int 1);
  created_at_local = undefined;
  updated_at = num (int 2);
  updated_at_local = undefined;
}

abbrev pub receipt : String → String → MessageStatusType → Receipt
receipt k message_id status = record {
  id = some k;
  status = some status;
  message_id = some message_id;
  message = none;
  user_id = some "u1";
  user = none;
  is_deleted = none;
  is_deleted_local = none;
  created_at = num (int 1);
  created_at_local = undefined;
  updated_at = num (int 2);
  updated_at_local = undefined;
}

abbrev pub no_page : {A : Type 0} → EntityPage A
no_page = record { created = []; updated = []; deleted = []; has_more = false; next_cursor = none }

-- A page with one conversation.
abbrev pub page : String → Bool → Option ℕ → ℕ → Page
page title has_more cursor timestamp = record {
  conversations = record {
    created = conversation "c1" title ∷ [];
    updated = [];
    deleted = [];
    has_more = has_more;
    next_cursor = cursor;
  };
  conversation_participants = no_page;
  messages = no_page;
  calls = no_page;
  call_participants = no_page;
  message_receipts = no_page;
  timestamp = timestamp;
}

-- Two pages with two versions of a conversation, and one page that is followed by itself.
abbrev pub two_pages : Server
two_pages zero cursor ver = some (page "old" true (some 5) 100)
two_pages (suc _) cursor ver = some (page "new" false none 200)

abbrev pub endless_pages : Server
endless_pages i cursor ver = some (page "same" true (some 5) 100)

abbrev pub pulled : Changes
pulled = record no_changes {
  conversations = record { created = conversation "c1" "new" ∷ []; updated = []; deleted = [] };
}

-- A device with one conversation and one encrypted message.
abbrev pub tables : Tables
tables = record {
  conversations = "c1" ∷ [];
  conversation_participants = [];
  messages = "m1" ∷ [];
  calls = [];
  call_participants = [];
  message_receipts = [];
}

abbrev pub message_rows : List MessageRow
message_rows = record { id = "m1"; content = "ecdh:x" } ∷ []

abbrev pub rows_among : List String → Query String
rows_among rows ids = some (filter (λ r. contains r ids) rows)

abbrev pub device : LocalDb
device = record {
  conversations = rows_among ("c1" ∷ []);
  conversation_participants = rows_among [];
  messages = rows_among ("m1" ∷ []);
  calls = rows_among [];
  call_participants = rows_among [];
  message_receipts = rows_among [];
  message_rows = λ ids. some (filter (λ (r : MessageRow). contains r.id ids) message_rows);
}
