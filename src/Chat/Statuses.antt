-- ===== src/Chat/Statuses.antt =====
-- The states of messages (chat/repositories/message-status-repository.ts). A query gives the rows in
-- the order of the table.
pub mod Settled
use ylp_software.Base.{
  Bool, true, false, not, ◌&&◌, String, Option, none, some, List, [], ◌∷◌, map, contains,
  string_same, ◌==◌, if◌then◌else◌,
}
use ylp_software.Model.{MessageStatusType, sending, sent, not_sent, delivered, read}

-- `MessageStatus`
pub record StatusRow : Type 0 where
  pub id : String
  pub message : String
  pub status : MessageStatusType

abbrev pub set_status : MessageStatusType → StatusRow → StatusRow
set_status status row = record row { status = status }

-- An update of the first row that a query finds.
abbrev pub update_first :
    (StatusRow → Bool) → (StatusRow → StatusRow) → List StatusRow → List StatusRow
update_first found f [] = []
update_first found f (row ∷ rows) =
    let rest = update_first found f rows in if found row then f row ∷ rows else row ∷ rest

abbrev pub is_of_message : String → StatusRow → Bool
is_of_message message row = row.message == message

abbrev pub has_id : String → StatusRow → Bool
has_id id row = row.id == id

-- `queryMessageStatusByMessage`
unfoldable pub query_message_status : String → List StatusRow → Option StatusRow
query_message_status message [] = none
query_message_status message (row ∷ rows) =
    let rest = query_message_status message rows in
    if is_of_message message row then some row else rest

-- `updateMessageStatusByMessage`
unfoldable pub update_message_status_by_message :
    String → MessageStatusType → List StatusRow → List StatusRow
update_message_status_by_message message status rows =
    update_first (is_of_message message) (set_status status) rows

abbrev pub is_on_its_way : MessageStatusType → Bool
is_on_its_way delivered = true
is_on_its_way sent = true
is_on_its_way status = false

abbrev pub is_read : MessageStatusType → Bool
is_read read = true
is_read status = false

-- `updateDeliveredMessagesToRead`
unfoldable pub update_delivered_messages_to_read : List String → List StatusRow → List StatusRow
update_delivered_messages_to_read ids rows =
    map
      (λ row.
        if contains row.message ids && is_on_its_way row.status then set_status read row else row)
      rows

-- `markMessagesRead`
unfoldable pub mark_messages_read : List String → List StatusRow → List StatusRow
mark_messages_read ids rows =
    map
      (λ row.
        if contains row.message ids && not (is_read row.status) then set_status read row else row)
      rows

abbrev pub is_pending : MessageStatusType → Bool
is_pending sending = true
is_pending sent = true
is_pending status = false

abbrev pub give_up : StatusRow → StatusRow
give_up row = if is_pending row.status then set_status not_sent row else row

-- `updateToNotSentIfStillPendingById`
unfoldable pub update_to_not_sent_by_id : String → List StatusRow → List StatusRow
update_to_not_sent_by_id id rows = update_first (has_id id) give_up rows

-- `updateToNotSentIfStillPendingByMessage`
unfoldable pub update_to_not_sent_by_message : String → List StatusRow → List StatusRow
update_to_not_sent_by_message message rows = update_first (is_of_message message) give_up rows
