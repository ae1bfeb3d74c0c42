-- ===== src/Chat/Statuses/Settled.antt =====
-- A message that has arrived is not taken back by timers.
use ylp_software.Base.{
  ◌≡◌, refl, Bool, true, false, not, ◌&&◌, String, Option, none, some, List, [], ◌∷◌, map, all,
  contains, string_same, ◌==◌, if◌then◌else◌, arith,
}
use ylp_software.Model.{MessageStatusType, sent, delivered, read}
use ylp_software.Chat.Statuses.{
  StatusRow, set_status, update_first, is_of_message, has_id, query_message_status,
  update_message_status_by_message, is_on_its_way, is_read, update_delivered_messages_to_read,
  mark_messages_read, give_up, update_to_not_sent_by_id, update_to_not_sent_by_message,
}

-- What the acknowledgements, the peer's reading and the timers of the messages do to the table.
pub data Event : Type 0 where
  server_acked acked : String → Event
  seen marked : List String → Event
  timed_out row_timed_out : String → Event

unfoldable pub step : Event → List StatusRow → List StatusRow
step (server_acked message) rows = update_message_status_by_message message sent rows
step (acked message) rows = update_message_status_by_message message delivered rows
step (seen ids) rows = update_delivered_messages_to_read ids rows
step (marked ids) rows = mark_messages_read ids rows
step (timed_out message) rows = update_to_not_sent_by_message message rows
step (row_timed_out id) rows = update_to_not_sent_by_id id rows

unfoldable pub run : List StatusRow → List Event → List StatusRow
run rows [] = rows
run rows (e ∷ es) = run (step e rows) es

abbrev pub has_arrived : MessageStatusType → Bool
has_arrived delivered = true
has_arrived read = true
has_arrived status = false

-- The message has a row, and the one that is queried says `delivered` or `read`.
abbrev pub is_settled : Option StatusRow → Bool
is_settled none = false
is_settled (some row) = has_arrived row.status

abbrev pub settled : String → List StatusRow → Bool
settled message rows = is_settled (query_message_status message rows)

-- A change of a row that keeps its message, and that keeps it settled if it is the row of `message`.
record IsHarmless (message : String) (found : StatusRow → Bool) (f : StatusRow → StatusRow)
    : Type 0 where
  same : (row : StatusRow) → (f row).message ≡ row.message
  keeps :
      (row : StatusRow)
      → found row ≡ true
      → (row.message == message) ≡ true
      → has_arrived row.status ≡ true
      → has_arrived (f row).status ≡ true

settled-update_first :
    (message : String) (found : StatusRow → Bool) (f : StatusRow → StatusRow)
    (rows : List StatusRow)
    → IsHarmless message found f
    → settled message rows ≡ true
    → settled message (update_first found f rows) ≡ true
unfolding query_message_status
settled-update_first message found f [] h s = s
settled-update_first message found f (row ∷ rows) h s =
    ground (arith, h.same row, h.keeps row, settled-update_first message found f rows h)

settled-map :
    (message : String) (f : StatusRow → StatusRow) (rows : List StatusRow)
    → IsHarmless message (λ row. true) f
    → settled message rows ≡ true
    → settled message (map f rows) ≡ true
unfolding query_message_status
settled-map message f [] h s = s
settled-map message f (row ∷ rows) h s =
    ground (arith, h.same row, h.keeps row refl, settled-map message f rows h)

give_up-IsHarmless :
    (message : String) (found : StatusRow → Bool) → IsHarmless message found give_up
give_up-IsHarmless message found = record {
  same = λ row. ground arith;
  keeps = λ row p q a. ground arith;
}

-- An acknowledgement of the server is of another message.
abbrev pub is_of_another : String → Event → Bool
is_of_another message (server_acked other) = not (other == message)
is_of_another message e = true

step-settled :
    (message : String) (e : Event) (rows : List StatusRow)
    → is_of_another message e ≡ true
    → settled message rows ≡ true
    → settled message (step e rows) ≡ true
unfolding step update_message_status_by_message update_delivered_messages_to_read mark_messages_read
    update_to_not_sent_by_id update_to_not_sent_by_message
step-settled message (server_acked other) rows o s =
    settled-update_first message (is_of_message other) (set_status sent) rows
      (record {
        same = λ row. refl;
        keeps = λ row p q a. ground (
          arith,
          string_same.same_iff row.message message,
          string_same.same_iff row.message other,
          string_same.same_iff other message,
        );
      })
      s
step-settled message (acked other) rows o s =
    settled-update_first message (is_of_message other) (set_status delivered) rows
      (record { same = λ row. refl; keeps = λ row p q a. refl }) s
step-settled message (seen ids) rows o s =
    settled-map message
      (λ row.
        if contains row.message ids && is_on_its_way row.status then set_status read row else row)
      rows (record { same = λ row. ground arith; keeps = λ row p q a. ground arith }) s
step-settled message (marked ids) rows o s =
    settled-map message
      (λ row.
        if contains row.message ids && not (is_read row.status) then set_status read row else row)
      rows (record { same = λ row. ground arith; keeps = λ row p q a. ground arith }) s
step-settled message (timed_out other) rows o s =
    settled-update_first message (is_of_message other) give_up rows
      (give_up-IsHarmless message (is_of_message other)) s
step-settled message (row_timed_out id) rows o s =
    settled-update_first message (has_id id) give_up rows (give_up-IsHarmless message (has_id id)) s

-- Once a message is `delivered` or `read`, no sequence of acknowledgements of the peer, of messages
-- that the peer has seen or this device has read, and of timers that run out, whichever message or row
-- they are of, takes it back to `sending`, `sent` or `not_sent`, nor do acknowledgements of the server
-- of other messages.
pub run-settled :
    (message : String) (rows : List StatusRow) (es : List Event)
    → settled message rows ≡ true
    → all (is_of_another message) es ≡ true
    → settled message (run rows es) ≡ true
unfolding run
run-settled message rows [] s o = s
run-settled message rows (e ∷ es) s o =
    run-settled message (step e rows) es (step-settled message e rows (ground (arith, o)) s)
      (ground (arith, o))
