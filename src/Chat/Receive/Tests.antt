-- ===== src/Chat/Receive/Tests.antt =====
-- The theorems on received messages, applied to concrete ones.
use ylp_software.Base.{
  ◌≡◌, refl, ◌&&◌, if◌then◌else◌, true, false, none, some, List, [], ◌∷◌, lookup, get_or_else,
  string_same,
}
use ylp_software.Model.{sending, delivered, text, ConversationType}
use ylp_software.Chat.Statuses.{StatusRow, query_message_status}
use ylp_software.Chat.Statuses.Settled.{
  Event, acked, server_acked, seen, timed_out, row_timed_out, settled, run, run-settled,
}
use ylp_software.Chat.Receive.{
  Chat, ack_message, Incoming, Answers, returned, threw, has_message, acknowledge_incoming_message,
  handle_incoming_chat_message, is_direct_conversation_exists,
}
use ylp_software.Chat.Receive.Again.{handle_incoming_chat_message_again}

abbrev rows : List StatusRow
rows =
    record { id = "s1"; message = "m1"; status = delivered }
    ∷ record { id = "s2"; message = "m2"; status = sending }
    ∷ []

abbrev history : List Event
history =
    timed_out "m1" ∷ server_acked "m2" ∷ row_timed_out "s1" ∷ seen ("m1" ∷ []) ∷ acked "m1" ∷ []

run-settled_example : settled "m1" (run rows history) ≡ true
unfolding query_message_status
run-settled_example = run-settled "m1" rows history refl refl

abbrev fresh : Chat
fresh = record {
  user_id = "ann";
  peers = [];
  conversations = [];
  participants = [];
  messages = [];
  statuses = [];
  sent_messages = [];
}

abbrev hello : Incoming
hello = record {
  from = "bea";
  message_id = "m1";
  conversation_id = "talk";
  message = "hello";
  message_type = none;
}

abbrev good : Answers
good = record {
  finds_peer = true;
  reads_message = true;
  reads_conversation = true;
  sends_ack = true;
  create_user = some true;
  derives_key = true;
  writes_room = true;
  writes_message = true;
  message_status_id = λ m u. m;
}

abbrev bad : Answers
bad = record good { create_user = none; writes_message = false }

abbrev after_first : Chat
after_first = record {
  user_id = "ann";
  peers = ("bea", true) ∷ [];
  conversations = record { id = "talk"; type = ConversationType.direct; is_deleted = false } ∷ [];
  participants =
      record { conversation = "talk"; user = "bea"; is_deleted = false }
      ∷ record { conversation = "talk"; user = "ann"; is_deleted = false }
      ∷ [];
  messages =
      record {
        id = "m1";
        sender = "bea";
        conversation = "talk";
        content = "hello";
        message_type = text;
      }
      ∷ [];
  statuses = record { id = "m1"; message = "m1"; status = delivered } ∷ [];
  sent_messages = ack_message "bea" "m1" true ∷ [];
}

handle_incoming_chat_message_again_example :
    (has_message "m1" after_first ≡ true)
    × (handle_incoming_chat_message bad hello after_first ≡ (
        if bad.finds_peer && bad.reads_message && bad.sends_ack
        then returned (
            acknowledge_incoming_message "bea"
              (get_or_else (lookup "bea" after_first.peers) false)
              "m1"
              after_first)
        else threw after_first))
unfolding handle_incoming_chat_message is_direct_conversation_exists
handle_incoming_chat_message_again_example =
    handle_incoming_chat_message_again good bad hello fresh after_first refl
