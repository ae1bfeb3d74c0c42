-- ===== src/Chat/Receive.antt =====
-- `ChatReceiveService` (chat/services/chat-receive-service.ts), on the tables that it reads and writes.
-- A handler is one step: its awaits are not interleaved with another one's.
pub mod Again
mod Tests
use ylp_software.Base.{
  ℕ, suc, ◌+◌, Bool, true, false, not, ◌&&◌, ◌||◌, String, Option, none, some, List, [], ◌∷◌, ◌++◌,
  map, any, filter, length, contains, lookup, insert, get_or_else, nat_same, string_same, ◌==◌,
  if◌then◌else◌,
}
use ylp_software.Model.{MessageStatusType, sent, delivered, MessageType, text, ConversationType}
use ylp_software.Chat.Statuses.{
  StatusRow, update_message_status_by_message, update_delivered_messages_to_read,
  mark_messages_read,
}

pub record Conversation : Type 0 where
  pub id : String
  pub type : ConversationType
  pub is_deleted : Bool

pub record Participant : Type 0 where
  pub conversation : String
  pub user : String
  pub is_deleted : Bool

pub record StoredMessage : Type 0 where
  pub id : String
  pub sender : String
  pub conversation : String
  pub content : String
  pub message_type : MessageType

-- `sendAckMessage` and `sendSeenMessage` of the connection, and whether they force the socket.
pub data Sent : Type 0 where
  ack_message seen_message : String → String → Bool → Sent

-- The peers are known by their ids, with whether they are admins.
pub record Chat : Type 0 where
  pub user_id : String
  pub peers : List (String × Bool)
  pub conversations : List Conversation
  pub participants : List Participant
  pub messages : List StoredMessage
  pub statuses : List StatusRow
  pub sent_messages : List Sent

-- `DataChatMessageI`
pub record Incoming : Type 0 where
  pub from : String
  pub message_id : String
  pub conversation_id : String
  pub message : String
  pub message_type : Option MessageType

-- What the collaborators answer: whether the queries for the peer, the message and the conversation
-- are answered or throw; `createUser` (`none` where it throws); whether the conversation key, the two
-- writes of the database and `sendAckMessage` succeed; and the id of a row of `MessageStatus`.
pub record Answers : Type 0 where
  pub finds_peer : Bool
  pub reads_message : Bool
  pub reads_conversation : Bool
  pub sends_ack : Bool
  pub create_user : Option Bool
  pub derives_key : Bool
  pub writes_room : Bool
  pub writes_message : Bool
  pub message_status_id : String → String → String

pub data Received : Type 0 where
  returned threw : Chat → Received

abbrev pub is_sms : Option MessageType → Bool
is_sms (some MessageType.sms) = true
is_sms type = false

abbrev pub room_type : Option MessageType → ConversationType
room_type type = if is_sms type then ConversationType.sms else ConversationType.direct

-- `createChatRoom`
unfoldable pub create_chat_room : Incoming → Chat → Chat
create_chat_room d c =
    let users = if d.from == c.user_id then d.from ∷ [] else d.from ∷ c.user_id ∷ [] in
    record c {
      conversations =
          c.conversations
          ++ record { id = d.conversation_id; type = room_type d.message_type; is_deleted = false }
            ∷ [];
      participants =
          c.participants
          ++ map
              (λ user. record { conversation = d.conversation_id; user = user; is_deleted = false })
              users;
    }

abbrev pub counts : String → List String → Participant → Bool
counts conversation users p =
    p.conversation == conversation && contains p.user users && not p.is_deleted

abbrev pub has_type : Bool → ConversationType → Bool
has_type true ConversationType.sms = true
has_type true type = false
has_type false ConversationType.direct = true
has_type false ConversationType.solo = true
has_type false type = false

abbrev pub is_direct_of : Bool → List String → List Participant → Conversation → Bool
is_direct_of sms users participants conversation =
    length (filter (counts conversation.id users) participants) == length users
    && has_type sms conversation.type
    && not conversation.is_deleted

abbrev pub first_id : List Conversation → Option String
first_id [] = none
first_id (conversation ∷ _) = some conversation.id

-- `isDirectConversationExists`
unfoldable pub is_direct_conversation_exists : Bool → List String → Chat → Option String
is_direct_conversation_exists sms users c =
    first_id (filter (is_direct_of sms users c.participants) c.conversations)

abbrev pub reuse_or_create : Answers → Incoming → Chat → Option String → Chat × Option String
reuse_or_create env d c (some id) = (c, some id)
reuse_or_create env d c none =
    if env.writes_room then (create_chat_room d c, some d.conversation_id) else (c, none)

-- `getOrCreateConversationForIncoming`; no id where it throws.
unfoldable pub get_or_create_conversation : Answers → Incoming → Chat → Chat × Option String
unfolding create_chat_room
get_or_create_conversation env d c =
    if not env.reads_conversation
    then (c, none)
    else if any (λ conversation. conversation.id == d.conversation_id) c.conversations
    then (c, some d.conversation_id)
    else reuse_or_create env d c
        (is_direct_conversation_exists (is_sms d.message_type) (d.from ∷ c.user_id ∷ []) c)

-- `saveIncomingMessage`
unfoldable pub save_incoming_message : Answers → Incoming → String → Chat → Chat
save_incoming_message env d conversation c = record c {
  messages =
      c.messages
      ++ record {
        id = d.message_id;
        sender = d.from;
        conversation = conversation;
        content = d.message;
        message_type = get_or_else d.message_type text;
      }
        ∷ [];
  statuses =
      c.statuses
      ++ record {
        id = env.message_status_id d.message_id c.user_id;
        message = d.message_id;
        status = delivered;
      }
        ∷ [];
}

-- `acknowledgeIncomingMessage`
unfoldable pub acknowledge_incoming_message : String → Bool → String → Chat → Chat
acknowledge_incoming_message peer is_admin message c = record c {
  sent_messages = c.sent_messages ++ ack_message peer message is_admin ∷ [];
}

abbrev pub acknowledged : Answers → Incoming → Bool → Chat → Received
acknowledged env d is_admin c =
    if env.sends_ack
    then returned (acknowledge_incoming_message d.from is_admin d.message_id c)
    else threw c

abbrev pub add_sender : Incoming → Chat → Option Bool → Chat × Option Bool
add_sender d c none = (c, none)
add_sender d c (some is_admin) =
    (record c { peers = insert d.from is_admin c.peers }, some is_admin)

abbrev pub find_sender : Answers → Incoming → Chat → Option Bool → Chat × Option Bool
find_sender env d c (some is_admin) = (c, some is_admin)
find_sender env d c none = add_sender d c env.create_user

-- `queryMessageById(messageId)` finds a message.
abbrev pub has_message : String → Chat → Bool
has_message id c = any (λ m. m.id == id) c.messages

abbrev pub save_in : Answers → Incoming → Bool → Chat × Option String → Received
save_in env d is_admin (c, none) = threw c
save_in env d is_admin (c, some conversation) =
    if env.derives_key && env.writes_message
    then acknowledged env d is_admin (save_incoming_message env d conversation c)
    else threw c

abbrev pub receive_from : Answers → Incoming → Chat × Option Bool → Received
receive_from env d (c, none) = threw c
receive_from env d (c, some is_admin) =
    if not env.reads_message
    then threw c
    else if has_message d.message_id c
    then acknowledged env d is_admin c
    else save_in env d is_admin (get_or_create_conversation env d c)

-- `handleIncomingChatMessage`
unfoldable pub handle_incoming_chat_message : Answers → Incoming → Chat → Received
unfolding acknowledge_incoming_message save_incoming_message get_or_create_conversation
handle_incoming_chat_message env d c =
    if env.finds_peer
    then receive_from env d (find_sender env d c (lookup d.from c.peers))
    else threw c

-- `queryMessagesByConversationAndSender`, by the ids.
abbrev pub messages_of : String → String → Chat → List String
messages_of conversation sender c =
    map (λ m. m.id) (filter (λ m. m.conversation == conversation && m.sender == sender) c.messages)

-- `handleSeenMessage`
unfoldable pub handle_seen_message : String → Chat → Chat
unfolding update_delivered_messages_to_read
handle_seen_message conversation c = record c {
  statuses = update_delivered_messages_to_read (messages_of conversation c.user_id c) c.statuses;
}

-- `handleServerAck`
unfoldable pub handle_server_ack : String → Chat → Chat
unfolding update_message_status_by_message
handle_server_ack message c = record c {
  statuses = update_message_status_by_message message sent c.statuses;
}

-- `handleAckMessage`
unfoldable pub handle_ack_message : String → Chat → Chat
unfolding update_message_status_by_message
handle_ack_message message c = record c {
  statuses = update_message_status_by_message message delivered c.statuses;
}

abbrev pub is_sms_room : String → List Conversation → Bool
is_sms_room id [] = false
is_sms_room id (conversation ∷ conversations) =
    let rest = is_sms_room id conversations in
    if conversation.id == id then has_type true conversation.type else rest

abbrev pub send_seen : String → String → Bool → Chat → Chat
send_seen peer conversation is_admin c =
    if is_sms_room conversation c.conversations then c else record c {
      sent_messages = c.sent_messages ++ seen_message peer conversation is_admin ∷ [];
    }

-- `markConversationAsRead`, of the current peer and whether it is an admin.
unfoldable pub mark_conversation_as_read : String → Option (String × Bool) → Chat → Chat
unfolding mark_messages_read
mark_conversation_as_read conversation none c = c
mark_conversation_as_read conversation (some (peer, is_admin)) c =
    let s = send_seen peer conversation is_admin c in
    record s { statuses = mark_messages_read (messages_of conversation peer c) s.statuses }
