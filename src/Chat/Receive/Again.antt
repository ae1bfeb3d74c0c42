-- ===== src/Chat/Receive/Again.antt =====
-- A chat message that arrives again.
use ylp_software.Base.{
  ◌≡◌, refl, ap, ◌∙◌, Bool, true, false, not, ◌&&◌, String, Option, none, some, [], ◌∷◌, any-append,
  lookup, insert, lookup-insert, get_or_else, is_some, string_same, ◌==◌, if◌then◌else◌, arith,
}
use mathlib.Core.Path.{subst}
use ylp_software.Model.{text}
use ylp_software.Chat.Receive.{
  Chat, Incoming, Answers, Received, returned, threw, create_chat_room, reuse_or_create,
  acknowledged, get_or_create_conversation, save_incoming_message, acknowledge_incoming_message,
  find_sender, has_message, save_in, add_sender, receive_from, handle_incoming_chat_message,
  is_direct_conversation_exists, is_sms,
}

-- What holds of a device that has the message and its sender.
abbrev Knows : Incoming → Received → Type 0
Knows d (threw c) = Unit
Knows d (returned c) =
    (has_message d.message_id c ≡ true) × (is_some (lookup d.from c.peers) ≡ true)

Knows-if :
    (d : Incoming) (b : Bool) (p q : Received)
    → Knows d p
    → Knows d q
    → Knows d (if b then p else q)
Knows-if d true p q h k = h
Knows-if d false p q h k = k

acknowledged-Knows :
    (env : Answers) (d : Incoming) (is_admin : Bool) (c : Chat)
    → has_message d.message_id c ≡ true
    → is_some (lookup d.from c.peers) ≡ true
    → Knows d (acknowledged env d is_admin c)
unfolding acknowledge_incoming_message
acknowledged-Knows env d is_admin c h k =
    Knows-if d env.sends_ack
      (returned (acknowledge_incoming_message d.from is_admin d.message_id c)) (threw c) (h, k) tt

has_message-save :
    (env : Answers) (d : Incoming) (conversation : String) (c : Chat)
    → has_message d.message_id (save_incoming_message env d conversation c) ≡ true
unfolding save_incoming_message
has_message-save env d conversation c = ground (
  arith,
  string_same.same_iff d.message_id d.message_id,
  any-append (λ m. m.id == d.message_id) c.messages
      (record {
        id = d.message_id;
        sender = d.from;
        conversation = conversation;
        content = d.message;
        message_type = get_or_else d.message_type text;
      }
        ∷ []),
)

save_in-Knows :
    (env : Answers) (d : Incoming) (is_admin : Bool) (c : Chat) (o : Option String)
    → is_some (lookup d.from c.peers) ≡ true
    → Knows d (save_in env d is_admin (c, o))
unfolding acknowledge_incoming_message save_incoming_message
save_in-Knows env d is_admin c none h = tt
save_in-Knows env d is_admin c (some conversation) h =
    Knows-if d (env.derives_key && env.writes_message)
      (acknowledged env d is_admin (save_incoming_message env d conversation c)) (threw c)
      (acknowledged-Knows env d is_admin (save_incoming_message env d conversation c)
        (has_message-save env d conversation c) h)
      tt

-- A conversation is found or created without a change of the peers.
reuse_or_create-peers :
    (env : Answers) (d : Incoming) (c : Chat) (o : Option String)
    → (reuse_or_create env d c o).0.peers ≡ c.peers
unfolding create_chat_room
reuse_or_create-peers env d c (some id) = refl
reuse_or_create-peers env d c none = ground arith

conversation-peers :
    (env : Answers) (d : Incoming) (c : Chat)
    → (get_or_create_conversation env d c).0.peers ≡ c.peers
unfolding get_or_create_conversation
conversation-peers env d c = ground (
  arith,
  reuse_or_create-peers env d c
      (is_direct_conversation_exists (is_sms d.message_type) (d.from ∷ c.user_id ∷ []) c),
)

save_in_room-Knows :
    (env : Answers) (d : Incoming) (is_admin : Bool) (r : Chat × Option String)
    → is_some (lookup d.from r.0.peers) ≡ true
    → Knows d (save_in env d is_admin r)
save_in_room-Knows env d is_admin (c, o) h = save_in-Knows env d is_admin c o h

receive_new-Knows :
    (env : Answers) (d : Incoming) (is_admin : Bool) (c : Chat) (b : Bool)
    → has_message d.message_id c ≡ b
    → is_some (lookup d.from c.peers) ≡ true
    → Knows d (
        if b
        then acknowledged env d is_admin c
        else save_in env d is_admin (get_or_create_conversation env d c))
unfolding acknowledge_incoming_message
receive_new-Knows env d is_admin c true e h = acknowledged-Knows env d is_admin c e h
receive_new-Knows env d is_admin c false e h =
    save_in_room-Knows env d is_admin (get_or_create_conversation env d c)
      (ap (λ peers. is_some (lookup d.from peers)) (conversation-peers env d c) ∙ h)

receive_from-Knows :
    (env : Answers) (d : Incoming) (is_admin : Bool) (c : Chat)
    → is_some (lookup d.from c.peers) ≡ true
    → Knows d (receive_from env d (c, some is_admin))
receive_from-Knows env d is_admin c h =
    Knows-if d (not env.reads_message) (threw c)
      (if has_message d.message_id c
        then acknowledged env d is_admin c
        else save_in env d is_admin (get_or_create_conversation env d c))
      tt (receive_new-Knows env d is_admin c (has_message d.message_id c) refl h)

add_sender-Knows :
    (env : Answers) (d : Incoming) (c : Chat) (o : Option Bool)
    → Knows d (receive_from env d (add_sender d c o))
add_sender-Knows env d c none = tt
add_sender-Knows env d c (some is_admin) =
    let known = record c { peers = insert d.from is_admin c.peers } in
    receive_from-Knows env d is_admin known (
      ground
        (arith, string_same.same_iff d.from d.from, lookup-insert d.from d.from is_admin c.peers))

find_sender-Knows :
    (env : Answers) (d : Incoming) (c : Chat) (o : Option Bool)
    → lookup d.from c.peers ≡ o
    → Knows d (receive_from env d (find_sender env d c o))
find_sender-Knows env d c none e = add_sender-Knows env d c env.create_user
find_sender-Knows env d c (some is_admin) e = receive_from-Knows env d is_admin c (ap is_some e)

handle-Knows :
    (env : Answers) (d : Incoming) (c : Chat) → Knows d (handle_incoming_chat_message env d c)
unfolding handle_incoming_chat_message
handle-Knows env d c =
    Knows-if d env.finds_peer (receive_from env d (find_sender env d c (lookup d.from c.peers)))
      (threw c) (find_sender-Knows env d c (lookup d.from c.peers) refl) tt

again :
    (env : Answers) (d : Incoming) (c : Chat) (o : Option Bool)
    → has_message d.message_id c ≡ true
    → is_some o ≡ true
    → receive_from env d (find_sender env d c o)
      ≡ (if env.reads_message then acknowledged env d (get_or_else o false) c else threw c)
again env d c none h k = absurd (ground (arith, k))
again env d c (some is_admin) h k =
    ap
      (λ b.
        if not env.reads_message
        then threw c
        else if b
        then acknowledged env d is_admin c
        else save_in env d is_admin (get_or_create_conversation env d c))
      h
    ∙ flipped env.reads_message (acknowledged env d is_admin c)
  where
    flipped :
        (b : Bool) (r : Received) → (if not b then threw c else r) ≡ (if b then r else threw c)
    flipped true r = refl
    flipped false r = refl

needs_all :
    (a b e : Bool) (p q : Received)
    → (if a then if b then if e then p else q else q else q) ≡ (if a && b && e then p else q)
needs_all true true true p q = refl
needs_all true true false p q = refl
needs_all true false e p q = refl
needs_all false b e p q = refl

-- When a chat message has been received without an error, the device has it. If it arrives again,
-- nothing is stored or created, whatever the collaborators then answer: where the queries for the
-- sender and for the message do not throw, and the acknowledgement can be sent, the message is
-- acknowledged once more to its sender, over the socket if that is an admin; and otherwise the
-- handler throws and leaves everything as it was.
pub handle_incoming_chat_message_again :
    (env env' : Answers) (d : Incoming) (c c' : Chat)
    → handle_incoming_chat_message env d c ≡ returned c'
    → (has_message d.message_id c' ≡ true)
      × (handle_incoming_chat_message env' d c' ≡ (
          if env'.finds_peer && env'.reads_message && env'.sends_ack
          then returned (
              acknowledge_incoming_message d.from
                (get_or_else (lookup d.from c'.peers) false)
                d.message_id
                c')
          else threw c'))
unfolding handle_incoming_chat_message
handle_incoming_chat_message_again env env' d c c' e =
    let known = subst (Knows d) e (handle-Knows env d c) in
    (
      known.0,
      ap (λ r. if env'.finds_peer then r else threw c')
            (again env' d c' (lookup d.from c'.peers) known.0 known.1)
          ∙ needs_all env'.finds_peer env'.reads_message env'.sends_ack
              (returned (
                acknowledge_incoming_message d.from (get_or_else (lookup d.from c'.peers) false)
                  d.message_id c'))
              (threw c'),
    )
