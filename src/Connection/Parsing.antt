-- ===== src/Connection/Parsing.antt =====
-- The parsing of a signaling frame (shared/connection/adapters/ws-message-parser.ts), and the frame that
-- `WsSignalingAdapter.sendMessage` makes of a negotiation message. `JSON.parse` and the decryption are
-- parameters, which give `none` where they throw or give null.
pub mod RoundTrip
mod Tests
use ylp_software.Base.{
  ℕ, Bool, true, false, not, ◌&&◌, ◌||◌, String, Option, none, some, List, [], ◌∷◌, ltb, truthy,
  contains, string_same, ◌==◌, if◌then◌else◌,
}

mutual
  -- What `JSON.parse` gives.
  pub data Json : Type 0 where
    null : Json
    boolean : Bool → Json
    number : ℕ → Json
    text : String → Json
    array : Items → Json
    object : Members → Json

  pub data Items : Type 0 where
    no_items : Items
    item : Json → Items → Items

  pub data Members : Type 0 where
    no_members : Members
    member : String → Json → Members → Members

abbrev pub member_of : String → Members → Option Json
member_of key no_members = none
member_of key (member k v members) =
    let rest = member_of key members in if k == key then some v else rest

-- `value.key`; none of the keys that are asked for is one of an array or a text.
abbrev pub get : String → Option Json → Option Json
get key (some (object members)) = member_of key members
get key value = none

-- `value && typeof value === "object"`
abbrev pub is_object : Option Json → Bool
is_object (some (object _)) = true
is_object (some (array items)) = true
is_object value = false

-- `typeof value === "string"`
abbrev pub is_text : Option Json → Bool
is_text (some (text s)) = true
is_text value = false

abbrev pub is_truthy : Option Json → Bool
is_truthy none = false
is_truthy (some null) = false
is_truthy (some (boolean b)) = b
is_truthy (some (number n)) = ltb 0 n
is_truthy (some (text s)) = truthy s
is_truthy (some (array items)) = true
is_truthy (some (object _)) = true

abbrev pub is_one_of : List String → Option Json → Bool
is_one_of texts (some (text s)) = contains s texts
is_one_of texts value = false

abbrev pub has_type : List String → Option Json → Bool
has_type types value = is_object value && is_one_of types (get "type" value)

-- `isControlMessage`
abbrev pub is_control_message : String → Option Json → Bool
is_control_message type value = has_type (type ∷ []) value

abbrev pub negotiation_types : List String
negotiation_types = "offer" ∷ "answer" ∷ "ice-candidate" ∷ []

-- `isEncryptedSignaling`
unfoldable pub is_encrypted_signaling : Option Json → Bool
is_encrypted_signaling value =
    let d = get "data" value in
    has_type negotiation_types value
    && is_object d
    && is_text (get "sender" d)
    && is_object (get "enc" d)

-- `isSignalingMessage`
unfoldable pub is_signaling_message : Option Json → Bool
is_signaling_message value =
    let d = get "data" value in
    has_type ("offer" ∷ "answer" ∷ "ice-candidate" ∷ "handshake" ∷ []) value
    && is_object d
    && is_text (get "to" d)
    && is_text (get "sender" d)

-- `isSmsMessage`
abbrev pub is_sms_message : Option Json → Bool
is_sms_message value =
    let d = get "data" value in
    has_type ("chat" ∷ []) value
    && is_object d
    && is_one_of ("sms" ∷ []) (get "messageType" d)
    && is_object (get "senderProfile" d)

-- `isDirectChatMessage`
abbrev pub is_direct_chat_message : Option Json → Bool
is_direct_chat_message value =
    let d = get "data" value in
    has_type ("chat" ∷ []) value
    && is_object d
    && (is_text (get "from" d) || is_text (get "from_user" d))

abbrev pub call_types : List String
call_types =
    "audio-call" ∷ "video-call" ∷ "call-ended" ∷ "call-ready" ∷ "call-rejected" ∷ "call-missed" ∷ []

-- `isCallMessage`
abbrev pub is_call_message : Option Json → Bool
is_call_message value =
    let d = get "data" value in
    has_type call_types value && is_object d && is_text (get "from" d) && is_text (get "to" d)

-- `isPublicChatMessage`
abbrev pub is_public_chat_message : Option Json → Bool
is_public_chat_message value = has_type ("public-chat" ∷ []) value

-- `isServerAckMessage`, `isAckMessage`
abbrev pub is_ack_of : String → Option Json → Bool
is_ack_of type value =
    let d = get "data" value in
    has_type (type ∷ []) value && is_object d && is_text (get "messageId" d)

-- `WsEvent`
pub data WsEvent : Type 0 where
  signaling : Json → Option Json → WsEvent
  call chat sms ack server_ack public_chat active_users : Json → WsEvent
  pong ping : WsEvent
  unknown : Option Json → WsEvent

-- An event, and the peer's key that was stored before.
abbrev pub Parsed : Type 0
Parsed = WsEvent × List (String × Json)

abbrev pub plain_event : Json → WsEvent
plain_event v =
    if is_sms_message (some v)
    then sms v
    else if is_direct_chat_message (some v)
    then chat v
    else if is_call_message (some v)
    then call v
    else if is_public_chat_message (some v)
    then public_chat v
    else if is_ack_of "server-ack" (some v)
    then server_ack v
    else if is_ack_of "ack" (some v)
    then ack v
    else if is_signaling_message (some v)
    then signaling v (get "credential" (get "data" (some v)))
    else unknown (some v)

abbrev pub text_of : Option Json → String
text_of (some (text s)) = s
text_of value = ""

abbrev pub stored_key : Bool → String → Option Json → List (String × Json)
stored_key stores sender none = []
stored_key stores sender (some key) =
    if stores && is_truthy (some key) then (sender, key) ∷ [] else []

abbrev pub with_data : Json → Option Json → Json
with_data v none = object (member "data" v no_members)
with_data v (some type) = object (member "type" type (member "data" v no_members))

abbrev pub reconstructed_event : Json → Option Json → WsEvent
reconstructed_event v none = unknown (some v)
reconstructed_event v (some d) =
    let m = with_data d (get "type" (some v)) in
    if is_signaling_message (some m)
    then signaling m (get "credential" (get "data" (some v)))
    else unknown (some v)

abbrev pub decrypted_event :
    Option (Json → String → Option Json) → Bool → Json → Option Json → Parsed
decrypted_event none stores v enc = (unknown (some v), [])
decrypted_event decrypt stores v none = (unknown (some v), [])
decrypted_event (some decrypt) stores v (some enc) =
    let d = get "data" (some v) in
    let sender = text_of (get "sender" d) in
    (
      reconstructed_event v (decrypt enc sender),
      stored_key stores sender (get "ecdhPublicKey" (get "credential" d)),
    )

abbrev pub is_array : Json → Bool
is_array (array items) = true
is_array v = false

abbrev pub parsed_event : Option (Json → String → Option Json) → Bool → Option Json → Parsed
parsed_event decrypt stores none = (unknown none, [])
parsed_event decrypt stores (some v) =
    if is_control_message "pong" (some v)
    then (pong, [])
    else if is_control_message "ping" (some v)
    then (ping, [])
    else if is_array v
    then (active_users v, [])
    else if is_encrypted_signaling (some v)
    then decrypted_event decrypt stores v (get "enc" (get "data" (some v)))
    else (plain_event v, [])

-- `parseWsMessage`; `stores` tells whether there is a `storePeerKey`.
unfoldable pub parse_ws_message :
    (String → Option Json) → Option (Json → String → Option Json) → Bool → String → Parsed
unfolding is_encrypted_signaling is_signaling_message
parse_ws_message json_parse decrypt stores raw = parsed_event decrypt stores (json_parse raw)

abbrev pub credential_members : Option Json → Members
credential_members none = no_members
credential_members (some credential) =
    if is_truthy (some credential) then member "credential" credential no_members else no_members

-- The frame that `sendMessage` makes of a message: the message itself, or, where the encryption gives
-- something for its data, an encrypted one.
unfoldable pub wire : String → Members → Option Json → Json
wire type d none = object (member "type" (text type) (member "data" (object d) no_members))
wire type d (some enc) =
    let data' = some (object d) in
    object (
      member "type" (text type) (
        member "data"
          (object (
            member "to" (text (text_of (get "to" data'))) (
              member "sender" (text (text_of (get "sender" data')))
                (member "enc" enc (credential_members (get "credential" data'))))))
          no_members))
