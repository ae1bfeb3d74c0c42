-- ===== src/Connection/Parsing/RoundTrip.antt =====
-- A negotiation message is parsed as it was sent.
use mathlib.Core.Path.{subst}
use ylp_software.Base.{
  ◌≡◌, refl, ap, sym, ◌∙◌, ◌⊎◌, inl, inr, Bool, true, false, String, Option, none, some, List, [],
  ◌∷◌, contains, string_same, if◌then◌else◌, arith,
}
use ylp_software.Connection.Parsing.{
  Json, object, Members, get, is_object, is_text, is_truthy, text_of, negotiation_types, call_types,
  is_encrypted_signaling, is_signaling_message, signaling, parsed_event, parse_ws_message, wire,
}

-- The credential that comes with a frame: one that is falsy is not sent beside encrypted data.
abbrev pub sent_credential : Members → Option Json → Option Json
sent_credential d none = get "credential" (some (object d))
sent_credential d (some enc) =
    let c = get "credential" (some (object d)) in if is_truthy c then c else none

-- The receiver opens what the sender has closed; plain data has nothing that looks encrypted.
abbrev pub Opens : (Json → String → Option Json) → Members → Option Json → Type 0
Opens decrypt d none = is_object (get "enc" (some (object d))) ≡ false
Opens decrypt d (some enc) =
    (is_object (some enc) ≡ true)
    × (decrypt enc (text_of (get "sender" (some (object d)))) ≡ some (object d))

-- The data names whom it is to and whom it is from.
pub record IsAddressed (d : Members) : Type 0 where
  pub to : is_text (get "to" (some (object d))) ≡ true
  pub sender : is_text (get "sender" (some (object d))) ≡ true

negotiation-cases :
    (type : String)
    → contains type negotiation_types ≡ true
    → (type ≡ "offer") ⊎ (type ≡ "answer") ⊎ (type ≡ "ice-candidate")
negotiation-cases type h = ground (
  arith,
  string_same.same_iff "offer" type,
  string_same.same_iff "answer" type,
  string_same.same_iff "ice-candidate" type,
)

-- The types of the other frames.
abbrev other_types : List String
other_types =
    "pong" ∷ "ping" ∷ "chat" ∷ "audio-call" ∷ "video-call" ∷ "call-ended" ∷ "call-ready"
    ∷ "call-rejected" ∷ "call-missed" ∷ "public-chat" ∷ "server-ack" ∷ "ack" ∷ []

negotiation-other :
    (type : String) → contains type negotiation_types ≡ true → contains type other_types ≡ false
negotiation-other type h = elim (negotiation-cases type h) [
  | inl e ↦ subst (λ t. contains t other_types ≡ false) (sym e) refl
  | inr (inl e) ↦ subst (λ t. contains t other_types ≡ false) (sym e) refl
  | inr (inr e) ↦ subst (λ t. contains t other_types ≡ false) (sym e) refl
]

record IsOther (type : String) : Type 0 where
  pong : contains type ("pong" ∷ []) ≡ false
  ping : contains type ("ping" ∷ []) ≡ false
  chat : contains type ("chat" ∷ []) ≡ false
  call : contains type call_types ≡ false
  public_chat : contains type ("public-chat" ∷ []) ≡ false
  server_ack : contains type ("server-ack" ∷ []) ≡ false
  ack : contains type ("ack" ∷ []) ≡ false

contains-IsOther : (type : String) → contains type other_types ≡ false → IsOther type
contains-IsOther type h = record {
  pong = ground (arith, h);
  ping = ground (arith, h);
  chat = ground (arith, h);
  call = ground (arith, h);
  public_chat = ground (arith, h);
  server_ack = ground (arith, h);
  ack = ground (arith, h);
}

wire-returns :
    (decrypt : Json → String → Option Json) (stores : Bool) (type : String) (d : Members)
    (enc : Option Json)
    → contains type negotiation_types ≡ true
    → IsAddressed d
    → Opens decrypt d enc
    → (parsed_event (some decrypt) stores (some (wire type d enc))).0
      ≡ signaling (wire type d none) (sent_credential d enc)
unfolding wire is_encrypted_signaling is_signaling_message
wire-returns decrypt stores type d none h a o =
    let n = contains-IsOther type (negotiation-other type h) in
    ground (
      arith, a.to, a.sender, o, n.pong, n.ping, n.chat, n.call, n.public_chat, n.server_ack, n.ack,
      h,
    )
wire-returns decrypt stores type d (some enc) h a o =
    let n = contains-IsOther type (negotiation-other type h) in
    ground (arith, a.to, a.sender, o, n.pong, n.ping, h)

-- An offer, an answer or an ICE candidate that names its receiver and its sender is parsed as it was
-- sent, with its credential, whether it goes plain or encrypted, if the receiver decrypts what the
-- sender has encrypted, and whatever the other members of its data are; a plain one has no member
-- `enc` that is an object.
pub parse_ws_message-wire :
    (json_parse : String → Option Json) (decrypt : Json → String → Option Json) (stores : Bool)
    (raw type : String) (d : Members) (enc : Option Json)
    → contains type negotiation_types ≡ true
    → IsAddressed d
    → Opens decrypt d enc
    → json_parse raw ≡ some (wire type d enc)
    → (parse_ws_message json_parse (some decrypt) stores raw).0
      ≡ signaling (wire type d none) (sent_credential d enc)
unfolding parse_ws_message
parse_ws_message-wire json_parse decrypt stores raw type d enc h a o e =
    ap (λ v. (parsed_event (some decrypt) stores v).0) e
    ∙ wire-returns decrypt stores type d enc h a o
