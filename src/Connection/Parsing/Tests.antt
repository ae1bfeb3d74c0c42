-- ===== src/Connection/Parsing/Tests.antt =====
-- The theorem on frames, applied to an encrypted offer.
use ylp_software.Base.{◌≡◌, refl, true, String, Option, none, some}
use ylp_software.Connection.Parsing.{
  Json, text, object, Members, member, no_members, signaling, parse_ws_message, wire,
}
use ylp_software.Connection.Parsing.RoundTrip.{sent_credential, parse_ws_message-wire}

abbrev offer_data : Members
offer_data =
    member "sdp" (text "v=0") (member "to" (text "bea") (member "sender" (text "ann") no_members))

abbrev closed : Option Json
closed = some (object (member "nonce" (text "n") no_members))

abbrev json_parse : String → Option Json
json_parse raw = some (wire "offer" offer_data closed)

abbrev decrypt : Json → String → Option Json
decrypt enc sender = some (object offer_data)

parse_ws_message-wire_example :
    (parse_ws_message json_parse (some decrypt) true "{}").0
    ≡ signaling (wire "offer" offer_data none) (sent_credential offer_data closed)
parse_ws_message-wire_example =
    parse_ws_message-wire json_parse decrypt true "{}" "offer" offer_data closed refl
      (record { to = refl; sender = refl }) (refl, refl) refl
