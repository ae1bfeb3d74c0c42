-- ===== src/Sync/Hydrator.antt =====
-- `PeerHydrator` (sync/services/peer-hydrator.ts): the peers that pulled rows mention are fetched. The
-- log is left out.
pub mod Missing
use ylp_software.Base.{
  Bool, true, false, not, String, Option, none, some, List, [], ◌∷◌, ◌++◌, map, filter, contains,
  add, truthy, string_same, if◌then◌else◌,
}
use ylp_software.Sync.Records.{ConversationParticipant, Message, Call, CallParticipant, Changes}
use ylp_software.Sync.Normalize.{Query}

-- What becomes of a peer that is missing: it is fetched, created without the server, or neither.
pub data Outcome : Type 0 where
  hydrated fallback unsaved : String → Outcome

-- The services that the hydrator was constructed with, by what they answer: `get_or_create` tells
-- whether `getOrCreatePeerById` is fulfilled, `save` whether `savePeer` is.
pub record Hydrator : Type 0 where
  pub peers : Query String
  pub get_or_create : Option (String → Bool)
  pub save : Option (String → Bool)

-- `rawIds`
unfoldable pub raw_ids : Changes → List (Option String)
raw_ids changes =
    map (λ (r : ConversationParticipant). r.user_id) changes.conversation_participants.created
    ++ map (λ (r : Message). r.sender_id) changes.messages.created
    ++ map (λ (r : Call). r.initiator_id) changes.calls.created
    ++ map (λ (r : CallParticipant). r.user_id) changes.call_participants.created

abbrev pub add_id : List String → Option String → List String
add_id ids none = ids
add_id ids (some k) = if truthy k then add ids k else ids

-- `[...new Set(rawIds.filter(Boolean))]`
unfoldable pub distinct_ids : List String → List (Option String) → List String
distinct_ids ids [] = ids
distinct_ids ids (o ∷ os) = distinct_ids (add_id ids o) os

-- The ids that the local database does not have; none is missing where it cannot be asked.
abbrev pub drop_known : List String → Option (List String) → List String
drop_known ids none = []
drop_known ids (some existing) = filter (λ j. not (contains j existing)) ids

unfoldable pub missing_ids : Query String → List String → List String
missing_ids peers [] = []
missing_ids peers (k ∷ ids) = drop_known (k ∷ ids) (peers (k ∷ ids))

-- The fallback of a failed fetch.
abbrev pub save_fallback : Option (String → Bool) → String → Outcome
save_fallback none k = unsaved k
save_fallback (some save) k = if save k then fallback k else unsaved k

abbrev pub settle_peer : (String → Bool) → Option (String → Bool) → String → Outcome
settle_peer get save k = if get k then hydrated k else save_fallback save k

abbrev pub hydrate_with :
    Option (String → Bool) → Option (String → Bool) → List String → List Outcome
hydrate_with none save ids = []
hydrate_with (some get) save ids = map (settle_peer get save) ids

-- `hydrate`
unfoldable pub hydrate : Hydrator → Changes → List Outcome
unfolding raw_ids distinct_ids missing_ids
hydrate h changes =
    hydrate_with h.get_or_create h.save (missing_ids h.peers (distinct_ids [] (raw_ids changes)))
