-- ===== src/Sync/Hydrator/Missing.antt =====
-- Which peers are hydrated, and with which outcome.
use ylp_software.Base.{
  ◌≡◌, refl, ◌∙◌, ap, Bool, false, not, ◌&&◌, ◌||◌, String, Option, none, some, List, [], ◌∷◌, ◌++◌,
  map, filter, contains, contains-add, truthy, any, any-append, any-map, arith, eq_iff, string_same,
  ◌==◌,
}
use ylp_software.Sync.Records.{ConversationParticipant, Message, Call, CallParticipant, Changes}
use ylp_software.Sync.Normalize.{Query}
use ylp_software.Sync.Normalize.Existing.{Answers, contains-filter}
use ylp_software.Sync.Hydrator.{
  Outcome, hydrated, fallback, unsaved, raw_ids, add_id, distinct_ids, drop_known, missing_ids,
  settle_peer, hydrate,
}

abbrev pub names : String → Option String → Bool
names k none = false
names k (some j) = j == k

-- A created row of the pull mentions the peer.
abbrev pub mentions : String → Changes → Bool
mentions k changes =
    any (λ (r : ConversationParticipant). names k r.user_id)
      changes.conversation_participants.created
    || any (λ (r : Message). names k r.sender_id) changes.messages.created
    || any (λ (r : Call). names k r.initiator_id) changes.calls.created
    || any (λ (r : CallParticipant). names k r.user_id) changes.call_participants.created

names-raw_ids :
    (k : String) (changes : Changes) → any (names k) (raw_ids changes) ≡ mentions k changes
unfolding raw_ids
names-raw_ids k changes =
    let ps =
      map (λ (r : ConversationParticipant). r.user_id) changes.conversation_participants.created in
    let ms = map (λ (r : Message). r.sender_id) changes.messages.created in
    let cs = map (λ (r : Call). r.initiator_id) changes.calls.created in
    let qs = map (λ (r : CallParticipant). r.user_id) changes.call_participants.created in
    ground (
      arith,
      any-append (names k) (ps ++ ms ++ cs) qs,
      any-append (names k) (ps ++ ms) cs,
      any-append (names k) ps ms,
      any-map (names k) (λ (r : ConversationParticipant). r.user_id)
          changes.conversation_participants.created,
      any-map (names k) (λ (r : Message). r.sender_id) changes.messages.created,
      any-map (names k) (λ (r : Call). r.initiator_id) changes.calls.created,
      any-map (names k) (λ (r : CallParticipant). r.user_id) changes.call_participants.created,
    )

contains-add_id :
    (k : String) (ids : List String) (o : Option String)
    → contains k (add_id ids o) ≡ (contains k ids || truthy k && names k o)
contains-add_id k ids none = ground arith
contains-add_id k ids (some j) = ground (arith, contains-add j k ids, eq_iff j k)

contains-distinct_ids :
    (k : String) (ids : List String) (os : List (Option String))
    → contains k (distinct_ids ids os) ≡ (contains k ids || truthy k && any (names k) os)
unfolding distinct_ids
contains-distinct_ids k ids [] = ground arith
contains-distinct_ids k ids (o ∷ os) =
    ground (arith, contains-distinct_ids k (add_id ids o) os, contains-add_id k ids o)

missing_ids-filter :
    (rows : List String) (peers : Query String) (j : String) (ids : List String)
    → Answers rows peers
    → missing_ids peers (j ∷ ids)
      ≡ filter (λ i. not (contains i (filter (λ r. contains r (j ∷ ids)) rows))) (j ∷ ids)
unfolding missing_ids
missing_ids-filter rows peers j ids answers = ap (drop_known (j ∷ ids)) (answers (j ∷ ids))

contains-missing_ids :
    (rows : List String) (peers : Query String) (k : String) (ids : List String)
    → Answers rows peers
    → contains k (missing_ids peers ids) ≡ (contains k ids && not (contains k rows))
unfolding missing_ids
contains-missing_ids rows peers k [] answers = refl
contains-missing_ids rows peers k (j ∷ ids) answers =
    let asked = j ∷ ids in
    ap (contains k) (missing_ids-filter rows peers j ids answers)
    ∙ contains-filter (λ i. not (contains i (filter (λ r. contains r asked) rows))) k asked
    ∙ both_test (contains k asked) (contains k rows)
        (contains k (filter (λ r. contains r asked) rows))
        (contains-filter (λ r. contains r asked) k rows)
  where
    both_test : (a r f : Bool) → f ≡ (r && a) → (a && not f) ≡ (a && not r)
    both_test a r f e = ground (arith, e)

-- The outcome that the services lead to, and the peer that an outcome is about.
abbrev pub is_outcome : (String → Bool) → (String → Bool) → String → Outcome → Bool
is_outcome get save k (hydrated j) = j == k && get k
is_outcome get save k (fallback j) = j == k && not (get k) && save k
is_outcome get save k (unsaved j) = j == k && not (get k) && not (save k)

any-settle_peer :
    (get save : String → Bool) (k : String) (ids : List String)
    → any (is_outcome get save k) (map (settle_peer get (some save)) ids) ≡ contains k ids
any-settle_peer get save k [] = refl
any-settle_peer get save k (j ∷ ids) = ground (arith, any-settle_peer get save k ids, eq_iff j k)

-- On a device with these peers: a peer is hydrated exactly if its id is not empty, a created row of
-- the pull mentions it, and the device does not have it; it is fetched where that succeeds, else
-- created without the server where that succeeds, else left out.
pub hydrate-missing :
    (rows : List String) (peers : Query String) (get save : String → Bool) (changes : Changes)
    (k : String)
    → Answers rows peers
    → any
        (is_outcome get save k)
        (hydrate (record { peers = peers; get_or_create = some get; save = some save }) changes)
      ≡ (truthy k && mentions k changes && not (contains k rows))
unfolding hydrate
hydrate-missing rows peers get save changes k answers =
    let ids = distinct_ids [] (raw_ids changes) in
    ground (
      arith,
      any-settle_peer get save k (missing_ids peers ids),
      contains-missing_ids rows peers k ids answers,
      contains-distinct_ids k [] (raw_ids changes),
      names-raw_ids k changes,
    )
