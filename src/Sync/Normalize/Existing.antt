-- ===== src/Sync/Normalize/Existing.antt =====
-- Which pulled rows pass the normaliser.
use ylp_software.Base.{
  ◌≡◌, refl, sym, Bool, true, false, not, ◌&&◌, String, Option, none, some, List, [], ◌∷◌, filter,
  contains, truthy, get_or_else, string_same, arith, eq_iff, Option-cases, inl, inr, All,
}
use ylp_software.Sync.Normalize.{Query, to_ids, check_entities_exist, drop_existing, LocalDb}

pub contains-filter :
    (p : String → Bool) (k : String) (xs : List String)
    → contains k (filter p xs) ≡ (contains k xs && p k)
contains-filter p k [] = refl
contains-filter p k (x ∷ xs) = ground (arith, contains-filter p k xs, eq_iff x k)

filter-none : {A : Type 0} (xs : List A) → filter (λ x. false) xs ≡ []
filter-none [] = refl
filter-none (x ∷ xs) = filter-none xs

-- The answers of the database to `Q.where("id", Q.oneOf(ids))`, for a table with these row ids.
abbrev pub Answers : List String → Query String → Type 0
Answers rows query = (ids : List String) → query ids ≡ some (filter (λ r. contains r ids) rows)

-- The value of `get_or_else (id_of x) ""`, and whether the device has a row with it.
abbrev pub is_existing : List String → Option String → Bool
is_existing rows none = false
is_existing rows (some k) = truthy k && contains k rows

module _ {A : Type 0} (id_of : A → Option String) where
  contains-to_ids_empty : (xs : List A) → contains "" (to_ids id_of xs) ≡ false
  unfolding to_ids
  contains-to_ids_empty [] = refl
  contains-to_ids_empty (x ∷ xs) = elim (Option-cases (id_of x)) [
    | inl e ↦ ground (arith, contains-to_ids_empty xs)
    | inr (k, e) ↦ ground (arith, contains-to_ids_empty xs, eq_iff k "")
  ]

  -- Every item's id is among the ids that are asked for, if it is not empty.
  AreAsked : List String → List A → Type 0
  AreAsked ids =
      All (λ x. (k : String) → id_of x ≡ some k → truthy k ≡ true → contains k ids ≡ true)

  filter-AreAsked :
      (rows ids : List String) (xs : List A)
      → contains "" ids ≡ false
      → AreAsked ids xs
      → filter
          (λ x. not (contains (get_or_else (id_of x) "") (filter (λ r. contains r ids) rows)))
          xs
        ≡ filter (λ x. not (is_existing rows (id_of x))) xs
  unfolding AreAsked
  filter-AreAsked rows ids [] e h = refl
  filter-AreAsked rows ids (x ∷ xs) e (asked, h) = elim (Option-cases (id_of x)) [
    | inl absent ↦
        ground
          (arith, filter-AreAsked rows ids xs e h, contains-filter (λ r. contains r ids) "" rows)
    | inr (k, present) ↦ ground (
      arith,
      filter-AreAsked rows ids xs e h,
      contains-filter (λ r. contains r ids) k rows,
      asked k present,
      eq_iff k "",
    )
  ]

  AreAsked-subset :
      (ids : List String) (xs : List A)
      → ((k : String) → contains k (to_ids id_of xs) ≡ true → contains k ids ≡ true)
      → AreAsked ids xs
  unfolding AreAsked to_ids
  AreAsked-subset ids [] sub = tt
  AreAsked-subset ids (x ∷ xs) sub = (
    λ k e t. sub k (ground (arith, eq_iff k k)),
    AreAsked-subset ids xs (λ k h. sub k (elim (Option-cases (id_of x)) [
      | inl absent ↦ ground arith
      | inr (j, present) ↦ ground arith
    ])),
  )

  check_entities_exist_lem :
      (rows ids : List String) (query : Query String)
      → Answers rows query
      → check_entities_exist query ids ≡ filter (λ r. contains r ids) rows
  unfolding check_entities_exist
  check_entities_exist_lem rows [] query answers = sym (filter-none rows)
  check_entities_exist_lem rows (k ∷ ids) query answers = rw (answers (k ∷ ids))

  -- With a table of these row ids, exactly the items whose id the table has are dropped.
  pub drop_existing_lem :
      (rows : List String) (query : Query String) (created : List A)
      → Answers rows query
      → drop_existing id_of query created ≡ filter (λ x. not (is_existing rows (id_of x))) created
  unfolding drop_existing
  drop_existing_lem rows query created answers =
      let ids = to_ids id_of created in
      rw (check_entities_exist_lem rows ids query answers) (
        filter-AreAsked rows ids created (contains-to_ids_empty created)
          (AreAsked-subset ids created (λ k h. h)))

-- The tables of the device, by the ids of their rows.
pub record Tables : Type 0 where
  pub conversations : List String
  pub conversation_participants : List String
  pub messages : List String
  pub calls : List String
  pub call_participants : List String
  pub message_receipts : List String

pub record AnswersAll (t : Tables) (db : LocalDb) : Type 0 where
  pub conversations : Answers t.conversations db.conversations
  pub conversation_participants : Answers t.conversation_participants db.conversation_participants
  pub messages : Answers t.messages db.messages
  pub calls : Answers t.calls db.calls
  pub call_participants : Answers t.call_participants db.call_participants
  pub message_receipts : Answers t.message_receipts db.message_receipts
