-- ===== src/Sync/Merge/Latest.antt =====
-- Merging pages by id, against the last version of each record.
use ylp_software.Base.{
  ℕ, ◌≤◌, count, count-append, is_some, ◌≡◌, refl, ◌∙◌, Bool, false, ◌||◌, String, Option, none,
  some, List, [], ◌∷◌, ◌++◌, arith, filter, contains, add, insert, lookup, lookup-insert,
  string_same, ◌==◌, if◌then◌else◌, eq_iff, ◌<|>◌, contains-append, contains-add,
}
use ylp_software.Sync.Merge.{
  set_under, set_item, set_items, has_no_id, values, merge_by_id, add_all, merge_deleted,
}

module _ {A : Type 0} (id_of : A → Option String) where
  abbrev pub has_id : String → A → Bool
  has_id k x = elim (id_of x) [ none ↦ false | some j ↦ j == k ]

  -- The last record of a list that has this id.
  abbrev pub latest : String → List A → Option A
  latest k [] = none
  latest k (x ∷ xs) = let rest = latest k xs in rest <|> (if has_id k x then some x else none)

  -- Each record stands under its own id, once.
  abbrev IsKeyed : List (String × A) → Type 0
  IsKeyed [] = Unit
  IsKeyed ((k, x) ∷ m) = (id_of x ≡ some k) × (lookup k m ≡ none) × IsKeyed m

  lookup-set_under :
      (k : String) (o : Option String) (m : List (String × A)) (x : A)
      → lookup k (set_under id_of o x m)
        ≡ (if elim o [ none ↦ false | some j ↦ j == k ] then some x else lookup k m)
  lookup-set_under k none m x = refl
  lookup-set_under k (some j) m x = lookup-insert j k x m

  pub latest-append :
      (k : String) (xs ys : List A) → latest k (xs ++ ys) ≡ (latest k ys <|> latest k xs)
  latest-append k [] ys = ground arith
  latest-append k (x ∷ xs) ys = ground (arith, latest-append k xs ys)

  lookup-set_items :
      (k : String) (m : List (String × A)) (xs : List A)
      → lookup k (set_items id_of m xs) ≡ (latest k xs <|> lookup k m)
  unfolding set_items
  lookup-set_items k m [] = refl
  lookup-set_items k m (x ∷ xs) =
      ground (arith, lookup-set_items k (set_item id_of m x) xs, lookup-set_under k (id_of x) m x)

  insert-IsKeyed :
      (k : String) (x : A) (m : List (String × A))
      → id_of x ≡ some k
      → IsKeyed m
      → IsKeyed (insert k x m)
  insert-IsKeyed k x [] e h = (e, refl, tt)
  insert-IsKeyed k x ((j, y) ∷ m) e (ey, ny, h) =
      ground (arith, insert-IsKeyed k x m e h, lookup-insert k j x m, eq_iff j k, eq_iff k j)

  set_under-IsKeyed :
      (o : Option String) (m : List (String × A)) (x : A)
      → id_of x ≡ o
      → IsKeyed m
      → IsKeyed (set_under id_of o x m)
  set_under-IsKeyed none m x e h = h
  set_under-IsKeyed (some j) m x e h = insert-IsKeyed j x m e h

  set_items-IsKeyed :
      (m : List (String × A)) (xs : List A) → IsKeyed m → IsKeyed (set_items id_of m xs)
  unfolding set_items
  set_items-IsKeyed m [] h = h
  set_items-IsKeyed m (x ∷ xs) h =
      set_items-IsKeyed (set_item id_of m x) xs (set_under-IsKeyed (id_of x) m x refl h)

  latest-values :
      (k : String) (m : List (String × A)) → IsKeyed m → latest k (values id_of m) ≡ lookup k m
  latest-values k [] h = refl
  latest-values k ((j, x) ∷ m) (e, n, h) = ground (arith, latest-values k m h, eq_iff j k)

  latest-filter_no_id : (k : String) (xs : List A) → latest k (filter (has_no_id id_of) xs) ≡ none
  latest-filter_no_id k [] = refl
  latest-filter_no_id k (x ∷ xs) = ground (arith, latest-filter_no_id k xs)

  -- Merging two lists keeps, under every id, the last version of the two lists one after the other.
  pub latest-merge_by_id :
      (k : String) (base incoming : List A)
      → latest k (merge_by_id id_of base incoming) ≡ latest k (base ++ incoming)
  unfolding merge_by_id
  latest-merge_by_id k base incoming =
      let m = set_items id_of (set_items id_of [] base) incoming in
      let keyed : IsKeyed m =
        set_items-IsKeyed (set_items id_of [] base) incoming (set_items-IsKeyed [] base tt) in
      ground (
        arith,
        latest-append k (filter (has_no_id id_of) base) (values id_of m),
        latest-filter_no_id k base,
        latest-values k m keyed,
        lookup-set_items k (set_items id_of [] base) incoming,
        lookup-set_items k [] base,
        latest-append k base incoming,
      )

  abbrev one_if : Bool → ℕ
  one_if b = if b then 1 else 0

  count-values :
      (k : String) (m : List (String × A))
      → IsKeyed m
      → count (has_id k) (values id_of m) ≡ one_if (is_some (lookup k m))
  count-values k [] h = refl
  count-values k ((j, x) ∷ m) (e, n, h) = ground (arith, count-values k m h, eq_iff j k)

  count-filter_no_id :
      (k : String) (xs : List A) → count (has_id k) (filter (has_no_id id_of) xs) ≡ 0
  count-filter_no_id k [] = refl
  count-filter_no_id k (x ∷ xs) = ground (arith, count-filter_no_id k xs)

  -- Merging two lists leaves one record at most under every id.
  pub count-merge_by_id :
      (k : String) (base incoming : List A) → count (has_id k) (merge_by_id id_of base incoming) ≤ 1
  unfolding merge_by_id
  count-merge_by_id k base incoming =
      let m = set_items id_of (set_items id_of [] base) incoming in
      let keyed : IsKeyed m =
        set_items-IsKeyed (set_items id_of [] base) incoming (set_items-IsKeyed [] base tt) in
      ground (
        arith,
        count-append (has_id k) (filter (has_no_id id_of) base) (values id_of m),
        count-filter_no_id k base,
        count-values k m keyed,
      )

-- How often the text is in the list.
abbrev pub occurrences : String → List String → ℕ
occurrences a xs = count (λ x. x == a) xs

IsOnce : String → List String → Type 0
IsOnce a s = occurrences a s ≡ (if contains a s then 1 else 0)

add-IsOnce : (a b : String) (s : List String) → IsOnce a s → IsOnce a (add s b)
unfolding IsOnce
add-IsOnce a b s h =
    ground
      (arith, contains-add b a s, count-append (λ x. x == a) s (b ∷ []), eq_iff a b, eq_iff b a)

add_all-IsOnce : (a : String) (s xs : List String) → IsOnce a s → IsOnce a (add_all s xs)
unfolding add_all
add_all-IsOnce a s [] h = h
add_all-IsOnce a s (x ∷ xs) h = add_all-IsOnce a (add s x) xs (add-IsOnce a x s h)

pub occurrences-merge_deleted :
    (a : String) (base incoming : List String) → occurrences a (merge_deleted base incoming) ≤ 1
unfolding merge_deleted IsOnce
occurrences-merge_deleted a base incoming =
    let h = add_all-IsOnce a [] (base ++ incoming) refl in ground (arith, h)

contains-add_all :
    (a : String) (s xs : List String) → contains a (add_all s xs) ≡ (contains a s || contains a xs)
unfolding add_all
contains-add_all a s [] = ground arith
contains-add_all a s (x ∷ xs) = ground (arith, contains-add_all a (add s x) xs, contains-add x a s)

pub contains-merge_deleted :
    (a : String) (base incoming : List String)
    → contains a (merge_deleted base incoming) ≡ (contains a base || contains a incoming)
unfolding merge_deleted
contains-merge_deleted a base incoming =
    contains-add_all a [] (base ++ incoming) ∙ contains-append a base incoming
