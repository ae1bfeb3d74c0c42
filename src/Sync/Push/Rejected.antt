-- ===== src/Sync/Push/Rejected.antt =====
-- The ids that are rejected, excluded and pushed, by tests on the local rows.
use ylp_software.Base.{
  ◌≡◌, refl, sym, ◌∙◌, Bool, true, false, ◌&&◌, ◌||◌, String, Option, none, some, List, [], ◌∷◌,
  ◌++◌, map, filter, contains, any-append, truthy, string_same, arith, eq_iff, ◌==◌, any,
  Option-cases, inl, inr,
}
use mathlib.Core.Path.{ap₂}
use ylp_software.Sync.Records.{Call}
use ylp_software.Sync.Push.{is_initiating, excluded_call_ids, rejected_ids}

abbrev pub is_id : String → Option String → Bool
is_id k none = false
is_id k (some j) = j == k

module _ {A : Type 0} (id_of : A → Option String) where
  -- Some row with this id passes a test.
  abbrev pub has_row : String → (A → Bool) → List A → Bool
  has_row k test = any (λ r. is_id k (id_of r) && test r)

  pub contains-rejected_ids :
      (reject : A → Bool) (k : String) (rows : List A)
      → truthy k ≡ true
      → contains k (rejected_ids id_of reject rows) ≡ has_row k reject rows
  unfolding rejected_ids
  contains-rejected_ids reject k [] t = refl
  contains-rejected_ids reject k (r ∷ rows) t = elim (Option-cases (id_of r)) [
    | inl absent ↦ ground (arith, contains-rejected_ids reject k rows t)
    | inr (j, present) ↦
        ground (arith, contains-rejected_ids reject k rows t, eq_iff j k, eq_iff j "", eq_iff k "")
  ]

  pub has_row-ext :
      (k : String) (p q : A → Bool) (rows : List A)
      → ((r : A) → is_id k (id_of r) ≡ true → p r ≡ q r)
      → has_row k p rows ≡ has_row k q rows
  has_row-ext k p q [] h = refl
  has_row-ext k p q (r ∷ rows) h = ground (arith, has_row-ext k p q rows h, h r)

  pub has_row-append :
      (k : String) (test : A → Bool) (xs ys : List A)
      → has_row k test (xs ++ ys) ≡ (has_row k test xs || has_row k test ys)
  has_row-append k test xs ys = any-append (λ r. is_id k (id_of r) && test r) xs ys

  module _ {B : Type 0} (sent_id : B → Option String) (send : A → B) (k : String) where
    -- Rows that are filtered and sent under the same id.
    has_row-sent :
        (test : A → Bool) (rows : List A)
        → ((r : A) → sent_id (send r) ≡ id_of r)
        → any (λ s. is_id k (sent_id s)) (map send (filter test rows)) ≡ has_row k test rows
    has_row-sent test [] same = refl
    has_row-sent test (r ∷ rows) same = ground (arith, has_row-sent test rows same, same r)

    pub has_row-sent_both :
        (test want : A → Bool) (xs ys : List A)
        → ((r : A) → sent_id (send r) ≡ id_of r)
        → ((r : A) → is_id k (id_of r) ≡ true → test r ≡ want r)
        → any (λ s. is_id k (sent_id s)) (map send (filter test xs) ++ map send (filter test ys))
          ≡ has_row k want (xs ++ ys)
    has_row-sent_both test want xs ys same h =
        any-append (λ s. is_id k (sent_id s)) (map send (filter test xs))
          (map send (filter test ys))
        ∙ ap₂ ◌||◌ (has_row-sent test xs same ∙ has_row-ext k test want xs h)
            (has_row-sent test ys same ∙ has_row-ext k test want ys h)
        ∙ sym (has_row-append k want xs ys)

    -- The same, where the rows are changed first.
    pub has_row-changed_both :
        (change : A → A) (test want : A → Bool) (xs ys : List A)
        → ((r : A) → sent_id (send r) ≡ id_of r)
        → ((r : A) → id_of (change r) ≡ id_of r)
        → ((r : A) → test (change r) ≡ want r)
        → any
            (λ s. is_id k (sent_id s))
            (map send (filter test (map change xs)) ++ map send (filter test (map change ys)))
          ≡ has_row k want (xs ++ ys)
    has_row-changed_both change test want xs ys same keep h =
        has_row-sent_both test test (map change xs) (map change ys) same (λ r e. refl)
        ∙ has_row-append k test (map change xs) (map change ys)
        ∙ ap₂ ◌||◌ (changed xs) (changed ys)
        ∙ sym (has_row-append k want xs ys)
      where
        changed : (rows : List A) → has_row k test (map change rows) ≡ has_row k want rows
        changed [] = refl
        changed (r ∷ rows) = ground (arith, changed rows, keep r, h r)

-- A call of these rows with this id is still being set up.
abbrev pub is_setting_up : List Call → String → Bool
is_setting_up calls k = has_row (λ (c : Call). c.id) k (λ c. is_initiating c.status) calls

pub contains-excluded_call_ids :
    (k : String) (calls : List Call)
    → truthy k ≡ true
    → contains k (excluded_call_ids calls) ≡ is_setting_up calls k
unfolding excluded_call_ids
contains-excluded_call_ids k [] t = refl
contains-excluded_call_ids k (c ∷ calls) t = elim (Option-cases c.id) [
  | inl absent ↦ ground (arith, contains-excluded_call_ids k calls t)
  | inr (j, present) ↦
      ground (arith, contains-excluded_call_ids k calls t, eq_iff j k, eq_iff j "", eq_iff k "")
]

pub contains-excluded_call_ids_empty :
    (calls : List Call) → contains "" (excluded_call_ids calls) ≡ false
unfolding excluded_call_ids
contains-excluded_call_ids_empty [] = refl
contains-excluded_call_ids_empty (c ∷ calls) = elim (Option-cases c.id) [
  | inl absent ↦ ground (arith, contains-excluded_call_ids_empty calls)
  | inr (j, present) ↦ ground (arith, contains-excluded_call_ids_empty calls, eq_iff j "")
]
