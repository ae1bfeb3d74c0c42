-- ===== src/Connection/Planning/Candidates.antt =====
-- The dial list of a peer: what it holds, and in which order.
use ylp_software.Base.{
  ◌≡◌, refl, Bool, true, false, not, ◌&&◌, ◌||◌, Option, none, some, List, [], ◌∷◌, ◌++◌, String,
  arith, truthy, contains, add, contains-add, contains-append, string_same, if◌then◌else◌, ◌==◌,
}
use ylp_software.Connection.Planning.{add_truthy, present, dedupe_candidate_addresses}

abbrev pub IsDistinct : List String → Type 0
IsDistinct [] = Unit
IsDistinct (x ∷ xs) = (contains x xs ≡ false) × IsDistinct xs

abbrev pub offered : String → List (Option String) → Bool
offered a [] = false
offered a (none ∷ xs) = offered a xs
offered a (some x ∷ xs) = x == a || offered a xs

-- `true` where the list begins with the address.
abbrev pub starts_with : String → List String → Bool
starts_with a [] = false
starts_with a (x ∷ xs) = x == a

IsDistinct-append :
    (xs : List String) (a : String)
    → IsDistinct xs
    → contains a xs ≡ false
    → IsDistinct (xs ++ a ∷ [])
IsDistinct-append [] a d n = ground arith
IsDistinct-append (x ∷ xs) a d n = ground (
  arith,
  IsDistinct-append xs a,
  contains-append x xs (a ∷ []),
  string_same.same_iff a x,
  string_same.same_iff x a,
)

IsDistinct-add : (xs : List String) (a : String) → IsDistinct xs → IsDistinct (add xs a)
IsDistinct-add xs a d = ground (arith, IsDistinct-append xs a)

add_truthy-IsDistinct :
    (seen : List String) (xs : List (Option String))
    → IsDistinct seen
    → IsDistinct (add_truthy seen xs)
add_truthy-IsDistinct seen [] d = d
add_truthy-IsDistinct seen (none ∷ xs) d = add_truthy-IsDistinct seen xs d
add_truthy-IsDistinct seen (some x ∷ xs) d =
    add_truthy-IsDistinct (if truthy x then add seen x else seen) xs
      (ground (arith, IsDistinct-add seen x))

contains-add_truthy :
    (a : String) (seen : List String) (xs : List (Option String))
    → contains a (add_truthy seen xs) ≡ (contains a seen || truthy a && offered a xs)
contains-add_truthy a seen [] = ground arith
contains-add_truthy a seen (none ∷ xs) = contains-add_truthy a seen xs
contains-add_truthy a seen (some x ∷ xs) = ground (
  arith,
  contains-add_truthy a (if truthy x then add seen x else seen) xs,
  contains-add x a seen,
  string_same.same_iff x a,
)

starts_with-add :
    (a x : String) (seen : List String)
    → starts_with a seen ≡ true
    → starts_with a (add seen x) ≡ true
starts_with-add a x [] h = ground arith
starts_with-add a x (y ∷ ys) h = ground arith

starts_with-add_truthy :
    (a : String) (seen : List String) (xs : List (Option String))
    → starts_with a seen ≡ true
    → starts_with a (add_truthy seen xs) ≡ true
starts_with-add_truthy a seen [] h = h
starts_with-add_truthy a seen (none ∷ xs) h = starts_with-add_truthy a seen xs h
starts_with-add_truthy a seen (some x ∷ xs) h =
    starts_with-add_truthy a (if truthy x then add seen x else seen) xs
      (ground (arith, starts_with-add a x seen))

starts_with-preferred :
    (a : String) (xs : List (Option String))
    → truthy a ≡ true
    → starts_with a (add_truthy [] (some a ∷ xs)) ≡ true
starts_with-preferred a xs t =
    starts_with-add_truthy a (if truthy a then add [] a else []) xs
      (ground (arith, string_same.same_iff a a))

offered-present : (a : String) (xs : List String) → offered a (present (some xs)) ≡ contains a xs
offered-present a [] = refl
offered-present a (x ∷ xs) = ground (arith, offered-present a xs)

-- The list that the documentation of the function promises.
pub record IsDialList (ip : String) (advertised dials : List String) : Type 0 where
  pub distinct : IsDistinct dials
  pub members : (a : String) → contains a dials ≡ (truthy a && (ip == a || contains a advertised))
  pub preferred : (not (truthy ip) || starts_with ip dials) ≡ true

-- For every preferred address and list of advertised ones, the dial list has no address twice, has
-- exactly the addresses that are not empty among them, and begins with the preferred one unless
-- that is empty.
pub dedupe_candidate_addresses-IsDialList :
    (ip : String) (advertised : List String)
    → IsDialList ip advertised (dedupe_candidate_addresses (some ip) (some advertised))
unfolding dedupe_candidate_addresses
dedupe_candidate_addresses-IsDialList ip advertised = record {
  distinct = add_truthy-IsDistinct [] (some ip ∷ present (some advertised)) tt;
  members = λ a. ground (
    arith,
    contains-add_truthy a [] (some ip ∷ present (some advertised)),
    offered-present a advertised,
  );
  preferred = ground (arith, starts_with-preferred ip (present (some advertised)));
}
