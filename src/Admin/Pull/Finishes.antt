-- ===== src/Admin/Pull/Finishes.antt =====
-- The pull of the admin frontend comes to an end.
use ylp_software.Base.{
  ◌≡◌, refl, sym, ◌∙◌, ℕ, zero, suc, ◌+◌, ◌≤◌, ◌<◌, Bool, true, ◌&&◌, String, Option, none, some,
  List, [], ◌∷◌, arith, leb,
}
use ylp_software.Admin.Apply.{TableChanges, Tables, apply_changes}
use ylp_software.Admin.Pull.{
  Page, Local, Pulled, finished, failed, out_of_fuel, cursor_of, smaller, smallest_cursor,
  if_advancing, next_round, apply_page, commit, rounds, pull,
}

abbrev pub at_most : ℕ → Option ℕ → Bool
at_most bound none = true
at_most bound (some cursor) = leb cursor bound

-- No cursor of the page is above the bound.
abbrev pub bounded : ℕ → List (String × TableChanges) → Bool
bounded bound [] = true
bounded bound ((name, c) ∷ changes) = at_most bound c.next_cursor && bounded bound changes

abbrev pub answer_bounded : ℕ → Option Page → Bool
answer_bounded bound none = true
answer_bounded bound (some p) = bounded bound p.changes

-- The pages of a pull that finishes: the server's answers from this request on, each asked for with
-- the cursor that the page before gives, until one gives none.
abbrev pub AreAnswers : (ℕ → ℕ → Option Page) → ℕ → ℕ → List Page → Type 0
AreAnswers server round cursor [] = ⊥
AreAnswers server round cursor (p ∷ []) =
    (server round cursor ≡ some p) × (next_round cursor p ≡ none)
AreAnswers server round cursor (p ∷ q ∷ ps) =
    (server round cursor ≡ some p)
    × (next : ℕ) × (next_round cursor p ≡ some next)
    × AreAnswers server (suc round) next (q ∷ ps)

-- The changes of all the pages, one page after the other.
abbrev pub applied : List Page → Tables → Tables
applied [] t = t
applied (p ∷ ps) t = applied ps (apply_changes p.changes t)

abbrev pub last_timestamp : List Page → Option ℕ
last_timestamp [] = none
last_timestamp (p ∷ []) = some p.timestamp
last_timestamp (p ∷ q ∷ ps) = last_timestamp (q ∷ ps)

-- The tables have the changes of all the pages of the pull, and the last one's timestamp is kept.
abbrev pub HasApplied : (ℕ → ℕ → Option Page) → ℕ → ℕ → Local → Local → Type 0
HasApplied server round cursor before after =
    (pages : List Page) × AreAnswers server round cursor pages
    × (after.tables ≡ applied pages before.tables)
    × (last_timestamp pages ≡ some after.last_pulled_at)

-- The pull has come to its end: it has applied all its pages, or it has failed and then keeps the
-- cursor that it began with.
abbrev pub HasEnded : (ℕ → ℕ → Option Page) → ℕ → ℕ → ℕ → Local → Pulled → Type 0
HasEnded server round cursor start before (finished after) =
    HasApplied server round cursor before after
HasEnded server round cursor start before (failed after) = after.last_pulled_at ≡ start
HasEnded server round cursor start before (out_of_fuel after) = ⊥

-- A page more, before the others.
HasEnded-cons :
    (server : ℕ → ℕ → Option Page) (round cursor next start : ℕ) (s : Local) (p : Page) (r : Pulled)
    → server round cursor ≡ some p
    → next_round cursor p ≡ some next
    → HasEnded server (suc round) next start (apply_page p s) r
    → HasEnded server round cursor start s r
HasEnded-cons server round cursor next start s p (finished after) a q ([], none_read, t, l) =
    absurd none_read
HasEnded-cons server round cursor next start s p (finished after) a q (p' ∷ ps, read, t, l) =
    (p ∷ p' ∷ ps, (a, next, q, read), t, l)
HasEnded-cons server round cursor next start s p (failed after) a q h = h
HasEnded-cons server round cursor next start s p (out_of_fuel after) a q h = h

cursor_of-bounded :
    (bound : ℕ) (c : TableChanges) (o : Option ℕ)
    → at_most bound o ≡ true
    → at_most bound (cursor_of c o) ≡ true
cursor_of-bounded bound c none h = refl
cursor_of-bounded bound c (some cursor) h = ground arith

smaller-bounded :
    (bound : ℕ) (a b : Option ℕ)
    → at_most bound a ≡ true
    → at_most bound b ≡ true
    → at_most bound (smaller a b) ≡ true
smaller-bounded bound none b h k = k
smaller-bounded bound (some a) none h k = h
smaller-bounded bound (some a) (some b) h k = ground arith

smallest_cursor-bounded :
    (bound : ℕ) (changes : List (String × TableChanges))
    → bounded bound changes ≡ true
    → at_most bound (smallest_cursor changes) ≡ true
smallest_cursor-bounded bound [] h = refl
smallest_cursor-bounded bound ((name, c) ∷ changes) h = ground (
  arith,
  cursor_of-bounded bound c c.next_cursor,
  smallest_cursor-bounded bound changes,
  smaller-bounded bound (cursor_of c c.next_cursor) (smallest_cursor changes),
)

advancing :
    (bound cursor next : ℕ) (o : Option ℕ)
    → at_most bound o ≡ true
    → if_advancing cursor o ≡ some next
    → (cursor < next) × (next ≤ bound)
advancing bound cursor next none h e = ground arith
advancing bound cursor next (some c) h e = ground arith

-- No page of the server has a cursor above the bound.
abbrev pub IsBounded : (ℕ → ℕ → Option Page) → ℕ → Type 0
IsBounded server bound = (round cursor : ℕ) → answer_bounded bound (server round cursor) ≡ true

next_round_lem :
    (cursor : ℕ) (p : Page) → next_round cursor p ≡ if_advancing cursor (smallest_cursor p.changes)
unfolding next_round
next_round_lem cursor p = refl

-- A round that goes on, if it does, with `k`.
module _ (server : ℕ → ℕ → Option Page) (bound round cursor start : ℕ) (k : ℕ → Local → Pulled)
    (k-ends : (next : ℕ) (s : Local)
      → cursor < next
      → next ≤ bound
      → s.last_pulled_at ≡ start
      → HasEnded server (suc round) next start s (k next s)) where
  next-HasEnded :
      (s : Local) (p : Page) (o : Option ℕ)
      → server round cursor ≡ some p
      → bounded bound p.changes ≡ true
      → next_round cursor p ≡ o
      → s.last_pulled_at ≡ start
      → HasEnded server round cursor start s (elim o [
        | none ↦ finished (commit p.timestamp (apply_page p s))
        | some next ↦ k next (apply_page p s)
      ])
  next-HasEnded s p none a b q e = (p ∷ [], (a, q), refl, refl)
  next-HasEnded s p (some next) a b q e =
      let (more, few) =
        advancing bound cursor next (smallest_cursor p.changes)
          (smallest_cursor-bounded bound p.changes b) (sym (next_round_lem cursor p) ∙ q) in
      HasEnded-cons server round cursor next start s p (k next (apply_page p s)) a q
        (k-ends next (apply_page p s) more few e)

  page-HasEnded :
      (s : Local) (o : Option Page)
      → server round cursor ≡ o
      → answer_bounded bound o ≡ true
      → s.last_pulled_at ≡ start
      → HasEnded server round cursor start s (elim o [
        | none ↦ failed s
        | some p ↦ elim (next_round cursor p) [
          | none ↦ finished (commit p.timestamp (apply_page p s))
          | some next ↦ k next (apply_page p s)
        ]
      ])
  page-HasEnded s none a b e = e
  page-HasEnded s (some p) a b e = next-HasEnded s p (next_round cursor p) a b refl e

module _ (server : ℕ → ℕ → Option Page) (bound start : ℕ) (h : IsBounded server bound) where
  rounds-HasEnded :
      (n round cursor : ℕ) (s : Local)
      → s.last_pulled_at ≡ start
      → bound < n + cursor
      → HasEnded server round cursor start s (rounds (suc n) server round cursor s)
  unfolding rounds
  rounds-HasEnded zero round cursor s e l =
      page-HasEnded server bound round cursor start
        (λ next t. rounds zero server (suc round) next t)
        (λ next t a b f. absurd (omega (arith, a, b, l))) s (server round cursor) refl
        (h round cursor) e
  rounds-HasEnded (suc n) round cursor s e l =
      page-HasEnded server bound round cursor start
        (λ next t. rounds (suc n) server (suc round) next t)
        (λ next t a b f. rounds-HasEnded n (suc round) next t f (omega (arith, a, b, l))) s
        (server round cursor) refl (h round cursor) e

-- If no page has a cursor above a bound, as many rounds as the bound is above the last pull, and
-- two more, are enough, whatever the server answers to each request. Either the pull finishes: it has
-- read pages until one gives no further cursor, the tables are those at the beginning with the changes
-- of all these pages, one after the other, and the timestamp of the last page is kept; or it fails and
-- has kept the cursor that it began with.
pub pull-HasEnded :
    (server : ℕ → ℕ → Option Page) (bound n : ℕ) (s : Local)
    → IsBounded server bound
    → bound < n + s.last_pulled_at
    → HasEnded server 0 s.last_pulled_at s.last_pulled_at s (pull (suc n) server s)
unfolding pull
pull-HasEnded server bound n s h l =
    rounds-HasEnded server bound s.last_pulled_at h n 0 s.last_pulled_at s refl l
