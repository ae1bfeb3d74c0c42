-- ===== src/Sync/Pull/Pages.antt =====
-- What a pull returns, in terms of the pages that the server answered.
use ylp_software.Base.{
  ℕ, zero, suc, ◌≡◌, Option, none, some, List, [], ◌∷◌, arith, get_or_else, ◌<|>◌, Option-cases,
  inl, inr,
}
use ylp_software.Sync.Records.{Changes, Page}
use ylp_software.Sync.Pull.{merge_page, next_cursor, Server, pull_pages}

abbrev pub merge_all : Changes → List Page → Changes
merge_all acc [] = acc
merge_all acc (p ∷ ps) = merge_all (merge_page acc p) ps

abbrev pub head_timestamp : List Page → Option ℕ
head_timestamp [] = none
head_timestamp (p ∷ ps) = some p.timestamp

module _ (server : Server) (ver : ℕ) where
  -- The pages that a pull with `n` rounds left fetches, oldest first.
  unfoldable pub fetched : ℕ → ℕ → ℕ → Option (List Page)
  fetched zero i cursor = some []
  fetched (suc n) i cursor = elim (server i cursor ver) [
    | none ↦ none
    | some page ↦ elim (next_cursor page) [
      | none ↦ some (page ∷ [])
      | some c ↦ elim (fetched n (suc i) c) [ none ↦ none | some ps ↦ some (page ∷ ps) ]
    ]
  ]

  pub pull_pages-fetched :
      (n i cursor : ℕ) (ts : Option ℕ) (acc : Changes)
      → pull_pages server ver n i cursor ts acc ≡ elim (fetched n i cursor) [
        | none ↦ none
        | some ps ↦ some (merge_all acc ps, ts <|> head_timestamp ps)
      ]
  unfolding pull_pages fetched
  pull_pages-fetched zero i cursor ts acc = ground arith
  pull_pages-fetched (suc n) i cursor ts acc = elim (Option-cases (server i cursor ver)) [
    | inl e ↦ rw (e, pull_pages, fetched)
    | inr (page, e) ↦ elim (Option-cases (next_cursor page)) [
      | inl stop ↦ ground arith
      | inr (c, more) ↦ ground (
        arith,
        pull_pages-fetched n (suc i) c (some (get_or_else ts page.timestamp)) (merge_page acc page),
      )
    ]
  ]
