-- ===== src/Sync/Pull/Laws.antt =====
-- A whole pull (`pullFromServer`): what it returns, how many pages it reads, and where it stops.
use ylp_software.Base.{
  ℕ, zero, suc, ◌≡◌, refl, ◌≢◌, Option, none, some, List, [], ◌∷◌, arith, length, get_or_else,
  Option-cases, inl, inr,
}
use ylp_software.Sync.Records.{Changes, no_changes, Page}
use ylp_software.Sync.Pull.{next_cursor, max_iterations, Server, pull_from_server}
use ylp_software.Sync.Pull.Pages.{merge_all, head_timestamp, fetched, pull_pages-fetched}

-- The last page that was read.
abbrev pub last_page : List Page → Option Page
last_page [] = none
last_page (p ∷ []) = some p
last_page (p ∷ q ∷ ps) = last_page (q ∷ ps)

last_page-cons : (p q : Page) (ps : List Page) → last_page ps ≡ some q → last_page (p ∷ ps) ≡ some q
last_page-cons p q [] e = absurd (ground arith)
last_page-cons p q (x ∷ ps) e = e

module _ (server : Server) (ver : ℕ) where
  fetched-nonempty :
      (n i cursor : ℕ) (ps : List Page)
      → fetched server ver (suc n) i cursor ≡ some ps
      → (ts : ℕ) × (head_timestamp ps ≡ some ts)
  unfolding fetched
  fetched-nonempty n i cursor ps e = elim (Option-cases (server i cursor ver)) [
    | inl no_answer ↦ absurd (ground arith)
    | inr (page, answer) ↦ (page.timestamp, ground arith)
  ]

  -- No table ever runs out of pages.
  abbrev pub IsEndless : Type 0
  IsEndless = (i cursor : ℕ) → (p : Page) × (server i cursor ver ≡ some p) × (next_cursor p ≢ none)

  fetched-IsEndless :
      IsEndless
      → (n i cursor : ℕ)
      → (ps : List Page) × (fetched server ver (suc n) i cursor ≡ some ps)
        × (length ps ≡ suc n)
        × (p : Page) × (last_page ps ≡ some p)
        × (next_cursor p ≢ none)
  unfolding fetched
  fetched-IsEndless endless zero i cursor =
      let (p, answer, more) = endless i cursor in
      elim (Option-cases (next_cursor p)) [
        | inl stop ↦ absurd (more stop)
        | inr (c, e) ↦ (p ∷ [], ground arith, refl, p, refl, more)
      ]
  fetched-IsEndless endless (suc n) i cursor =
      let (p, answer, more) = endless i cursor in
      elim (Option-cases (next_cursor p)) [
        | inl stop ↦ absurd (more stop)
        | inr (c, e) ↦
            let (ps, read, size, q, end, more') = fetched-IsEndless endless n (suc i) c in
            (p ∷ ps, ground arith, omega arith, q, last_page-cons p q ps end, more')
      ]

  -- Where the server always has another page, the pull still returns: after exactly 50 pages, of
  -- which the last announces more, and with the timestamp of the first page.
  pub pull_from_server-IsEndless :
      IsEndless
      → (last_pulled_at : Option ℕ)
      → (pages : List Page) × (merged : Changes) × (timestamp : ℕ) × (pull_from_server server ver
            last_pulled_at
          ≡ some (merged, timestamp))
        × (fetched server ver max_iterations 0 (get_or_else last_pulled_at 0) ≡ some pages)
        × (length pages ≡ max_iterations)
        × (head_timestamp pages ≡ some timestamp)
        × (p : Page) × (last_page pages ≡ some p)
        × (next_cursor p ≢ none)
  unfolding pull_from_server
  pull_from_server-IsEndless endless last =
      let start = get_or_else last 0 in
      let same = pull_pages-fetched server ver max_iterations 0 start none no_changes in
      let (pages, read, size, q, end, more) = fetched-IsEndless endless 49 0 start in
      let (first, head) = fetched-nonempty 49 0 start pages read in
      (
        pages,
        merge_all no_changes pages,
        first,
        ground (arith, same),
        read,
        size,
        head,
        q,
        end,
        more,
      )
