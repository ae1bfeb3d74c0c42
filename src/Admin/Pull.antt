-- ===== src/Admin/Pull.antt =====
-- The pull of the admin frontend (`pull` of lib/sync/syncEngine.ts, lib/sync/storage.ts).
pub mod Finishes
use ylp_software.Base.{
  ℕ, zero, suc, min, Bool, true, false, ◌&&◌, String, Option, none, some, List, [], ◌∷◌, ltb,
  if◌then◌else◌,
}
use ylp_software.Admin.Apply.{TableChanges, Tables, apply_changes}

-- The answer to a pull; no answer is a response that is not `ok`.
pub record Page : Type 0 where
  pub changes : List (String × TableChanges)
  pub timestamp : ℕ

-- The local database, and `last_pulled_at` of the storage.
pub record Local : Type 0 where
  pub tables : Tables
  pub last_pulled_at : ℕ

pub data Pulled : Type 0 where
  finished failed out_of_fuel : Local → Pulled

-- `table?.has_more && table?.next_cursor`
abbrev pub cursor_of : TableChanges → Option ℕ → Option ℕ
cursor_of c none = none
cursor_of c (some cursor) = if c.has_more && ltb 0 cursor then some cursor else none

abbrev pub smaller : Option ℕ → Option ℕ → Option ℕ
smaller none b = b
smaller (some a) none = some a
smaller (some a) (some b) = some (min a b)

-- The smallest cursor of the tables that have more rows.
abbrev pub smallest_cursor : List (String × TableChanges) → Option ℕ
smallest_cursor [] = none
smallest_cursor ((name, c) ∷ changes) =
    smaller (cursor_of c c.next_cursor) (smallest_cursor changes)

-- `nextCursor > lastPulledAt`
abbrev pub if_advancing : ℕ → Option ℕ → Option ℕ
if_advancing cursor none = none
if_advancing cursor (some next) = if ltb cursor next then some next else none

-- The cursor of the next round, if there is one.
unfoldable pub next_round : ℕ → Page → Option ℕ
next_round cursor p = if_advancing cursor (smallest_cursor p.changes)

abbrev pub apply_page : Page → Local → Local
apply_page p s = record s { tables = apply_changes p.changes s.tables }

-- `setLastPulledAt`
abbrev pub commit : ℕ → Local → Local
commit timestamp s = record s { last_pulled_at = timestamp }

-- The loop of `pull`: `server` answers the request of a round with its cursor.
unfoldable pub rounds : ℕ → (ℕ → ℕ → Option Page) → ℕ → ℕ → Local → Pulled
unfolding next_round
rounds zero server round cursor s = out_of_fuel s
rounds (suc n) server round cursor s = elim (server round cursor) [
  | none ↦ failed s
  | some p ↦ elim (next_round cursor p) [
    | none ↦ finished (commit p.timestamp (apply_page p s))
    | some next ↦ rounds n server (suc round) next (apply_page p s)
  ]
]

-- `pull`
unfoldable pub pull : ℕ → (ℕ → ℕ → Option Page) → Local → Pulled
unfolding rounds
pull n server s = rounds n server 0 s.last_pulled_at s
