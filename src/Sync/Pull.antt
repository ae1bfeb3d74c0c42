-- ===== src/Sync/Pull.antt =====
-- `SyncService.pullFromServer` (sync-service.ts): pages are fetched with a moving cursor and merged.
pub mod Pages
pub mod Versions
pub mod Laws
use ylp_software.Base.{
  ℕ, zero, suc, min, Bool, true, false, String, Option, none, some, List, [], ◌∷◌, get_or_else,
}
use ylp_software.Sync.Records.{EntityPage, EntityChanges, Changes, no_changes, Page}
use ylp_software.Sync.Merge.{merge_by_id, merge_deleted}

-- The body of the loop over `entities`.
unfoldable pub merge_entity :
    {A : Type 0} → (A → Option String) → EntityChanges A → EntityPage A → EntityChanges A
merge_entity id_of acc pe = record {
  created = merge_by_id id_of acc.created pe.created;
  updated = merge_by_id id_of acc.updated pe.updated;
  deleted = merge_deleted acc.deleted pe.deleted;
}

unfoldable pub merge_page : Changes → Page → Changes
unfolding merge_entity
merge_page acc page = record {
  conversations = merge_entity (λ r. r.id) acc.conversations page.conversations;
  conversation_participants =
      merge_entity (λ r. r.id) acc.conversation_participants page.conversation_participants;
  messages = merge_entity (λ r. r.id) acc.messages page.messages;
  calls = merge_entity (λ r. r.id) acc.calls page.calls;
  call_participants = merge_entity (λ r. r.id) acc.call_participants page.call_participants;
  message_receipts = merge_entity (λ r. r.id) acc.message_receipts page.message_receipts;
}

-- Where one table of a page stands: `has_more` and `next_cursor`.
pub record Paging : Type 0 where
  pub has_more : Bool
  pub next_cursor : Option ℕ

abbrev pub paging : {A : Type 0} → EntityPage A → Paging
paging p = record { has_more = p.has_more; next_cursor = p.next_cursor }

abbrev pub pagings : Page → List Paging
pagings page =
    paging page.conversations
    ∷ paging page.conversation_participants
    ∷ paging page.messages
    ∷ paging page.calls
    ∷ paging page.call_participants
    ∷ paging page.message_receipts
    ∷ []

-- `hasMoreEntities.map(next_cursor).filter(c !== null)`
abbrev pub cons_cursor : Bool → Option ℕ → List ℕ → List ℕ
cons_cursor false c rest = rest
cons_cursor true none rest = rest
cons_cursor true (some c) rest = c ∷ rest

abbrev pub next_cursors : List Paging → List ℕ
next_cursors [] = []
next_cursors (p ∷ ps) = cons_cursor p.has_more p.next_cursor (next_cursors ps)

abbrev pub minimum : ℕ → List ℕ → ℕ
minimum m [] = m
minimum m (x ∷ xs) = minimum (min m x) xs

-- The cursor of the next round; `none` where the loop breaks, because no table has more or
-- because none of those has a cursor.
unfoldable pub next_cursor : Page → Option ℕ
next_cursor page = elim (next_cursors (pagings page)) [ [] ↦ none | c ∷ cs ↦ some (minimum c cs) ]

abbrev pub max_iterations : ℕ
max_iterations = 50

-- `syncApi`: the answer to the i-th request, with its cursor and schema version; `none` where the
-- call throws.
abbrev pub Server : Type 0
Server = ℕ → ℕ → ℕ → Option Page

module _ (server : Server) (schema_version : ℕ) where
  -- The loop, with the rounds that are left, and `i` requests made.
  unfoldable pub pull_pages : ℕ → ℕ → ℕ → Option ℕ → Changes → Option (Changes × Option ℕ)
  unfolding merge_page next_cursor
  pull_pages zero i cursor final_timestamp merged = some (merged, final_timestamp)
  pull_pages (suc n) i cursor final_timestamp merged = elim (server i cursor schema_version) [
    | none ↦ none
    | some page ↦
        let final = some (get_or_else final_timestamp page.timestamp) in
        let merged' = merge_page merged page in
        elim (next_cursor page) [
          | none ↦ some (merged', final)
          | some c ↦ pull_pages n (suc i) c final merged'
        ]
  ]

  unfoldable pub pull_from_server : Option ℕ → Option (Changes × ℕ)
  pull_from_server last_pulled_at =
      elim (pull_pages max_iterations 0 (get_or_else last_pulled_at 0) none no_changes) [
        | none ↦ none
        | some (merged, final) ↦ some (merged, get_or_else final 0)
      ]
