-- ===== src/Admin/Apply.antt =====
-- The changes of a pull on the local tables (lib/sync/applyChanges.ts). A table is a map from ids to
-- rows; a row that `put` gives an id that is there takes its place.
pub mod Rows
use ylp_software.Base.{
  ℕ, Bool, true, false, not, ◌&&◌, String, Option, none, some, List, [], ◌∷◌, ltb, lookup, insert,
  erase, ◌<|>◌, string_same, if◌then◌else◌,
}

-- A row: its `id`, its `updated_at` if it has one, and the other columns.
pub record Row : Type 0 where
  pub id : String
  pub updated_at : Option ℕ
  pub columns : List (String × String)

abbrev pub Table : Type 0
Table = List (String × Row)

pub record TableChanges : Type 0 where
  pub created : List Row
  pub updated : List Row
  pub deleted : List String
  pub has_more : Bool
  pub next_cursor : Option ℕ

-- `record.updated_at && existing.updated_at && record.updated_at < existing.updated_at`
abbrev pub is_older : Option ℕ → Option ℕ → Bool
is_older none b = false
is_older (some a) none = false
is_older (some a) (some b) = ltb 0 a && ltb 0 b && ltb a b

abbrev pub merge_columns : List (String × String) → List (String × String) → List (String × String)
merge_columns existing [] = existing
merge_columns existing ((k, v) ∷ columns) = merge_columns (insert k v existing) columns

-- `{ ...existing, ...record }`
abbrev pub merge_rows : Row → Row → Row
merge_rows existing row = record {
  id = row.id;
  updated_at = row.updated_at <|> existing.updated_at;
  columns = merge_columns existing.columns row.columns;
}

-- The row that an updated one leaves.
abbrev pub updated_row : Row → Option Row → Row
updated_row row none = row
updated_row row (some existing) =
    if is_older row.updated_at existing.updated_at then existing else merge_rows existing row

-- `bulkPut`
abbrev pub bulk_put : List Row → Table → Table
bulk_put [] t = t
bulk_put (row ∷ rows) t = bulk_put rows (insert row.id row t)

abbrev pub update_existing : Row → Option Row → Table → Table
update_existing row none t = insert row.id row t
update_existing row (some existing) t =
    if is_older row.updated_at existing.updated_at
    then t
    else insert row.id (merge_rows existing row) t

abbrev pub update_all : List Row → Table → Table
update_all [] t = t
update_all (row ∷ rows) t = update_all rows (update_existing row (lookup row.id t) t)

-- `bulkDelete`
abbrev pub bulk_delete : List String → Table → Table
bulk_delete [] t = t
bulk_delete (id ∷ ids) t = bulk_delete ids (erase id t)

-- `applyTableChanges`
unfoldable pub apply_table_changes : TableChanges → Table → Table
apply_table_changes c t = bulk_delete c.deleted (update_all c.updated (bulk_put c.created t))

-- The tables of the local database that the changes are applied to.
pub record Tables : Type 0 where
  pub conversations : Table
  pub messages : Table
  pub conversation_participants : Table
  pub calls : Table
  pub message_receipts : Table

abbrev pub apply_to : Option TableChanges → Table → Table
apply_to none t = t
apply_to (some c) t = apply_table_changes c t

-- `applyChanges`, of the changes by the name of their table.
unfoldable pub apply_changes : List (String × TableChanges) → Tables → Tables
unfolding apply_table_changes
apply_changes changes t = record {
  conversations = apply_to (lookup "conversations" changes) t.conversations;
  messages = apply_to (lookup "messages" changes) t.messages;
  conversation_participants =
      apply_to (lookup "conversation_participants" changes) t.conversation_participants;
  calls = apply_to (lookup "calls" changes) t.calls;
  message_receipts = apply_to (lookup "message_receipts" changes) t.message_receipts;
}
