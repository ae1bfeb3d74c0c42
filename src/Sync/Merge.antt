-- ===== src/Sync/Merge.antt =====
-- `mergeById` and `mergeDeleted` of `SyncService.pullFromServer`: pages are merged table by table,
-- the last version of a record wins.
pub mod Latest
use ylp_software.Base.{
  Bool, not, String, Option, none, some, List, [], ◌∷◌, ◌++◌, map, filter, add, insert, is_some,
  string_same,
}

module _ {A : Type 0} (id_of : A → Option String) where
  -- `if (item.id !== undefined) map.set(item.id, item)`
  abbrev pub set_under : Option String → A → List (String × A) → List (String × A)
  set_under none x m = m
  set_under (some k) x m = insert k x m

  abbrev pub set_item : List (String × A) → A → List (String × A)
  set_item m x = set_under (id_of x) x m

  unfoldable pub set_items : List (String × A) → List A → List (String × A)
  set_items m [] = m
  set_items m (x ∷ xs) = set_items (set_item m x) xs

  abbrev pub has_no_id : A → Bool
  has_no_id x = not (is_some (id_of x))

  abbrev pub values : List (String × A) → List A
  values [] = []
  values ((k, x) ∷ m) = x ∷ values m

  unfoldable pub merge_by_id : List A → List A → List A
  merge_by_id base incoming =
      filter has_no_id base ++ values (set_items (set_items [] base) incoming)

-- `[...new Set([...base, ...incoming])]`
unfoldable pub add_all : List String → List String → List String
add_all s [] = s
add_all s (x ∷ xs) = add_all (add s x) xs

unfoldable pub merge_deleted : List String → List String → List String
unfolding add_all
merge_deleted base incoming = add_all [] (base ++ incoming)
