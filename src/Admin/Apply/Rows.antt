-- ===== src/Admin/Apply/Rows.antt =====
-- The rows of a table are changed independently of each other.
use ylp_software.Base.{
  ℕ, zero, suc, ltb, Bool, true, false, ◌<|>◌, Bool-cases, inl, inr, ◌≡◌, refl, ap, ◌∙◌, String,
  Option, none, some, List, [], ◌∷◌, arith, contains, lookup, insert, erase, lookup-insert,
  lookup-erase, string_same, ◌==◌, if◌then◌else◌,
}
use ylp_software.Admin.Apply.{
  Row, Table, TableChanges, is_older, merge_columns, merge_rows, updated_row, bulk_put,
  update_existing, update_all, bulk_delete, apply_table_changes,
}

-- What the created rows and the updated rows with an id make of the row with that id.
abbrev pub put_row : String → List Row → Option Row → Option Row
put_row id [] r = r
put_row id (row ∷ rows) r = put_row id rows (if row.id == id then some row else r)

abbrev pub update_row : String → List Row → Option Row → Option Row
update_row id [] r = r
update_row id (row ∷ rows) r =
    update_row id rows (if row.id == id then some (updated_row row r) else r)

lookup-bulk_put :
    (id : String) (rows : List Row) (t : Table)
    → lookup id (bulk_put rows t) ≡ put_row id rows (lookup id t)
lookup-bulk_put id [] t = refl
lookup-bulk_put id (row ∷ rows) t =
    lookup-bulk_put id rows (insert row.id row t)
    ∙ ap (put_row id rows) (lookup-insert row.id id row t)

lookup-update_existing :
    (id : String) (row : Row) (t : Table) (o : Option Row)
    → lookup row.id t ≡ o
    → lookup id (update_existing row o t)
      ≡ (if row.id == id then some (updated_row row (lookup id t)) else lookup id t)
lookup-update_existing id row t none h =
    ground (arith, string_same.same_iff row.id id, lookup-insert row.id id row t)
lookup-update_existing id row t (some existing) h =
    ground
      (arith, string_same.same_iff row.id id, lookup-insert row.id id (merge_rows existing row) t)

lookup-update_all :
    (id : String) (rows : List Row) (t : Table)
    → lookup id (update_all rows t) ≡ update_row id rows (lookup id t)
lookup-update_all id [] t = refl
lookup-update_all id (row ∷ rows) t =
    lookup-update_all id rows (update_existing row (lookup row.id t) t)
    ∙ ap (update_row id rows) (lookup-update_existing id row t (lookup row.id t) refl)

lookup-bulk_delete :
    (id : String) (ids : List String) (t : Table)
    → lookup id (bulk_delete ids t) ≡ (if contains id ids then none else lookup id t)
lookup-bulk_delete id [] t = refl
lookup-bulk_delete id (k ∷ ids) t =
    ground (arith, lookup-bulk_delete id ids (erase k t), lookup-erase k id t)

lookup-apply_table_changes :
    (c : TableChanges) (t : Table) (id : String)
    → lookup id (apply_table_changes c t) ≡ (
        if contains id c.deleted
        then none
        else update_row id c.updated (put_row id c.created (lookup id t)))
unfolding apply_table_changes
lookup-apply_table_changes c t id =
    lookup-bulk_delete id c.deleted (update_all c.updated (bulk_put c.created t))
    ∙ ap (λ r. if contains id c.deleted then none else r)
        (lookup-update_all id c.updated (bulk_put c.created t)
          ∙ ap (update_row id c.updated) (lookup-bulk_put id c.created t))

-- What is seen of a row: its `id`, its `updated_at` and one of its other columns.
abbrev pub View : Type 0
View = String × Option ℕ × Option String

abbrev pub view : String → Row → View
view column row = (row.id, row.updated_at, lookup column row.columns)

abbrev pub view_of : String → Option Row → Option View
view_of column none = none
view_of column (some row) = some (view column row)

-- Both times are known and not zero, and that of the update is the smaller.
abbrev pub is_outdated : Option ℕ → Option ℕ → Bool
is_outdated (some (suc a)) (some (suc b)) = ltb a b
is_outdated a b = false

-- The last value that these columns have under a name.
abbrev pub last_value : String → List (String × String) → Option String
last_value column [] = none
last_value column ((k, v) ∷ columns) =
    let rest = last_value column columns in rest <|> (if k == column then some v else none)

-- An update is the row where there is none; it leaves a row as it is that it is outdated for; and
-- otherwise its `updated_at` and the column replace those of the row, if it has them.
abbrev pub update_view : String → Row → Option View → View
update_view column row none = view column row
update_view column row (some (id, time, value)) =
    if is_outdated row.updated_at time
    then (id, time, value)
    else (row.id, row.updated_at <|> time, last_value column row.columns <|> value)

-- What is seen under an id after the created rows, and after the updates, in their order.
abbrev pub put_views : String → String → List Row → Option View → Option View
put_views column id [] v = v
put_views column id (row ∷ rows) v =
    put_views column id rows (if row.id == id then some (view column row) else v)

abbrev pub update_views : String → String → List Row → Option View → Option View
update_views column id [] v = v
update_views column id (row ∷ rows) v =
    update_views column id rows (if row.id == id then some (update_view column row v) else v)

view_of-if :
    (column : String) (b : Bool) (row : Row) (o : Option Row)
    → view_of column (if b then some row else o)
      ≡ (if b then some (view column row) else view_of column o)
view_of-if column true row o = refl
view_of-if column false row o = refl

view_of-unless :
    (column : String) (b : Bool) (o : Option Row)
    → view_of column (if b then none else o) ≡ (if b then none else view_of column o)
view_of-unless column true o = refl
view_of-unless column false o = refl

is_older_lem : (a b : Option ℕ) → is_older a b ≡ is_outdated a b
is_older_lem none b = refl
is_older_lem (some zero) none = refl
is_older_lem (some (suc a)) none = refl
is_older_lem (some zero) (some b) = ground arith
is_older_lem (some (suc a)) (some zero) = ground arith
is_older_lem (some (suc a)) (some (suc b)) = ground arith

lookup-merge_columns :
    (column : String) (existing columns : List (String × String))
    → lookup column (merge_columns existing columns)
      ≡ (last_value column columns <|> lookup column existing)
lookup-merge_columns column existing [] = refl
lookup-merge_columns column existing ((k, v) ∷ columns) = ground (
  arith,
  lookup-merge_columns column (insert k v existing) columns,
  lookup-insert k column v existing,
)

view-updated_row :
    (column : String) (row : Row) (o : Option Row)
    → view column (updated_row row o) ≡ update_view column row (view_of column o)
view-updated_row column row none = refl
view-updated_row column row (some existing) =
    elim (Bool-cases (is_older row.updated_at existing.updated_at)) [
      | inl older ↦ ground (arith, older, is_older_lem row.updated_at existing.updated_at)
      | inr newer ↦ ground (
        arith,
        newer,
        is_older_lem row.updated_at existing.updated_at,
        lookup-merge_columns column existing.columns row.columns,
      )
    ]

view-put_row :
    (column id : String) (rows : List Row) (o : Option Row)
    → view_of column (put_row id rows o) ≡ put_views column id rows (view_of column o)
view-put_row column id [] o = refl
view-put_row column id (row ∷ rows) o =
    view-put_row column id rows (if row.id == id then some row else o)
    ∙ ap (put_views column id rows) (view_of-if column (row.id == id) row o)

view-update_row :
    (column id : String) (rows : List Row) (o : Option Row)
    → view_of column (update_row id rows o) ≡ update_views column id rows (view_of column o)
view-update_row column id [] o = refl
view-update_row column id (row ∷ rows) o =
    view-update_row column id rows (if row.id == id then some (updated_row row o) else o)
    ∙ ap (update_views column id rows) (
        view_of-if column (row.id == id) (updated_row row o) o
        ∙ ap (λ v. if row.id == id then some v else view_of column o)
            (view-updated_row column row o))

-- The changes of a table act on each row by itself, in this order, as its `updated_at` and any column
-- of it show: the created rows with its id take its place; then each updated one becomes the row where
-- there is none, is left out where both have an `updated_at` that is not zero and the updated one's is
-- the smaller, and otherwise puts its `updated_at` and the column over those of the row, if it has
-- them; and there is no row for a deleted id.
pub apply_table_changes-lookup :
    (c : TableChanges) (t : Table) (id column : String)
    → view_of column (lookup id (apply_table_changes c t)) ≡ (
        if contains id c.deleted
        then none
        else update_views column id c.updated
            (put_views column id c.created (view_of column (lookup id t))))
apply_table_changes-lookup c t id column =
    ap (view_of column) (lookup-apply_table_changes c t id)
    ∙ view_of-unless column (contains id c.deleted)
        (update_row id c.updated (put_row id c.created (lookup id t)))
    ∙ ap (λ v. if contains id c.deleted then none else v)
        (view-update_row column id c.updated (put_row id c.created (lookup id t))
          ∙ ap (update_views column id c.updated) (view-put_row column id c.created (lookup id t)))
