-- ===== src/Admin/Tests.antt =====
-- The theorems on the admin frontend, applied to concrete queues and servers.
use ylp_software.Base.{
  ◌≡◌, refl, ℕ, true, String, Option, none, some, List, [], ◌∷◌, contains, lookup, string_same,
  if◌then◌else◌, arith,
}
use ylp_software.Admin.Queue.{update, create, Mutation, failed, pushed_ids, add_all, push}
use ylp_software.Admin.Queue.Pending.{pending, settled, push-pending}
use ylp_software.Admin.Collect.{client_changes, engine_changes}
use ylp_software.Admin.Collect.Same.{changes_of, client-engine}
use ylp_software.Admin.Apply.{Row, Table, TableChanges, apply_table_changes}
use ylp_software.Admin.Apply.Rows.{view_of, put_views, update_views, apply_table_changes-lookup}
use ylp_software.Admin.Pull.{Page, Local, pull}
use ylp_software.Admin.Pull.Finishes.{HasEnded, pull-HasEnded}

abbrev rename : String → Mutation
rename id = record {
  id = id;
  table = "messages";
  type = update;
  payload = record { id = "row"; body = "text" };
  created_at = 7;
  retries = 0;
}

abbrev queued : List Mutation
queued = rename "a" ∷ record (rename "b") { table = "calls" } ∷ []

abbrev during : List Mutation
during = rename "c" ∷ record (rename "d") { type = create } ∷ []

push-pending_example : pending (push failed during queued) "a" ≡ (
    if contains "a" (pushed_ids queued)
    then settled failed (pending queued "a")
    else pending (add_all during queued) "a")
push-pending_example = push-pending failed during queued "a"

client-engine_example :
    (lookup "calls" (client_changes queued) ≡ some (changes_of "calls" queued))
    × (lookup "calls" (engine_changes queued) ≡ some (changes_of "calls" queued))
client-engine_example = client-engine queued "calls" refl

abbrev row : ℕ → Row
row time = record { id = "row"; updated_at = some time; columns = ("title", "x") ∷ [] }

abbrev changes : TableChanges
changes = record {
  created = [];
  updated = row 3 ∷ row 9 ∷ [];
  deleted = "gone" ∷ [];
  has_more = true;
  next_cursor = some 40;
}

abbrev table : Table
table = ("row", row 5) ∷ ("gone", row 5) ∷ []

apply_table_changes-lookup_example :
    view_of "title" (lookup "row" (apply_table_changes changes table)) ≡ (
      if contains "row" changes.deleted
      then none
      else update_views "title" "row" changes.updated
          (put_views "title" "row" changes.created (view_of "title" (lookup "row" table))))
apply_table_changes-lookup_example = apply_table_changes-lookup changes table "row" "title"

abbrev local : Local
local = record {
  tables = record {
    conversations = [];
    messages = table;
    conversation_participants = [];
    calls = [];
    message_receipts = [];
  };
  last_pulled_at = 30;
}

-- Every page has the same cursor.
abbrev server : ℕ → ℕ → Option Page
server round cursor = some (record { changes = ("messages", changes) ∷ []; timestamp = 50 })

pull-HasEnded_example : HasEnded server 0 30 30 local (pull 12 server local)
pull-HasEnded_example = pull-HasEnded server 40 11 local (λ round cursor. refl) (omega arith)
