-- ===== src/Admin/Collect.antt =====
-- The two `collectChanges` (lib/sync/syncEngine.ts, which the push calls, and
-- lib/sync/collectChanges.ts).
pub mod Same
use ylp_software.Base.{
  Bool, true, false, String, Option, none, some, List, [], ◌∷◌, ◌++◌, lookup, insert, string_same,
}
use ylp_software.Admin.Queue.{MutationType, create, update, delete, Payload, Mutation}

pub record Group : Type 0 where
  pub created : List Payload
  pub updated : List Payload
  pub deleted : List Payload

abbrev pub no_group : Group
no_group = record { created = []; updated = []; deleted = [] }

abbrev pub Grouped : Type 0
Grouped = List (String × Group)

-- The `grouped` that lib/sync/syncEngine.ts begins with.
abbrev pub engine_tables : Grouped
engine_tables =
    ("peers", no_group)
    ∷ ("guest_user", no_group)
    ∷ ("conversations", no_group)
    ∷ ("conversation_participants", no_group)
    ∷ ("messages", no_group)
    ∷ ("message_receipts", no_group)
    ∷ ("calls", no_group)
    ∷ ("call_participants", no_group)
    ∷ []

-- The `grouped` that lib/sync/collectChanges.ts begins with.
abbrev pub client_tables : Grouped
client_tables =
    ("messages", no_group)
    ∷ ("conversations", no_group)
    ∷ ("conversation_participants", no_group)
    ∷ ("message_receipts", no_group)
    ∷ ("calls", no_group)
    ∷ ("call_participants", no_group)
    ∷ []

pub data Key : Type 0 where
  created_key updated_key deleted_key : Key

-- `typeMap`
abbrev pub type_map : MutationType → Key
type_map create = created_key
type_map update = updated_key
type_map delete = deleted_key

-- `table[type].push(m.payload)`
abbrev pub push_at : Key → Payload → Group → Group
push_at created_key p g = record g { created = g.created ++ p ∷ [] }
push_at updated_key p g = record g { updated = g.updated ++ p ∷ [] }
push_at deleted_key p g = record g { deleted = g.deleted ++ p ∷ [] }

abbrev pub push_to : Mutation → Option Group → Grouped → Grouped
push_to m none grouped = grouped
push_to m (some g) grouped = insert m.table (push_at (type_map m.type) m.payload g) grouped

abbrev pub engine_loop : Grouped → List Mutation → Grouped
engine_loop grouped [] = grouped
engine_loop grouped (m ∷ queue) = engine_loop (push_to m (lookup m.table grouped) grouped) queue

-- `collectChanges` of lib/sync/syncEngine.ts
unfoldable pub engine_changes : List Mutation → Grouped
engine_changes queue = engine_loop engine_tables queue

-- The `switch` on the type of the mutation.
abbrev pub switch_type : Mutation → MutationType → Group → Group
switch_type m create g = record g { created = g.created ++ m.payload ∷ [] }
switch_type m update g = record g { updated = g.updated ++ m.payload ∷ [] }
switch_type m delete g = record g { deleted = g.deleted ++ m.payload ∷ [] }

abbrev pub switch_to : Mutation → Option Group → Grouped → Grouped
switch_to m none grouped = grouped
switch_to m (some g) grouped = insert m.table (switch_type m m.type g) grouped

abbrev pub client_loop : Grouped → List Mutation → Grouped
client_loop grouped [] = grouped
client_loop grouped (m ∷ queue) = client_loop (switch_to m (lookup m.table grouped) grouped) queue

-- `collectChanges` of lib/sync/collectChanges.ts
unfoldable pub client_changes : List Mutation → Grouped
client_changes queue = client_loop client_tables queue
