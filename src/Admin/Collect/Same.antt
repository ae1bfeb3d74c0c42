-- ===== src/Admin/Collect/Same.antt =====
-- The two `collectChanges` and the filters of the queue that they compute.
use ylp_software.Base.{
  ◌≡◌, refl, ap, sym, ◌∙◌, Bool, true, false, ◌&&◌, String, Option, none, some, List, [], ◌∷◌, ◌++◌,
  map, filter, contains, lookup, insert, lookup-insert, string_same, ◌==◌, if◌then◌else◌, arith,
}
use ylp_software.Admin.Queue.{MutationType, create, update, delete, Payload, Mutation, same_type}
use ylp_software.Admin.Collect.{
  Group, no_group, Grouped, push_to, push_at, type_map, engine_tables, engine_loop, engine_changes,
  switch_type, switch_to, client_tables, client_loop, client_changes,
}

abbrev pub is_of : String → MutationType → Mutation → Bool
is_of table type m = m.table == table && same_type m.type type

abbrev pub payloads : String → MutationType → List Mutation → List Payload
payloads table type queue = map (λ m. m.payload) (filter (is_of table type) queue)

-- The changes of a table, in the order of the queue.
unfoldable pub changes_of : String → List Mutation → Group
changes_of table queue = record {
  created = payloads table create queue;
  updated = payloads table update queue;
  deleted = payloads table delete queue;
}

abbrev merge : Group → Group → Group
merge g h = record {
  created = g.created ++ h.created;
  updated = g.updated ++ h.updated;
  deleted = g.deleted ++ h.deleted;
}

abbrev merged : Option Group → Group → Option Group
merged none h = none
merged (some g) h = some (merge g h)

push-switch :
    (m : Mutation) (type : MutationType) (g : Group)
    → push_at (type_map type) m.payload g ≡ switch_type m type g
push-switch m create g = refl
push-switch m update g = refl
push-switch m delete g = refl

push_to-switch_to :
    (m : Mutation) (o : Option Group) (grouped : Grouped)
    → push_to m o grouped ≡ switch_to m o grouped
push_to-switch_to m none grouped = refl
push_to-switch_to m (some g) grouped = ap (λ h. insert m.table h grouped) (push-switch m m.type g)

loops-same :
    (grouped : Grouped) (queue : List Mutation)
    → engine_loop grouped queue ≡ client_loop grouped queue
loops-same grouped [] = refl
loops-same grouped (m ∷ queue) =
    ap (λ g. engine_loop g queue) (push_to-switch_to m (lookup m.table grouped) grouped)
    ∙ loops-same (switch_to m (lookup m.table grouped) grouped) queue

append_assoc : {A : Type 0} (xs ys zs : List A) → xs ++ ys ++ zs ≡ xs ++ (ys ++ zs)
append_assoc [] ys zs = refl
append_assoc (x ∷ xs) ys zs = ap (λ r. x ∷ r) (append_assoc xs ys zs)

append-nil : {A : Type 0} (xs : List A) → xs ++ [] ≡ xs
append-nil [] = refl
append-nil (x ∷ xs) = ap (λ r. x ∷ r) (append-nil xs)

abbrev group : List Payload → List Payload → List Payload → Group
group c u d = record { created = c; updated = u; deleted = d }

group-same :
    (c c' u u' d d' : List Payload) → c ≡ c' → u ≡ u' → d ≡ d' → group c u d ≡ group c' u' d'
group-same c c' u u' d d' p q r =
    ap (λ x. group x u d) p ∙ ap (λ x. group c' x d) q ∙ ap (λ x. group c' u' x) r

merged-no_group : (o : Option Group) → o ≡ merged o no_group
merged-no_group none = refl
merged-no_group (some g) = ap some (
    group-same g.created (g.created ++ []) g.updated (g.updated ++ []) g.deleted (g.deleted ++ [])
      (sym (append-nil g.created)) (sym (append-nil g.updated)) (sym (append-nil g.deleted)))

abbrev to_payloads : List Mutation → List Payload
to_payloads queue = map (λ m. m.payload) queue

abbrev taken : Bool → MutationType → MutationType → Mutation → List Mutation → List Payload
taken b type wanted m queue = to_payloads (if b && same_type type wanted then m ∷ queue else queue)

-- One mutation more, of the table or not.
merge-step :
    (b : Bool) (type : MutationType) (m : Mutation) (g : Group) (c u d : List Mutation)
    → merge
        (if b then switch_type m type g else g)
        (group (to_payloads c) (to_payloads u) (to_payloads d))
      ≡ merge g
          (group (taken b type create m c) (taken b type update m u) (taken b type delete m d))
merge-step false type m g c u d = refl
merge-step true create m g c u d =
    ap (λ x. group x (g.updated ++ to_payloads u) (g.deleted ++ to_payloads d))
      (append_assoc g.created (m.payload ∷ []) (to_payloads c))
merge-step true update m g c u d =
    ap (λ x. group (g.created ++ to_payloads c) x (g.deleted ++ to_payloads d))
      (append_assoc g.updated (m.payload ∷ []) (to_payloads u))
merge-step true delete m g c u d =
    ap (λ x. group (g.created ++ to_payloads c) (g.updated ++ to_payloads u) x)
      (append_assoc g.deleted (m.payload ∷ []) (to_payloads d))

abbrev after : String → Mutation → Option Group → Option Group
after table m none = none
after table m (some g) = some (if m.table == table then switch_type m m.type g else g)

lookup-switch_to :
    (table : String) (m : Mutation) (grouped : Grouped) (mine : Option Group)
    → lookup m.table grouped ≡ mine
    → lookup table (switch_to m mine grouped) ≡ after table m (lookup table grouped)
lookup-switch_to table m grouped none h = ground (arith, string_same.same_iff m.table table)
lookup-switch_to table m grouped (some g) h = ground (
  arith,
  string_same.same_iff m.table table,
  lookup-insert m.table table (switch_type m m.type g) grouped,
)

merged-after :
    (table : String) (m : Mutation) (queue : List Mutation) (o : Option Group)
    → merged (after table m o) (changes_of table queue) ≡ merged o (changes_of table (m ∷ queue))
unfolding changes_of
merged-after table m queue none = refl
merged-after table m queue (some g) = ap some (
    merge-step (m.table == table) m.type m g (filter (is_of table create) queue)
      (filter (is_of table update) queue) (filter (is_of table delete) queue))

lookup-loop :
    (table : String) (grouped : Grouped) (queue : List Mutation)
    → lookup table (client_loop grouped queue)
      ≡ merged (lookup table grouped) (changes_of table queue)
unfolding changes_of
lookup-loop table grouped [] = merged-no_group (lookup table grouped)
lookup-loop table grouped (m ∷ queue) =
    lookup-loop table (switch_to m (lookup m.table grouped) grouped) queue
    ∙ ap (λ o. merged o (changes_of table queue))
        (lookup-switch_to table m grouped (lookup m.table grouped) refl)
    ∙ merged-after table m queue (lookup table grouped)

abbrev pub shared_tables : List String
shared_tables =
    "messages" ∷ "conversations" ∷ "conversation_participants" ∷ "message_receipts" ∷ "calls"
    ∷ "call_participants" ∷ []

client-shared :
    (table : String)
    → contains table shared_tables ≡ true
    → lookup table client_tables ≡ some no_group
client-shared table h = ground arith

engine-shared :
    (table : String)
    → contains table shared_tables ≡ true
    → lookup table engine_tables ≡ some no_group
engine-shared table h = ground arith

collected :
    (table : String) (start : Grouped) (queue : List Mutation)
    → lookup table start ≡ some no_group
    → lookup table (client_loop start queue) ≡ some (changes_of table queue)
unfolding changes_of
collected table start queue h =
    lookup-loop table start queue ∙ ap (λ o. merged o (changes_of table queue)) h

-- The two functions that collect the changes of the queue agree on the six tables that both have, and
-- each gives there, for every kind of change, the payloads of the queue's mutations of that table and
-- that kind, in the order of the queue.
pub client-engine :
    (queue : List Mutation) (table : String)
    → contains table shared_tables ≡ true
    → (lookup table (client_changes queue) ≡ some (changes_of table queue))
      × (lookup table (engine_changes queue) ≡ some (changes_of table queue))
unfolding client_changes engine_changes
client-engine queue table h = (
  collected table client_tables queue (client-shared table h),
  ap (λ g. lookup table g) (loops-same engine_tables queue)
      ∙ collected table engine_tables queue (engine-shared table h),
)
