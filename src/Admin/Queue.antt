-- ===== src/Admin/Queue.antt =====
-- The queue of mutations (lib/sync/mutationQueue.ts), and what `push` of lib/sync/syncEngine.ts does to
-- it when the server has answered. The queue is kept under one key of the browser's storage.
pub mod Pending
use ylp_software.Base.{
  ℕ, suc, Bool, true, false, not, ◌&&◌, String, Option, none, some, List, [], ◌∷◌, ◌++◌, map, any,
  filter, contains, string_same, ◌==◌, if◌then◌else◌,
}

pub data MutationType : Type 0 where
  create update delete : MutationType

abbrev pub same_type : MutationType → MutationType → Bool
same_type create create = true
same_type update update = true
same_type delete delete = true
same_type a b = false

-- A row, or what is left of a deleted one: `id` and the rest.
pub record Payload : Type 0 where
  pub id : String
  pub body : String

-- `Mutation`
pub record Mutation : Type 0 where
  pub id : String
  pub table : String
  pub type : MutationType
  pub payload : Payload
  pub created_at : ℕ
  pub retries : ℕ

abbrev pub same_change : Mutation → Mutation → Bool
same_change m x = x.table == m.table && x.payload.id == m.payload.id && same_type x.type m.type

-- `addMutation`, of the mutation with the id, the time and the retries that it is given.
unfoldable pub add_mutation : Mutation → List Mutation → List Mutation
add_mutation m queue = if any (same_change m) queue then queue else queue ++ m ∷ []

-- `clearMutations`
unfoldable pub clear_mutations : List String → List Mutation → List Mutation
clear_mutations ids queue = filter (λ m. not (contains m.id ids)) queue

-- The answer to a push: status 409, another one that is not `ok`, and one that is.
pub data Response : Type 0 where
  conflict failed accepted : Response

abbrev pub retry_pushed : List String → Mutation → Mutation
retry_pushed ids m = if contains m.id ids then record m { retries = suc m.retries } else m

abbrev pub pushed_ids : List Mutation → List String
pushed_ids queue = map (λ m. m.id) queue

-- `push` after the request, on the queue as it is then.
unfoldable pub settle : Response → List String → List Mutation → List Mutation
unfolding clear_mutations
settle conflict ids queue = queue
settle failed ids queue = map (retry_pushed ids) queue
settle accepted ids queue = clear_mutations ids queue

abbrev pub add_all : List Mutation → List Mutation → List Mutation
add_all [] queue = queue
add_all (m ∷ ms) queue = add_all ms (add_mutation m queue)

-- `push` after the pull it starts with, with the mutations that are added during the request.
unfoldable pub push : Response → List Mutation → List Mutation → List Mutation
unfolding settle add_mutation
push response during [] = add_all during []
push response during (m ∷ queue) =
    settle response (pushed_ids (m ∷ queue)) (add_all during (m ∷ queue))
