-- ===== src/Admin/Queue/Pending.antt =====
-- The queue of mutations as a finite map from ids to mutations.
use ylp_software.Base.{
  ◌≡◌, refl, ap, ◌∙◌, suc, Bool, true, false, String, Option, none, some, List, [], ◌∷◌, ◌++◌,
  contains, string_same, ◌==◌, if◌then◌else◌, arith,
}
use ylp_software.Admin.Queue.{
  Mutation, add_mutation, clear_mutations, Response, conflict, failed, accepted, pushed_ids, settle,
  add_all, push,
}

-- The mutation with an id that is in the queue.
abbrev pub pending : List Mutation → String → Option Mutation
pending [] id = none
pending (m ∷ queue) id = let rest = pending queue id in if m.id == id then some m else rest

abbrev pub retried : Option Mutation → Option Mutation
retried none = none
retried (some m) = some (record m { retries = suc m.retries })

-- What the answer to a push means for a mutation that was pushed.
unfoldable pub settled : Response → Option Mutation → Option Mutation
settled conflict m = m
settled failed m = retried m
settled accepted m = none

settle-pending :
    (response : Response) (ids : List String) (queue : List Mutation) (id : String)
    → pending (settle response ids queue) id
      ≡ (if contains id ids then settled response (pending queue id) else pending queue id)
unfolding settle settled clear_mutations
settle-pending conflict ids queue id = ground arith
settle-pending failed ids [] id = ground arith
settle-pending failed ids (m ∷ queue) id =
    ground (arith, settle-pending failed ids queue id, string_same.same_iff m.id id)
settle-pending accepted ids [] id = ground arith
settle-pending accepted ids (m ∷ queue) id =
    ground (arith, settle-pending accepted ids queue id, string_same.same_iff m.id id)

pending-append :
    (queue : List Mutation) (m : Mutation) (id : String)
    → pending (queue ++ m ∷ []) id
      ≡ (if contains id (pushed_ids queue) then pending queue id else pending (m ∷ []) id)
pending-append [] m id = refl
pending-append (x ∷ queue) m id = ground (arith, pending-append queue m id)

ids-append :
    (queue : List Mutation) (m : Mutation) (id : String)
    → contains id (pushed_ids queue) ≡ true
    → contains id (pushed_ids (queue ++ m ∷ [])) ≡ true
ids-append [] m id h = ground arith
ids-append (x ∷ queue) m id h = ground (arith, ids-append queue m id)

add_mutation-pending :
    (queue : List Mutation) (m : Mutation) (id : String)
    → contains id (pushed_ids queue) ≡ true
    → (contains id (pushed_ids (add_mutation m queue)) ≡ true)
      × (pending (add_mutation m queue) id ≡ pending queue id)
unfolding add_mutation
add_mutation-pending queue m id h =
    ground (arith, ids-append queue m id h, pending-append queue m id)

add_all-pending :
    (during queue : List Mutation) (id : String)
    → contains id (pushed_ids queue) ≡ true
    → pending (add_all during queue) id ≡ pending queue id
add_all-pending [] queue id h = refl
add_all-pending (m ∷ ms) queue id h =
    let k = add_mutation-pending queue m id h in
    add_all-pending ms (add_mutation m queue) id k.0 ∙ k.1

when-same :
    (b : Bool) (f : Option Mutation → Option Mutation) (x y : Option Mutation)
    → (b ≡ true → x ≡ y)
    → (if b then f x else x) ≡ (if b then f y else x)
when-same true f x y h = ap f (h refl)
when-same false f x y h = refl

-- A push refines the map from ids to mutations that the queue stands for. Whatever is added during
-- the request, a mutation that was pushed is then as the answer says: it is gone if the server has
-- accepted the push, it is as it was after a conflict, and it has one more retry after any other
-- failure; what was not pushed is as the additions have left it.
pub push-pending :
    (response : Response) (during queue : List Mutation) (id : String)
    → pending (push response during queue) id ≡ (
        if contains id (pushed_ids queue)
        then settled response (pending queue id)
        else pending (add_all during queue) id)
unfolding push
push-pending response during [] id = refl
push-pending response during (m ∷ queue) id =
    let q = m ∷ queue in
    settle-pending response (pushed_ids q) (add_all during q) id
    ∙ when-same (contains id (pushed_ids q)) (settled response) (pending (add_all during q) id)
        (pending q id) (add_all-pending during q id)
