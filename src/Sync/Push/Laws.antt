-- ===== src/Sync/Push/Laws.antt =====
-- What a push sends and what it reports as rejected.
use ylp_software.Base.{
  ◌≡◌, refl, sym, ap, ◌∙◌, Bool, true, false, not, ◌&&◌, ◌||◌, String, Option, some, List, [], ◌∷◌,
  ◌++◌, map, contains, truthy, truthy?, get_or_else, string_same, arith, eq_iff, any, Option-cases,
  Bool-cases, inl, inr, ◌<|>◌,
}
use mathlib.Core.Path.{ap₂}
use ylp_software.Model.{MessageStatusType, sending, not_sent}
use ylp_software.Chat.ReceiptManager.{should_push_receipt}
use ylp_software.Sync.Records.{Call, CallParticipant, Receipt, Changes}
use ylp_software.Sync.Payload.{
  ServerCall, ServerCallParticipant, ServerReceipt, call_payload, call_participant_payload,
  receipt_payload, participant_payload,
}
use ylp_software.Sync.Push.{
  guest_users, excluded_call_ids, is_excluded_call, is_excluded_call_participant,
  map_self_receipt_status, push_changes, push_rejected, rejected_ids, PushPayload, PushContext,
  self_ids_of, excluded_of, build_push_payload, entry,
}
use ylp_software.Sync.Push.Rejected.{
  is_id, has_row, contains-rejected_ids, has_row-ext, has_row-append, has_row-sent_both,
  has_row-changed_both, is_setting_up, contains-excluded_call_ids,
}

-- A state that only this device knows: an attempt under way, or a failure.
abbrev pub is_local_only : Option MessageStatusType → Bool
is_local_only (some sending) = true
is_local_only (some not_sent) = true
is_local_only _ = false

should_push-map_self :
    (self_ids : List String) (r : Receipt)
    → should_push_receipt (map_self_receipt_status self_ids r).status ≡ not (is_local_only r.status)
unfolding should_push_receipt map_self_receipt_status
should_push-map_self self_ids r = ground arith

id-map_self :
    (self_ids : List String) (r : Receipt) → (map_self_receipt_status self_ids r).id ≡ r.id
unfolding map_self_receipt_status
id-map_self self_ids r = ground arith

entry-get : (ids : List String) → get_or_else (entry ids) [] ≡ ids
entry-get [] = refl
entry-get (k ∷ ids) = refl

-- The participant's call is one of these calls and is still being set up.
abbrev pub joins_setting_up : List Call → CallParticipant → Bool
joins_setting_up calls p =
    let call_id = p.call_id <|> p.call in
    truthy? call_id && is_setting_up calls (get_or_else call_id "")

is_excluded_call_participant-lem :
    (calls : List Call) (p : CallParticipant)
    → is_excluded_call_participant (excluded_call_ids calls) p ≡ joins_setting_up calls p
unfolding is_excluded_call_participant
is_excluded_call_participant-lem calls p = elim (Bool-cases (truthy? (p.call_id <|> p.call))) [
  | inl given ↦ elim (Option-cases (p.call_id <|> p.call)) [
    | inl absent ↦ ground arith
    | inr (k, present) ↦ ground (arith, contains-excluded_call_ids k calls)
  ]
  | inr missing ↦ ground arith
]

-- What becomes of the rows with one id, in the three tables that are filtered.
pub record Accounts (changes : Changes) (p : PushPayload) (k : String) : Type 0 where
  pub receipts_pushed :
      any
        (λ (r : ServerReceipt). is_id k r.id)
        (p.changes.message_receipts.created ++ p.changes.message_receipts.updated)
      ≡ has_row
          (λ (r : Receipt). r.id)
          k
          (λ r. not (is_local_only r.status))
          (changes.message_receipts.created ++ changes.message_receipts.updated)
  pub receipts_rejected :
      contains k (get_or_else p.rejected.message_receipts [])
      ≡ has_row
          (λ (r : Receipt). r.id)
          k
          (λ r. is_local_only r.status)
          (changes.message_receipts.created ++ changes.message_receipts.updated)
  pub calls_pushed :
      any (λ (r : ServerCall). is_id k r.id) (p.changes.calls.created ++ p.changes.calls.updated)
      ≡ has_row
          (λ (r : Call). r.id)
          k
          (λ r. not (is_setting_up (changes.calls.created ++ changes.calls.updated) k))
          (changes.calls.created ++ changes.calls.updated)
  pub calls_rejected :
      contains k (get_or_else p.rejected.calls [])
      ≡ is_setting_up (changes.calls.created ++ changes.calls.updated) k
  pub participants_pushed :
      any
        (λ (r : ServerCallParticipant). is_id k r.id)
        (p.changes.call_participants.created ++ p.changes.call_participants.updated)
      ≡ has_row
          (λ (r : CallParticipant). r.id)
          k
          (λ r. not (joins_setting_up (changes.calls.created ++ changes.calls.updated) r))
          (changes.call_participants.created ++ changes.call_participants.updated)
  pub participants_rejected :
      contains k (get_or_else p.rejected.call_participants [])
      ≡ has_row
          (λ (r : CallParticipant). r.id)
          k
          (joins_setting_up (changes.calls.created ++ changes.calls.updated))
          (changes.call_participants.created ++ changes.call_participants.updated)

is_excluded_call-lem :
    (calls : List Call) (k : String) (c : Call)
    → truthy k ≡ true
    → is_id k c.id ≡ true
    → is_excluded_call (excluded_call_ids calls) c ≡ is_setting_up calls k
unfolding is_excluded_call
is_excluded_call-lem calls k c t e = elim (Option-cases c.id) [
  | inl absent ↦ absurd (ground arith)
  | inr (j, present) ↦ ground (arith, contains-excluded_call_ids k calls t, eq_iff j k)
]

has_row-const :
    (k : String) (b : Bool) (calls : List Call)
    → has_row (λ (c : Call). c.id) k (λ c. b) calls
      ≡ (has_row (λ (c : Call). c.id) k (λ c. true) calls && b)
has_row-const k b [] = refl
has_row-const k b (c ∷ calls) = ground (arith, has_row-const k b calls)

is_setting_up-has_row :
    (k : String) (calls : List Call)
    → (has_row (λ (c : Call). c.id) k (λ c. true) calls && is_setting_up calls k)
      ≡ is_setting_up calls k
is_setting_up-has_row k [] = refl
is_setting_up-has_row k (c ∷ calls) = ground (arith, is_setting_up-has_row k calls)

any-map_receipts :
    (self_ids : List String) (k : String) (test : Receipt → Bool) (want : Receipt → Bool)
    (xs : List Receipt)
    → ((r : Receipt) → test (map_self_receipt_status self_ids r) ≡ want r)
    → has_row (λ (r : Receipt). r.id) k test (map (map_self_receipt_status self_ids) xs)
      ≡ has_row (λ (r : Receipt). r.id) k want xs
any-map_receipts self_ids k test want [] h = refl
any-map_receipts self_ids k test want (r ∷ xs) h =
    ground (arith, any-map_receipts self_ids k test want xs h, h r, id-map_self self_ids r)

module _ (ctx : PushContext) (changes : Changes) (k : String) (t : truthy k ≡ true) where
  abbrev calls : List Call
  calls = changes.calls.created ++ changes.calls.updated

  rejected_receipts :
      contains k (
        rejected_ids
          (λ (r : Receipt). r.id)
          (λ r. not (should_push_receipt r.status))
          (map (map_self_receipt_status (self_ids_of ctx changes)) changes.message_receipts.created
            ++ map
                (map_self_receipt_status (self_ids_of ctx changes))
                changes.message_receipts.updated))
      ≡ has_row
          (λ (r : Receipt). r.id)
          k
          (λ r. is_local_only r.status)
          (changes.message_receipts.created ++ changes.message_receipts.updated)
  rejected_receipts =
      let self_ids = self_ids_of ctx changes in
      let created = changes.message_receipts.created in
      let updated = changes.message_receipts.updated in
      let test = λ (r : Receipt). not (should_push_receipt r.status) in
      let want = λ (r : Receipt). is_local_only r.status in
      let same : (r : Receipt) → test (map_self_receipt_status self_ids r) ≡ want r =
        λ r. ground (arith, should_push-map_self self_ids r) in
      contains-rejected_ids (λ (r : Receipt). r.id) test k _ t
      ∙ has_row-append (λ (r : Receipt). r.id) k test
          (map (map_self_receipt_status self_ids) created)
          (map (map_self_receipt_status self_ids) updated)
      ∙ ap₂ ◌||◌ (any-map_receipts self_ids k test want created same)
          (any-map_receipts self_ids k test want updated same)
      ∙ sym (has_row-append (λ (r : Receipt). r.id) k want created updated)

  rejected_calls :
      contains k
        (rejected_ids (λ (r : Call). r.id) (is_excluded_call (excluded_of ctx changes)) calls)
      ≡ is_setting_up calls k
  rejected_calls =
      contains-rejected_ids (λ (r : Call). r.id) (is_excluded_call (excluded_call_ids calls)) k
        calls t
      ∙ has_row-ext (λ (r : Call). r.id) k (is_excluded_call (excluded_call_ids calls))
          (λ c. is_setting_up calls k) calls (λ c e. is_excluded_call-lem calls k c t e)
      ∙ has_row-const k (is_setting_up calls k) calls
      ∙ is_setting_up-has_row k calls

  rejected_participants :
      contains k (
        rejected_ids
          (λ (r : CallParticipant). r.id)
          (is_excluded_call_participant (excluded_of ctx changes))
          (changes.call_participants.created ++ changes.call_participants.updated))
      ≡ has_row
          (λ (r : CallParticipant). r.id)
          k
          (joins_setting_up calls)
          (changes.call_participants.created ++ changes.call_participants.updated)
  rejected_participants =
      let rows = changes.call_participants.created ++ changes.call_participants.updated in
      contains-rejected_ids (λ (r : CallParticipant). r.id)
        (is_excluded_call_participant (excluded_call_ids calls)) k rows t
      ∙ has_row-ext (λ (r : CallParticipant). r.id) k
          (is_excluded_call_participant (excluded_call_ids calls)) (joins_setting_up calls) rows
          (λ p e. is_excluded_call_participant-lem calls p)

  payload-Accounts :
      (p : PushPayload)
      → p.changes
        ≡ push_changes ctx.runtime (self_ids_of ctx changes) (excluded_of ctx changes) changes
      → p.rejected
        ≡ push_rejected ctx.runtime (self_ids_of ctx changes) (excluded_of ctx changes) changes
      → Accounts changes p k
  unfolding push_changes push_rejected receipt_payload call_payload call_participant_payload
  payload-Accounts p c r = record {
    receipts_pushed = rw c (
        has_row-changed_both (λ (x : Receipt). x.id) (λ (x : ServerReceipt). x.id)
          (receipt_payload ctx.runtime) k (map_self_receipt_status (self_ids_of ctx changes))
          (λ x. should_push_receipt x.status) (λ x. not (is_local_only x.status))
          changes.message_receipts.created changes.message_receipts.updated (λ x. refl)
          (id-map_self (self_ids_of ctx changes)) (should_push-map_self (self_ids_of ctx changes)));
    receipts_rejected = rw r (rw entry-get rejected_receipts);
    calls_pushed = rw c (
        has_row-sent_both (λ (x : Call). x.id) (λ (x : ServerCall). x.id) (call_payload ctx.runtime)
          k (λ x. not (is_excluded_call (excluded_of ctx changes) x))
          (λ x. not (is_setting_up calls k)) changes.calls.created changes.calls.updated (λ x. refl)
          (λ x e. ap not (is_excluded_call-lem calls k x t e)));
    calls_rejected = rw r (rw entry-get rejected_calls);
    participants_pushed = rw c (
        has_row-sent_both (λ (x : CallParticipant). x.id) (λ (x : ServerCallParticipant). x.id)
          (call_participant_payload ctx.runtime) k
          (λ x. not (is_excluded_call_participant (excluded_of ctx changes) x))
          (λ x. not (joins_setting_up calls x)) changes.call_participants.created
          changes.call_participants.updated (λ x. refl)
          (λ x e. ap not (is_excluded_call_participant-lem calls x)));
    participants_rejected = rw r (rw entry-get rejected_participants);
  }

pub build_push_payload-inversion :
    (ctx : PushContext) (changes : Changes) (p : PushPayload)
    → build_push_payload ctx changes ≡ some p
    → (p.changes
        ≡ push_changes ctx.runtime (self_ids_of ctx changes) (excluded_of ctx changes) changes)
      × (p.rejected
          ≡ push_rejected ctx.runtime (self_ids_of ctx changes) (excluded_of ctx changes) changes)
unfolding build_push_payload
build_push_payload-inversion ctx changes p e =
    elim (Option-cases (
      guest_users ctx.get_by_ids
        (map (participant_payload ctx.runtime) changes.conversation_participants.created))) [
          | inl thrown ↦ absurd (ground arith)
          | inr (guests, known) ↦ (ground arith, ground arith)
        ]

-- In a push that is built, for every id that is not empty: a receipt with it is pushed exactly if
-- it has a row whose state is not local (an attempt under way, a failure), and reported as rejected
-- exactly if it has a row whose state is; a call is rejected exactly if a row of it is being set up,
-- and pushed exactly if there is a row and none is; a call participant goes by its call.
pub build_push_payload-Accounts :
    (ctx : PushContext) (changes : Changes) (p : PushPayload) (k : String)
    → truthy k ≡ true
    → build_push_payload ctx changes ≡ some p
    → Accounts changes p k
build_push_payload-Accounts ctx changes p k t e =
    let (c, r) = build_push_payload-inversion ctx changes p e in
    payload-Accounts ctx changes k t p c r
