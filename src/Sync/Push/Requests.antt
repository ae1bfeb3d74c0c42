-- ===== src/Sync/Push/Requests.antt =====
-- When a push sends a request, and what the request cannot hold.
use mathlib.Core.Path.{subst}
use ylp_software.Base.{
  ap, sym, ◌∙◌, ◌++◌, ◌==◌, ◌<|>◌, any, eq_iff, Option-cases, truthy, true, ◌≡◌, ◌↔◌, Bool, false,
  ◌&&◌, ◌||◌, String, Option, none, some, List, [], ◌∷◌, map, filter, contains, truthy?,
  get_or_else, string_same, ltb, length, ◌⊎◌, arith, inl, inr, All, All-map, All-filter, All-forall,
  Bool-cases, ℕ,
}
use ylp_software.Chat.ReceiptManager.{should_push_receipt}
use ylp_software.Sync.Timestamp.{Runtime}
use ylp_software.Sync.Records.{Message, Receipt, EntityChanges, Changes}
use ylp_software.Sync.Payload.{ServerReceipt, receipt_payload}
use ylp_software.Sync.Push.{
  self_ids_in, self_message_ids, map_self_receipt_status, is_sent, PushChanges, push_changes,
  PushPayload, PushContext, self_ids_of, build_push_payload, has_items, has_payload, push_to_server,
}
use ylp_software.Sync.Push.Laws.{build_push_payload-inversion}

abbrev pub IsEmpty : {A : Type 0} → EntityChanges A → Type 0
IsEmpty c = (c.created ≡ []) × (c.updated ≡ []) × (c.deleted ≡ [])

abbrev pub AreEmpty : PushChanges → Type 0
AreEmpty p =
    IsEmpty p.conversations
    × IsEmpty p.conversation_participants
    × IsEmpty p.messages
    × IsEmpty p.calls
    × IsEmpty p.call_participants
    × IsEmpty p.message_receipts

no_items_iff :
    {A : Type 0} (xs ys : List A) (zs : List String)
    → ((ltb 0 (length xs) || ltb 0 (length ys) || ltb 0 (length zs)) ≡ false)
      ↔ ((xs ≡ []) × (ys ≡ []) × (zs ≡ []))
no_items_iff [] [] [] = ground arith
no_items_iff [] [] (z ∷ zs) = ground arith
no_items_iff [] (y ∷ ys) zs = ground arith
no_items_iff (x ∷ xs) ys zs = ground arith

has_items_iff : {A : Type 0} (c : EntityChanges A) → (has_items c ≡ false) ↔ IsEmpty c
has_items_iff c = no_items_iff c.created c.updated c.deleted

none_of_six_iff :
    (a b c d e f : Bool)
    → ((a || b || c || d || e || f) ≡ false)
      ↔ ((a ≡ false) × (b ≡ false) × (c ≡ false) × (d ≡ false) × (e ≡ false) × (f ≡ false))
none_of_six_iff a b c d e f = ground arith

has_payload_iff : (p : PushChanges) → (has_payload p ≡ false) ↔ AreEmpty p
unfolding has_payload
has_payload_iff p =
    let i = has_items_iff p.conversations in
    let j = has_items_iff p.conversation_participants in
    let k = has_items_iff p.messages in
    let l = has_items_iff p.calls in
    let m = has_items_iff p.call_participants in
    let n = has_items_iff p.message_receipts in
    let six =
      none_of_six_iff (has_items p.conversations) (has_items p.conversation_participants)
        (has_items p.messages) (has_items p.calls) (has_items p.call_participants)
        (has_items p.message_receipts) in
    (
      λ e. let (a, b, c, d, f, g) = six.0 e in (i.0 a, j.0 b, k.0 c, l.0 d, m.0 f, n.0 g),
      λ (a, b, c, d, f, g). six.1 (i.1 a, j.1 b, k.1 c, l.1 d, m.1 f, n.1 g),
    )

-- A push that is built sends a request exactly if some list of the payload is not empty; the
-- request holds the payload and the cursor of the last pull, and the rejected ids are returned
-- either way.
pub push_to_server_lem :
    (ctx : PushContext) (changes : Changes) (last : Option ℕ) (p : PushPayload)
    → build_push_payload ctx changes ≡ some p
    → (AreEmpty p.changes × (push_to_server ctx changes last ≡ some (none, p.rejected)))
      ⊎ ((¬ AreEmpty p.changes)
          × (push_to_server ctx changes last
              ≡ some (
                some (record {
                  last_pulled_at = get_or_else last 0;
                  changes = p.changes;
                  guest_users = p.guest_users;
                }),
                p.rejected,
              )))
unfolding push_to_server
push_to_server_lem ctx changes last p e = elim (Bool-cases (has_payload p.changes)) [
  | inl some_items ↦
      inr (λ empty. cc (some_items, (has_payload_iff p.changes).1 empty), ground arith)
  | inr no_items ↦ inl ((has_payload_iff p.changes).0 no_items, ground arith)
]

-- It is not the case that the receipt is `sent` and belongs to one of these messages.
abbrev pub IsNotSentToSelf : List String → ServerReceipt → Type 0
IsNotSentToSelf self_ids r =
    (truthy? r.message_id && contains (get_or_else r.message_id "") self_ids && is_sent r.status)
    ≡ false

payload-IsNotSentToSelf :
    (rt : Runtime) (self_ids : List String) (r : Receipt)
    → IsNotSentToSelf self_ids (receipt_payload rt (map_self_receipt_status self_ids r))
unfolding receipt_payload map_self_receipt_status
payload-IsNotSentToSelf rt self_ids r = ground arith

pushed-IsNotSentToSelf :
    (rt : Runtime) (self_ids : List String) (rows : List Receipt)
    → All (IsNotSentToSelf self_ids) (
        map (receipt_payload rt) (
          filter
            (λ (r : Receipt). should_push_receipt r.status)
            (map (map_self_receipt_status self_ids) rows)))
pushed-IsNotSentToSelf rt self_ids rows =
    let P : Receipt → Type 0 = λ r. IsNotSentToSelf self_ids (receipt_payload rt r) in
    All-map (IsNotSentToSelf self_ids) (receipt_payload rt) _ (
      All-filter P (λ r. should_push_receipt r.status) (map (map_self_receipt_status self_ids) rows)
        (All-map P (map_self_receipt_status self_ids) rows (
          All-forall (λ r. P (map_self_receipt_status self_ids r)) rows
            (payload-IsNotSentToSelf rt self_ids))))

-- A message with this id, of this conversation.
abbrev pub is_note : String → String → Message → Bool
is_note self k m =
    get_or_else (m.conversation_id <|> m.conversation) "" == self && get_or_else m.id "" == k

note-self_ids_in :
    (self k : String) (ms : List Message)
    → truthy self ≡ true
    → truthy k ≡ true
    → any (is_note self k) ms ≡ true
    → contains k (self_ids_in self ms) ≡ true
note-self_ids_in self k [] t u h = absurd (ground (arith, h))
note-self_ids_in self k (m ∷ ms) t u h =
    elim (Option-cases (m.conversation_id <|> m.conversation)) [
      | inl absent ↦ ground (arith, note-self_ids_in self k ms t u, eq_iff "" self, h)
      | inr (conv, present) ↦ elim (Option-cases m.id) [
        | inl unnamed ↦ ground (arith, note-self_ids_in self k ms t u, eq_iff "" k, h)
        | inr (id, named) ↦
            ground (arith, note-self_ids_in self k ms t u, eq_iff conv self, eq_iff id k, h)
      ]
    ]

-- It is not a receipt of this message that is `sent`.
abbrev pub IsNotSentFor : String → ServerReceipt → Type 0
IsNotSentFor k r = (get_or_else r.message_id "" == k && is_sent r.status) ≡ false

not_sent_for :
    (k : String) (self_ids : List String) (r : ServerReceipt)
    → truthy k ≡ true
    → contains k self_ids ≡ true
    → IsNotSentToSelf self_ids r
    → IsNotSentFor k r
not_sent_for k self_ids r t c h = elim (Option-cases r.message_id) [
  | inl absent ↦ ground (arith, eq_iff "" k)
  | inr (id, present) ↦ elim (Bool-cases (id == k)) [
    | inl same ↦ ground (
      arith,
      subst (λ j. contains j self_ids ≡ true) (sym ((eq_iff id k).0 same)) c,
      subst (λ j. truthy j ≡ true) (sym ((eq_iff id k).0 same)) t,
      h,
    )
    | inr other ↦ ground (arith, other)
  ]
]

receipts-IsNotSentFor :
    (k : String) (self_ids : List String) (rs : List ServerReceipt)
    → truthy k ≡ true
    → contains k self_ids ≡ true
    → All (IsNotSentToSelf self_ids) rs
    → All (IsNotSentFor k) rs
receipts-IsNotSentFor k self_ids [] t c h = tt
receipts-IsNotSentFor k self_ids (r ∷ rs) t c (p, h) =
    (not_sent_for k self_ids r t c p, receipts-IsNotSentFor k self_ids rs t c h)

-- The conversation of this user with oneself is found.
pub record IsSelf (ctx : PushContext) (self : String) : Type 0 where
  pub user : String
  pub known : ctx.current_user_id ≡ some user
  pub named : truthy user ≡ true
  pub found : ctx.find_self user ≡ some (some self)
  pub exists : truthy self ≡ true

self-self_ids_of :
    (ctx : PushContext) (changes : Changes) (self : String)
    → IsSelf ctx self
    → self_ids_of ctx changes
      ≡ self_ids_in self (changes.messages.created ++ changes.messages.updated)
unfolding self_message_ids
self-self_ids_of ctx changes self h = ground (arith, h.known, h.named, h.found, h.exists)

-- Where the conversation with oneself is found, and a message of it is among the created or updated
-- messages of the changes, no receipt of that message is pushed as `sent`.
pub build_push_payload-IsNotSentFor :
    (ctx : PushContext) (changes : Changes) (p : PushPayload) (self k : String)
    → IsSelf ctx self
    → truthy k ≡ true
    → any (is_note self k) (changes.messages.created ++ changes.messages.updated) ≡ true
    → build_push_payload ctx changes ≡ some p
    → All (IsNotSentFor k) p.changes.message_receipts.created
      × All (IsNotSentFor k) p.changes.message_receipts.updated
unfolding push_changes
build_push_payload-IsNotSentFor ctx changes p self k i t n e =
    let rt = ctx.runtime in
    let ids = self_ids_of ctx changes in
    let c : contains k ids ≡ true =
      ap (contains k) (self-self_ids_of ctx changes self i)
      ∙ note-self_ids_in self k (changes.messages.created ++ changes.messages.updated) i.exists t
          n in
    rw ((build_push_payload-inversion ctx changes p e).0) (
      receipts-IsNotSentFor k ids _ t c
          (pushed-IsNotSentToSelf rt ids changes.message_receipts.created),
      receipts-IsNotSentFor k ids _ t c
          (pushed-IsNotSentToSelf rt ids changes.message_receipts.updated),
    )
