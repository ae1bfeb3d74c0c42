-- ===== src/Sync/Normalize/Laws.antt =====
-- What a normalised pull writes, over the tables of the device.
use ylp_software.Base.{
  ◌≡◌, refl, Bool, true, false, not, ◌&&◌, String, Option, some, List, map, filter, contains,
  truthy, get_or_else, string_same, arith, Option-cases, inl, inr, ◌==◌, any,
}
use text.Mathlib.Text.{starts_with}
use ylp_software.Sync.Records.{
  Conversation, ConversationParticipant, Message, Call, CallParticipant, Receipt, Changes,
}
use ylp_software.Sync.Timestamp.{Runtime}
use ylp_software.Sync.Normalize.{
  Query, MessageRow, compute_skips, is_encrypted, LocalDb, MigrationKeys, normalize_conversation,
  normalize_participant, normalize_created_message, normalize_call, normalize_call_participant,
  normalize_receipt, normalized_changes, normalize_pull_changes,
}
use ylp_software.Sync.Normalize.Existing.{is_existing, drop_existing_lem, Tables, AnswersAll}

-- The items of a pulled list that the device does not have.
abbrev pub fresh : {A : Type 0} → (A → Option String) → List String → List A → List A
fresh id_of rows xs = filter (λ x. not (is_existing rows (id_of x))) xs

module _ (rt : Runtime) (keys : MigrationKeys) where
  -- In each table the rows to create are the pulled ones that the device lacks, normalised.
  pub record CreatesFresh (t : Tables) (changes out : Changes) : Type 0 where
    pub conversations :
        out.conversations.created
        ≡ map
            (normalize_conversation rt)
            (fresh (λ r. r.id) t.conversations changes.conversations.created)
    pub conversation_participants :
        out.conversation_participants.created
        ≡ map (normalize_participant rt) (
            fresh (λ r. r.id) t.conversation_participants changes.conversation_participants.created)
    pub messages :
        out.messages.created
        ≡ map
            (normalize_created_message rt keys)
            (fresh (λ r. r.id) t.messages changes.messages.created)
    pub calls :
        out.calls.created
        ≡ map (normalize_call rt) (fresh (λ r. r.id) t.calls changes.calls.created)
    pub call_participants :
        out.call_participants.created
        ≡ map
            (normalize_call_participant rt)
            (fresh (λ r. r.id) t.call_participants changes.call_participants.created)
    pub message_receipts :
        out.message_receipts.created
        ≡ map
            (normalize_receipt rt)
            (fresh (λ r. r.id) t.message_receipts changes.message_receipts.created)

  normalized_changes-CreatesFresh :
      (t : Tables) (db : LocalDb) (skips : List String) (changes : Changes)
      → AnswersAll t db
      → CreatesFresh t changes (normalized_changes rt db keys skips changes)
  unfolding normalized_changes
  normalized_changes-CreatesFresh t db skips changes a = record {
    conversations = rw (
        drop_existing_lem (λ (r : Conversation). r.id) t.conversations db.conversations _
          a.conversations);
    conversation_participants = rw (
        drop_existing_lem (λ (r : ConversationParticipant). r.id) t.conversation_participants
          db.conversation_participants _ a.conversation_participants);
    messages = rw (drop_existing_lem (λ (r : Message). r.id) t.messages db.messages _ a.messages);
    calls = rw (drop_existing_lem (λ (r : Call). r.id) t.calls db.calls _ a.calls);
    call_participants = rw (
        drop_existing_lem (λ (r : CallParticipant). r.id) t.call_participants db.call_participants _
          a.call_participants);
    message_receipts = rw (
        drop_existing_lem (λ (r : Receipt). r.id) t.message_receipts db.message_receipts _
          a.message_receipts);
  }

  -- A pull that returns has first computed the updates to skip.
  normalize_pull_changes-inversion :
      (db : LocalDb) (skip skip' : Bool) (changes out : Changes)
      → normalize_pull_changes rt db keys skip changes ≡ (skip', some out)
      → (ids : List String) × (compute_skips db.message_rows skip changes.messages.updated
          ≡ (skip', some ids))
        × (normalized_changes rt db keys ids changes ≡ out)
  unfolding normalize_pull_changes
  normalize_pull_changes-inversion db skip skip' changes out e =
      elim (Option-cases (compute_skips db.message_rows skip changes.messages.updated).1) [
        | inl thrown ↦ absurd (ground arith)
        | inr (ids, known) ↦ (ids, ground arith, ground arith)
      ]

  compute_skips-flag :
      (query : Query MessageRow) (skip : Bool) (updated : List Message)
      → (compute_skips query skip updated).0 ≡ false
  unfolding compute_skips
  compute_skips-flag query false updated = refl
  compute_skips-flag query true updated = ground arith

  -- On a device with these tables a pull that returns creates, in each table, exactly the pulled
  -- rows that the device lacks; it leaves the guard's flag down.
  pub normalize_pull_changes-CreatesFresh :
      (t : Tables) (db : LocalDb) (skip skip' : Bool) (changes out : Changes)
      → AnswersAll t db
      → normalize_pull_changes rt db keys skip changes ≡ (skip', some out)
      → CreatesFresh t changes out × (skip' ≡ false)
  normalize_pull_changes-CreatesFresh t db skip skip' changes out a e =
      let (ids, known, same) = normalize_pull_changes-inversion db skip skip' changes out e in
      (
        rw (← same) (normalized_changes-CreatesFresh t db ids changes a),
        ground (arith, compute_skips-flag db.message_rows skip changes.messages.updated),
      )

-- The device holds an encrypted message with this id.
abbrev pub is_encrypted_row : List MessageRow → String → Bool
is_encrypted_row rows k = any (λ r. r.id == k && is_encrypted r.content) rows

-- The answers of the database for the rows of `messages`.
abbrev pub AnswersRows : List MessageRow → Query MessageRow → Type 0
AnswersRows rows query =
    (ids : List String) → query ids ≡ some (filter (λ r. contains r.id ids) rows)

-- The pull has an update with this id, which is not empty, whose content is encrypted.
abbrev pub arrives_encrypted : String → List Message → Bool
arrives_encrypted k updated =
    truthy k
    && any (λ m. get_or_else m.id "" == k && starts_with (get_or_else m.content "") "ecdh:") updated

-- The update would overwrite an encrypted message, and an update with its id comes encrypted.
abbrev pub is_protected : List MessageRow → List Message → Message → Bool
is_protected rows updated m =
    let k = get_or_else m.id "" in arrives_encrypted k updated && is_encrypted_row rows k
