-- ===== src/Sync/Normalize.antt =====
-- `SyncPullNormalizer` (sync-pull-normalizer.ts) and `MigrationGuard` (migration-guard.ts): pulled
-- rows are given their local column names, and rows that the device has are dropped.
pub mod Existing
pub mod Laws
use ylp_software.Base.{
  Bool, true, false, not, ◌&&◌, String, Option, none, some, List, [], ◌∷◌, ◌++◌, map, filter,
  contains, truthy, truthy?, get_or_else, string_same,
}
use text.Mathlib.Text.{starts_with}
use ylp_software.Sync.Timestamp.{Stamp, num, int, null, Runtime, to_timestamp}
use ylp_software.Sync.Records.{
  Conversation, ConversationParticipant, Message, Call, CallParticipant, Receipt, EntityChanges,
  Changes,
}

module _ (rt : Runtime) where
  -- `this.toTimestamp(value)`, as the value of a column
  abbrev pub stamped : Stamp → Stamp
  stamped t = num (to_timestamp rt t)

  unfoldable pub normalize_conversation : Conversation → Conversation
  normalize_conversation item = record item {
    type = item.conversation_type;
    is_deleted = some (get_or_else item.is_deleted false);
    created_at = stamped item.created_at;
    updated_at = stamped item.updated_at;
  }

  unfoldable pub normalize_participant : ConversationParticipant → ConversationParticipant
  normalize_participant item = record item {
    conversation = item.conversation_id;
    user = item.user_id;
    joined_at = stamped item.joined_at;
    is_deleted = some (get_or_else item.is_deleted false);
    created_at = stamped item.created_at;
    updated_at = stamped item.updated_at;
  }

  unfoldable pub normalize_message : Message → Message
  normalize_message item = record item {
    conversation = item.conversation_id;
    sender = item.sender_id;
    is_deleted = some (get_or_else item.is_deleted false);
    created_at = stamped item.created_at;
    updated_at = stamped item.updated_at;
  }

  unfoldable pub normalize_call : Call → Call
  normalize_call item = record item {
    conversation = item.conversation_id;
    initiator = item.initiator_id;
    start_time = stamped item.start_time;
    end_time = stamped item.end_time;
    is_deleted = some (get_or_else item.is_deleted false);
    created_at = stamped item.created_at;
    updated_at = stamped item.updated_at;
  }

  -- `item.left_at !== null ? this.toTimestamp(item.left_at) : null`
  abbrev pub stamped_or_null : Stamp → Stamp
  stamped_or_null null = null
  stamped_or_null t = stamped t

  unfoldable pub normalize_call_participant : CallParticipant → CallParticipant
  normalize_call_participant item = record item {
    call = item.call_id;
    user = item.user_id;
    joined_at = stamped item.joined_at;
    left_at = stamped_or_null item.left_at;
    is_deleted = some (get_or_else item.is_deleted false);
    created_at = stamped item.created_at;
    updated_at = stamped item.updated_at;
  }

  unfoldable pub normalize_receipt : Receipt → Receipt
  normalize_receipt item = record item {
    message = item.message_id;
    user = item.user_id;
    is_deleted = some (get_or_else item.is_deleted false);
    created_at = stamped item.created_at;
    updated_at = stamped item.updated_at;
  }

-- `content.startsWith("ecdh:")`
abbrev pub is_encrypted : String → Bool
is_encrypted content = starts_with content "ecdh:"

-- `messageRepository?.hasMigrationKeys()` and then `tryDecryptWithMigrationKeys(content, convId)`:
-- `none` where there is no repository or it holds no keys.
abbrev pub MigrationKeys : Type 0
MigrationKeys = Option (String → String → Option String)

abbrev pub decrypt_content : MigrationKeys → String → String → String
decrypt_content none content conv_id = content
decrypt_content (some decrypt) content conv_id = get_or_else (decrypt content conv_id) content

-- The content of a created message: text under the old guest key is decrypted where possible.
unfoldable pub created_content : MigrationKeys → Message → String
created_content keys item =
    let content = get_or_else item.content "" in
    elim (is_encrypted content) [
      | true ↦ decrypt_content keys content (get_or_else item.conversation_id "")
      | false ↦ content
    ]

unfoldable pub normalize_created_message : Runtime → MigrationKeys → Message → Message
unfolding normalize_message created_content
normalize_created_message rt keys item = record (normalize_message rt item) {
  content = some (created_content keys item);
}

-- A query of the local database for the rows among some ids; `none` where it throws.
abbrev pub Query : Type 0 → Type 0
Query A = List String → Option (List A)

-- `toIds`
unfoldable pub to_ids : {A : Type 0} → (A → Option String) → List A → List String
to_ids id_of [] = []
to_ids id_of (x ∷ xs) =
    let rest = to_ids id_of xs in
    elim (id_of x) [ none ↦ rest | some k ↦ elim (truthy k) [ true ↦ k ∷ rest | false ↦ rest ] ]

-- `checkEntitiesExist`: a failing query counts as finding nothing.
unfoldable pub check_entities_exist : Query String → List String → List String
check_entities_exist query [] = []
check_entities_exist query (k ∷ ids) = get_or_else (query (k ∷ ids)) []

-- `.filter((item) => !existing.has(item.id ?? ""))`
unfoldable pub drop_existing : {A : Type 0} → (A → Option String) → Query String → List A → List A
unfolding to_ids check_entities_exist
drop_existing id_of query created =
    let existing = check_entities_exist query (to_ids id_of created) in
    filter (λ item. not (contains (get_or_else (id_of item) "") existing)) created

-- A row of the local table `messages`, as far as the guard reads it.
pub record MessageRow : Type 0 where
  pub id : String
  pub content : String

-- `encryptedServerUpdates`
unfoldable pub encrypted_updates : List Message → List String
encrypted_updates updated =
    filter truthy (
      map (λ m. get_or_else m.id "")
        (filter (λ m. is_encrypted (get_or_else m.content "")) updated))

-- The query for the local rows, and those of them that are encrypted.
unfoldable pub skips_among : Query MessageRow → List String → Option (List String)
skips_among query [] = some []
skips_among query (k ∷ ids) = elim (query (k ∷ ids)) [
  | none ↦ none
  | some rows ↦ some (map (λ (r : MessageRow). r.id) (filter (λ r. is_encrypted r.content) rows))
]

-- `MigrationGuard.computeSkips`: the flag afterwards, and the ids of the updates to skip; `none`
-- where the query throws.
unfoldable pub compute_skips : Query MessageRow → Bool → List Message → Bool × Option (List String)
unfolding encrypted_updates skips_among
compute_skips query false updated = (false, some [])
compute_skips query true updated = (false, skips_among query (encrypted_updates updated))

-- The local database, as far as a pull asks it.
pub record LocalDb : Type 0 where
  pub conversations : Query String
  pub conversation_participants : Query String
  pub messages : Query String
  pub calls : Query String
  pub call_participants : Query String
  pub message_receipts : Query String
  pub message_rows : Query MessageRow

module _ (rt : Runtime) (db : LocalDb) (keys : MigrationKeys) where
  -- The body of `normalizePullChanges`, once the updates to skip are known.
  unfoldable pub normalized_changes : List String → Changes → Changes
  unfolding drop_existing normalize_conversation normalize_participant normalize_message
      normalize_created_message normalize_call normalize_call_participant normalize_receipt
  normalized_changes skips changes = record {
    conversations = record {
      created =
          map (normalize_conversation rt)
            (drop_existing (λ r. r.id) db.conversations changes.conversations.created);
      updated = map (normalize_conversation rt) changes.conversations.updated;
      deleted = changes.conversations.deleted;
    };
    conversation_participants = record {
      created = map (normalize_participant rt) (
          drop_existing (λ r. r.id) db.conversation_participants
            changes.conversation_participants.created);
      updated = map (normalize_participant rt) changes.conversation_participants.updated;
      deleted = changes.conversation_participants.deleted;
    };
    messages = record {
      created =
          map (normalize_created_message rt keys)
            (drop_existing (λ r. r.id) db.messages changes.messages.created);
      updated =
          map (normalize_message rt) (
            filter (λ item. not (contains (get_or_else item.id "") skips))
              changes.messages.updated);
      deleted = changes.messages.deleted;
    };
    calls = record {
      created = map (normalize_call rt) (drop_existing (λ r. r.id) db.calls changes.calls.created);
      updated = map (normalize_call rt) changes.calls.updated;
      deleted = changes.calls.deleted;
    };
    call_participants = record {
      created =
          map (normalize_call_participant rt)
            (drop_existing (λ r. r.id) db.call_participants changes.call_participants.created);
      updated = map (normalize_call_participant rt) changes.call_participants.updated;
      deleted = changes.call_participants.deleted;
    };
    message_receipts = record {
      created =
          map (normalize_receipt rt)
            (drop_existing (λ r. r.id) db.message_receipts changes.message_receipts.created);
      updated = map (normalize_receipt rt) changes.message_receipts.updated;
      deleted = changes.message_receipts.deleted;
    };
  }

  -- `normalizePullChanges`: the guard's flag afterwards, and the changes, or `none` where it throws.
  unfoldable pub normalize_pull_changes : Bool → Changes → Bool × Option Changes
  normalize_pull_changes skip changes =
      let (skip', skips) = compute_skips db.message_rows skip changes.messages.updated in
      elim skips [
        | none ↦ (skip', none)
        | some ids ↦ (skip', some (normalized_changes ids changes))
      ]
