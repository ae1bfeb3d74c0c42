-- ===== src/Sync/Pull/Versions.antt =====
-- The records that a pull returns are the last versions among its pages.
use ylp_software.Base.{
  ℕ, ◌≤◌, count, ◌≡◌, refl, ◌∙◌, ◌||◌, String, Option, some, List, [], ◌∷◌, ◌++◌, map, arith,
  contains, contains-append, string_same, ◌<|>◌,
}
use ylp_software.Sync.Records.{EntityChanges, EntityPage, Changes, no_changes, Page}
use ylp_software.Sync.Merge.Latest.{
  has_id, count-merge_by_id, occurrences, occurrences-merge_deleted, latest, latest-append,
  latest-merge_by_id, contains-merge_deleted,
}
use ylp_software.Sync.Pull.{merge_entity, merge_page}
use ylp_software.Sync.Pull.Pages.{merge_all, head_timestamp}

module _ {A : Type 0} where
  abbrev pub all_created : List (EntityPage A) → List A
  all_created [] = []
  all_created (p ∷ ps) = p.created ++ all_created ps

  abbrev pub all_updated : List (EntityPage A) → List A
  all_updated [] = []
  all_updated (p ∷ ps) = p.updated ++ all_updated ps

  abbrev pub all_deleted : List (EntityPage A) → List String
  all_deleted [] = []
  all_deleted (p ∷ ps) = p.deleted ++ all_deleted ps

  module _ (id_of : A → Option String) where
    merge_entities : EntityChanges A → List (EntityPage A) → EntityChanges A
    merge_entities acc [] = acc
    merge_entities acc (p ∷ ps) = merge_entities (merge_entity id_of acc p) ps

    -- No id is in a list twice.
    abbrev pub IsDistinct : String → EntityChanges A → Type 0
    IsDistinct k m =
        (count (has_id id_of k) m.created ≤ 1)
        × (count (has_id id_of k) m.updated ≤ 1)
        × (occurrences k m.deleted ≤ 1)

    merge_entities-IsDistinct :
        (k : String) (acc : EntityChanges A) (ps : List (EntityPage A))
        → IsDistinct k acc
        → IsDistinct k (merge_entities acc ps)
    unfolding merge_entities merge_entity
    merge_entities-IsDistinct k acc [] h = h
    merge_entities-IsDistinct k acc (p ∷ ps) h =
        merge_entities-IsDistinct k (merge_entity id_of acc p) ps (
          count-merge_by_id id_of k acc.created p.created,
          count-merge_by_id id_of k acc.updated p.updated,
          occurrences-merge_deleted k acc.deleted p.deleted,
        )

    -- Under every id stands the last version of all the pages, and no other; an id counts as
    -- deleted, once, exactly if a page says so.
    abbrev pub IsMerged : List (EntityPage A) → EntityChanges A → Type 0
    IsMerged ps m =
        (k : String)
        → (latest id_of k m.created ≡ latest id_of k (all_created ps))
          × (latest id_of k m.updated ≡ latest id_of k (all_updated ps))
          × (contains k m.deleted ≡ contains k (all_deleted ps))
          × IsDistinct k m

    merge_entities-latest :
        (acc : EntityChanges A) (ps : List (EntityPage A)) (k : String)
        → (latest id_of k (merge_entities acc ps).created
            ≡ (latest id_of k (all_created ps) <|> latest id_of k acc.created))
          × (latest id_of k (merge_entities acc ps).updated
              ≡ (latest id_of k (all_updated ps) <|> latest id_of k acc.updated))
          × (contains k (merge_entities acc ps).deleted
              ≡ (contains k acc.deleted || contains k (all_deleted ps)))
    unfolding merge_entities merge_entity
    merge_entities-latest acc [] k = ground arith
    merge_entities-latest acc (p ∷ ps) k = ground (
      arith,
      merge_entities-latest (merge_entity id_of acc p) ps k,
      latest-merge_by_id id_of k acc.created p.created,
      latest-append id_of k acc.created p.created,
      latest-append id_of k p.created (all_created ps),
      latest-merge_by_id id_of k acc.updated p.updated,
      latest-append id_of k acc.updated p.updated,
      latest-append id_of k p.updated (all_updated ps),
      contains-merge_deleted k acc.deleted p.deleted,
      contains-append k p.deleted (all_deleted ps),
    )

    -- A table of the merged changes, seen through its fields.
    pub merge_all-IsMerged :
        (table : Changes → EntityChanges A) (page_table : Page → EntityPage A)
        → ((acc : Changes) (p : Page)
            → table (merge_page acc p) ≡ merge_entity id_of (table acc) (page_table p))
        → table no_changes ≡ record { created = []; updated = []; deleted = [] }
        → (ps : List Page) → IsMerged (map page_table ps) (table (merge_all no_changes ps))
    unfolding merge_entities
    merge_all-IsMerged table page_table step empty ps k =
        rw (through no_changes ps, empty)
          (let none_yet : EntityChanges A = record { created = []; updated = []; deleted = [] } in
            let (c, u, d) = merge_entities-latest none_yet (map page_table ps) k in
            (
              ground (arith, c),
              ground (arith, u),
              ground (arith, d),
              merge_entities-IsDistinct k none_yet (map page_table ps)
                  (omega arith, omega arith, omega arith),
            ))
      where
        through :
            (acc : Changes) (qs : List Page)
            → table (merge_all acc qs) ≡ merge_entities (table acc) (map page_table qs)
        through acc [] = refl
        through acc (q ∷ qs) = through (merge_page acc q) qs ∙ rw (step acc q)

-- What a pull has gathered from its pages: in each table the last versions, each once, and the timestamp
-- of the first page.
pub record IsPullOf (pages : List Page) (merged : Changes) (timestamp : ℕ) : Type 0 where
  pub conversations : IsMerged (λ r. r.id) (map (λ p. p.conversations) pages) merged.conversations
  pub conversation_participants :
      IsMerged
        (λ r. r.id)
        (map (λ p. p.conversation_participants) pages)
        merged.conversation_participants
  pub messages : IsMerged (λ r. r.id) (map (λ p. p.messages) pages) merged.messages
  pub calls : IsMerged (λ r. r.id) (map (λ p. p.calls) pages) merged.calls
  pub call_participants :
      IsMerged (λ r. r.id) (map (λ p. p.call_participants) pages) merged.call_participants
  pub message_receipts :
      IsMerged (λ r. r.id) (map (λ p. p.message_receipts) pages) merged.message_receipts
  pub first_timestamp : head_timestamp pages ≡ some timestamp
