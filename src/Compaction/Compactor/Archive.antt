-- ===== src/Compaction/Compactor/Archive.antt =====
-- What the steps of a compaction do to the archive.
use mathlib.Core.List.Memᴰ
use mathlib.Core.Path.{subst}
use agentpg.Base.{
  ℕ, ◌≡◌, ◌≢◌, refl, sym, ◌∙◌, inl, inr, false, ◌||◌, List, [], ◌∷◌, ◌++◌, All, Memᴰ, ◌==◌,
  Bool-cases, arith,
}
use agentpg.Driver.{Bytes, Message}
use agentpg.Store.Messages.{
  Db, ArchivedMessage, Faults, create_compaction_event, archive_message, is_archived,
  insert_archived, insert_message, remove_message, set_compaction_count,
}
use agentpg.Compaction.Partition.{MessagePartition, DistinctIds}
use agentpg.Compaction.Hybrid.{StrategyResult}
use agentpg.Compaction.Compactor.{
  Compactor, archive_all, delete_all, create_summary, apply_strategy, record_event,
}

abbrev pub InArchive : Message → List ArchivedMessage → Type 0
InArchive m rows = (row : ArchivedMessage) × Memᴰ row rows × (row.original_message ≡ m)

pub Distinct-append_left : (xs ys : List Message) → DistinctIds (xs ++ ys) → DistinctIds xs
Distinct-append_left [] ys d = tt
Distinct-append_left (x ∷ xs) ys d = (All-append_left xs ys d.0, Distinct-append_left xs ys d.1)
  where
    All-append_left :
        (ys zs : List Message)
        → All (λ other. x.id ≢ other.id) (ys ++ zs)
        → All (λ other. x.id ≢ other.id) ys
    All-append_left [] zs h = tt
    All-append_left (y ∷ ys) zs h = (h.0, All-append_left ys zs h.1)

is_archived-append :
    (id : ℕ) (rows : List ArchivedMessage) (row : ArchivedMessage)
    → is_archived id (rows ++ row ∷ []) ≡ (is_archived id rows || row.id == id)
is_archived-append id [] row = ground arith
is_archived-append id (r ∷ rows) row = ground (arith, is_archived-append id rows row)

module _ (fails : Faults) where
  delete_all-archive :
      (deleted : List ℕ) (db : Db) → (delete_all fails deleted db).archive ≡ db.archive
  unfolding delete_all remove_message
  delete_all-archive [] db = refl
  delete_all-archive (id ∷ deleted) db =
      delete_all-archive deleted (remove_message fails id db) ∙ ground arith

  create_summary-archive :
      (session : ℕ) (content : Bytes) (db : Db)
      → (create_summary fails session content db).0.archive ≡ db.archive
  unfolding create_summary insert_message
  create_summary-archive session content db = ground arith

  set_count-archive :
      (session count : ℕ) (db : Db)
      → (set_compaction_count fails session count db).archive ≡ db.archive
  unfolding set_compaction_count
  set_count-archive session count db = ground arith

  pub apply_strategy-archive :
      (c : Compactor) (session : ℕ) (p : MessagePartition) (s : StrategyResult) (db : Db)
      → fails create_compaction_event ≡ false
      → (apply_strategy fails c session p s db).1.archive
        ≡ (archive_all fails db.next_id session p.compactable
            (record_event c session p s db)).archive
  unfolding apply_strategy
  apply_strategy-archive c session p s db h =
      let archived =
        archive_all fails db.next_id session p.compactable (record_event c session p s db) in
      let deleted = delete_all fails s.archived_message_ids archived in
      rw h (
        set_count-archive session 1 (create_summary fails session s.summary_text deleted).0
        ∙ create_summary-archive session s.summary_text deleted
        ∙ delete_all-archive s.archived_message_ids archived)

  archive_all-grows :
      (event session : ℕ) (ms : List Message) (db : Db) (row : ArchivedMessage)
      → Memᴰ row db.archive
      → Memᴰ row (archive_all fails event session ms db).archive
  unfolding archive_all insert_archived
  archive_all-grows event session [] db row h = h
  archive_all-grows event session (m ∷ ms) db row h =
      archive_all-grows event session ms (insert_archived fails event session m db) row
        (elim (Bool-cases (fails (archive_message m.id) || is_archived m.id db.archive)) [
          | inl skipped ↦ rw (insert_archived, skipped) h
          | inr made ↦ rw (insert_archived, made) (Memᴰ.append_left _ h)
        ])

  module _ (works : (id : ℕ) → fails (archive_message id) ≡ false) where
    inserted :
        (event session : ℕ) (m : Message) (db : Db)
        → is_archived m.id db.archive ≡ false
        → (row : ArchivedMessage) × ((insert_archived fails event session m db).archive
            ≡ db.archive ++ row ∷ [])
          × (row.id ≡ m.id)
          × (row.original_message ≡ m)
    unfolding insert_archived
    inserted event session m db free = (
      record { id = m.id; compaction_event_id = event; session_id = session; original_message = m },
      rw (works m.id, free) refl,
      refl,
      refl,
    )

    pub archive_all-holds :
        (event session : ℕ) (ms : List Message) (db : Db) (m : Message)
        → DistinctIds ms
        → All (λ x. is_archived x.id db.archive ≡ false) ms
        → Memᴰ m ms
        → InArchive m (archive_all fails event session ms db).archive
    unfolding archive_all
    archive_all-holds event session [] db m d f h = elim h [ ]
    archive_all-holds event session (x ∷ xs) db m d f (Memᴰ.head e) =
        let (row, q, _, original) = inserted event session x db f.0 in
        (
          row,
          archive_all-grows event session xs (insert_archived fails event session x db) row
              (subst (λ l. Memᴰ row l) (sym q) (Memᴰ.append_right db.archive (Memᴰ.head refl))),
          original ∙ sym e,
        )
    archive_all-holds event session (x ∷ xs) db m d f (Memᴰ.tail h) =
        let (row, q, same, _) = inserted event session x db f.0 in
        archive_all-holds event session xs (insert_archived fails event session x db) m d.1
          (still_free xs d.0 f.1) h
      where
        still_free :
            (ys : List Message)
            → All (λ other. x.id ≢ other.id) ys
            → All (λ y. is_archived y.id db.archive ≡ false) ys
            → All
                (λ y. is_archived y.id (insert_archived fails event session x db).archive ≡ false)
                ys
        still_free [] a b = tt
        still_free (y ∷ ys) a b =
            let (row, q, same, _) = inserted event session x db f.0 in
            (
              rw q (is_archived-append y.id db.archive row ∙ ground (arith, a.0, b.0, same)),
              still_free ys a.1 b.1,
            )
