-- ===== src/Compaction/Compactor/Effects.antt =====
-- What the steps of a compaction do to the tables.
use mathlib.Core.List.{append-nil}
use agentpg.Base.{
  ℕ, ◌≡◌, refl, sym, ap, ◌∙◌, ◌≤◌, inl, inr, Bool, true, false, not, ◌&&◌, ◌||◌, List, [], ◌∷◌,
  ◌++◌, keep, All, length, ◌==◌, Bool-cases, arith,
}
use agentpg.Driver.{Bytes, Message}
use agentpg.Store.Messages.{
  Db, Faults, create_compaction_event, create_message, delete_message, written_blocks, message_row,
  insert_message, remove_message, insert_archived, set_compaction_count,
}
use agentpg.Compaction.Partition.{MessagePartition}
use agentpg.Compaction.Summarize.{is_nil}
use agentpg.Compaction.Hybrid.{StrategyResult}
use agentpg.Compaction.Compactor.{
  Compactor, archive_all, delete_all, create_summary, apply_strategy, record_event, summary_params,
}

unfoldable pub contains : ℕ → List ℕ → Bool
contains id [] = false
contains id (x ∷ xs) = x == id || contains id xs

-- One message more at most: the summary.
abbrev pub IsNew : ℕ → List Message → Type 0
IsNew session new =
    (length new ≤ 1) × All (λ m. (m.is_summary ≡ true) × (m.session_id ≡ session)) new

module _ (fails : Faults) where
  -- A message stays if it is not among the ones to delete, or if its deletion fails.
  unfoldable pub survives : List ℕ → Message → Bool
  unfolding contains
  survives deleted msg = not (contains msg.id deleted) || fails (delete_message msg.id)

  -- The deletions that do not fail.
  abbrev pub performed : List ℕ → List ℕ
  performed = keep (λ id. not (fails (delete_message id)))

  contains-performed :
      (id : ℕ) (deleted : List ℕ)
      → contains id (performed deleted) ≡ (contains id deleted && not (fails (delete_message id)))
  unfolding contains
  contains-performed id [] = refl
  contains-performed id (x ∷ xs) = ground (arith, contains-performed id xs)

  pub survives-performed :
      (deleted : List ℕ) (msg : Message)
      → survives deleted msg ≡ not (contains msg.id (performed deleted))
  unfolding survives
  survives-performed deleted msg = ground (arith, contains-performed msg.id deleted)

  keep-keep :
      (id : ℕ) (deleted : List ℕ) (ms : List Message)
      → fails (delete_message id) ≡ false
      → keep (survives deleted) (keep (λ msg. not (msg.id == id)) ms)
        ≡ keep (survives (id ∷ deleted)) ms
  unfolding survives
  keep-keep id deleted [] h = refl
  keep-keep id deleted (msg ∷ ms) h = ground (arith, keep-keep id deleted ms h)

  keep-failed :
      (id : ℕ) (deleted : List ℕ) (ms : List Message)
      → fails (delete_message id) ≡ true
      → keep (survives deleted) ms ≡ keep (survives (id ∷ deleted)) ms
  unfolding survives
  keep-failed id deleted [] h = refl
  keep-failed id deleted (msg ∷ ms) h = ground (arith, keep-failed id deleted ms h)

  keep-all : (ms : List Message) → ms ≡ keep (survives []) ms
  unfolding survives
  keep-all [] = refl
  keep-all (msg ∷ ms) = ap (◌∷◌ msg) (keep-all ms)

  after_one :
      (id : ℕ) (deleted : List ℕ) (db : Db) (failed : Bool)
      → fails (delete_message id) ≡ failed
      → keep (survives deleted) (remove_message fails id db).messages
        ≡ keep (survives (id ∷ deleted)) db.messages
  unfolding remove_message
  after_one id deleted db true h = rw h (keep-failed id deleted db.messages h)
  after_one id deleted db false h = rw h (keep-keep id deleted db.messages h)

  pub delete_all-messages :
      (deleted : List ℕ) (db : Db)
      → (delete_all fails deleted db).messages ≡ keep (survives deleted) db.messages
  unfolding delete_all remove_message
  delete_all-messages [] db = keep-all db.messages
  delete_all-messages (id ∷ deleted) db =
      delete_all-messages deleted (remove_message fails id db)
      ∙ after_one id deleted db (fails (delete_message id)) refl

  pub archive_all-messages :
      (event session : ℕ) (ms : List Message) (db : Db)
      → (archive_all fails event session ms db).messages ≡ db.messages
  unfolding archive_all insert_archived
  archive_all-messages event session [] db = refl
  archive_all-messages event session (msg ∷ ms) db =
      archive_all-messages event session ms (insert_archived fails event session msg db)
      ∙ ground arith

  pub create_summary-messages :
      (session : ℕ) (content : Bytes) (db : Db)
      → (new : List Message) × ((create_summary fails session content db).0.messages
          ≡ db.messages ++ new)
        × IsNew session new
  unfolding create_summary insert_message
  create_summary-messages session content db = elim (Bool-cases (is_nil content)) [
    | inl empty ↦ ([], rw empty (sym (append-nil db.messages)), (omega arith, tt))
    | inr full ↦ elim (Bool-cases (fails create_message)) [
      | inl failed ↦ ([], rw (full, failed) (sym (append-nil db.messages)), (omega arith, tt))
      | inr made ↦ (
        message_row db (summary_params session content)
              (written_blocks fails 0 (summary_params session content).content)
            ∷ [],
        rw (full, made) refl,
        (omega arith, ((refl, refl), tt)),
      )
    ]
  ]

  set_count-messages :
      (session count : ℕ) (db : Db)
      → (set_compaction_count fails session count db).messages ≡ db.messages
  unfolding set_compaction_count
  set_count-messages session count db = ground arith

  -- The messages after a compaction: those that survive the deletions, and the summary.
  pub apply_strategy-messages :
      (c : Compactor) (session : ℕ) (p : MessagePartition) (s : StrategyResult) (db : Db)
      → fails create_compaction_event ≡ false
      → (new : List Message) × ((apply_strategy fails c session p s db).1.messages
          ≡ keep (survives s.archived_message_ids) db.messages ++ new)
        × IsNew session new
  unfolding apply_strategy record_event
  apply_strategy-messages c session p s db h =
      let recorded = record_event c session p s db in
      let archived = archive_all fails db.next_id session p.compactable recorded in
      let deleted = delete_all fails s.archived_message_ids archived in
      let summarized = (create_summary fails session s.summary_text deleted).0 in
      let (new, e, is_new) = create_summary-messages session s.summary_text deleted in
      (
        new,
        rw h (
            set_count-messages session 1 summarized
            ∙ e
            ∙ ap (λ ms. ms ++ new)
                (delete_all-messages s.archived_message_ids archived
                  ∙ ap (keep (survives s.archived_message_ids))
                      (archive_all-messages db.next_id session p.compactable recorded))),
        is_new,
      )

  pub apply_strategy-refused :
      (c : Compactor) (session : ℕ) (p : MessagePartition) (s : StrategyResult) (db : Db)
      → fails create_compaction_event ≡ true
      → (apply_strategy fails c session p s db).1 ≡ db
  unfolding apply_strategy
  apply_strategy-refused c session p s db h = rw h refl
