-- ===== src/Compaction/Compactor/Lossless.antt =====
-- What a compaction deletes is in the archive, if archiving does not fail.
use mathlib.Core.Path.{subst}
use agentpg.Base.{
  ℕ, ◌≡◌, refl, sym, ap, inl, inr, ◌⊎◌, true, false, List, [], ◌∷◌, All, All-Memᴰ, Memᴰ, length,
  Bool-cases, arith,
}
use agentpg.Driver.{Message}
use agentpg.Anthropic.{Sdk}
use agentpg.Store.Messages.{
  Db, Faults, get_messages, create_compaction_event, archive_message, is_archived, in_session,
  messages_of, get_messages_in,
}
use agentpg.Compaction.Errors.{Result, ok, err}
use agentpg.Compaction.Counter.{TokenCounter, count_tokens}
use agentpg.Compaction.Partition.{MessagePartition, DistinctIds, ids, can_compact}
use agentpg.Compaction.Partition.Conservation.{partition-shape}
use agentpg.Compaction.Hybrid.{StrategyResult, execute_strategy}
use agentpg.Compaction.Compactor.{
  Compactor, partition_messages, apply_strategy, record_event, finish, compact_messages, compact,
}
use agentpg.Compaction.Compactor.Effects.{apply_strategy-refused, contains}
use agentpg.Compaction.Compactor.Safety.{found, suc-ne}
use agentpg.Compaction.Compactor.Kept.{
  holder, found-Memᴰ, Distinct-eq, Distinct-keep, compact-keeps,
}
use agentpg.Compaction.Compactor.Archive.{
  InArchive, Distinct-append_left, apply_strategy-archive, archive_all-holds,
}

All-Memᴰ_intro {κ} :
    (P : Message → Type κ) (xs : List Message) → ((x : Message) → Memᴰ x xs → P x) → All P xs
All-Memᴰ_intro P [] h = tt
All-Memᴰ_intro P (x ∷ xs) h = (h x (Memᴰ.head refl), All-Memᴰ_intro P xs (λ y m. h y (Memᴰ.tail m)))

contains-Memᴰ : (m : Message) (ms : List Message) → Memᴰ m ms → contains m.id (ids ms) ≡ true
unfolding contains
contains-Memᴰ m [] h = elim h [ ]
contains-Memᴰ m (x ∷ xs) (Memᴰ.head e) = ground (arith, ap (λ (y : Message). y.id) e)
contains-Memᴰ m (x ∷ xs) (Memᴰ.tail h) = ground (arith, contains-Memᴰ m xs h)

module _ (fails : Faults) (sdk : Sdk) (c : Compactor) (session : ℕ) (db : Db) where
  -- A compaction leaves the store as it was, or it has applied what a strategy returned.
  abbrev Outcomes : MessagePartition → Db → Type 0
  Outcomes p db' =
      (db' ≡ db)
      ⊎ ((s : StrategyResult) × (fails create_compaction_event ≡ false)
          × (db' ≡ (apply_strategy fails c session p s db).1))

  finish-Outcomes :
      (p : MessagePartition) (r : Result StrategyResult × TokenCounter)
      → Outcomes p (finish fails c session p db r).db
  finish-Outcomes p (err e, tc) = inl refl
  finish-Outcomes p (ok s, tc) = elim (Bool-cases (fails create_compaction_event)) [
    | inl failed ↦ inl (apply_strategy-refused fails c session p s db failed)
    | inr recorded ↦ inr (s, recorded, refl)
  ]

  messages-Outcomes :
      (ms : List Message)
      → Outcomes
          (partition_messages sdk c.config c.token_counter ms).0
          (compact_messages fails sdk c session db ms).db
  unfolding compact_messages
  messages-Outcomes [] = inl refl
  messages-Outcomes (m ∷ ms) =
      let (p, tc) = partition_messages sdk c.config c.token_counter (m ∷ ms) in
      elim (Bool-cases (can_compact p)) [
        | inl can ↦
            rw (compact_messages, suc-ne fails (length ms), can)
              (finish-Outcomes p (execute_strategy sdk c.summarizer c.config tc p))
        | inr cannot ↦ rw (compact_messages, suc-ne fails (length ms), cannot) (inl refl)
      ]

  abbrev groups : MessagePartition
  groups = found fails sdk c session db

  compact-Outcomes : Outcomes groups (compact fails sdk c session db).db
  unfolding compact get_messages_in
  compact-Outcomes = elim (Bool-cases (fails get_messages)) [
    | inl failed ↦ rw (compact, get_messages_in, failed) (inl refl)
    | inr read ↦ rw (compact, get_messages_in, read) (messages-Outcomes (messages_of db session))
  ]

  compactable-distinct :
      (ms : List Message)
      → DistinctIds ms
      → DistinctIds (partition_messages sdk c.config c.token_counter ms).0.compactable
  unfolding partition_messages
  compactable-distinct [] d = tt
  compactable-distinct (m ∷ ms) d =
      let result = (count_tokens sdk c.token_counter (m ∷ ms)).0 in
      let (before, e, _, _, _, compactable) = partition-shape c.config (m ∷ ms) result d in
      subst DistinctIds (sym compactable)
        (Distinct-keep _ before (Distinct-append_left before _ (subst DistinctIds e d)))

  module _ (works : (id : ℕ) → fails (archive_message id) ≡ false)
      (distinct : DistinctIds db.messages)
      (free : All (λ x. is_archived x.id db.archive ≡ false) db.messages) (m : Message)
      (stored : Memᴰ m db.messages) where
    archived-holds :
        (s : StrategyResult)
        → fails create_compaction_event ≡ false
        → Memᴰ m groups.compactable
        → InArchive m (apply_strategy fails c session groups s db).1.archive
    unfolding messages_of record_event
    archived-holds s recorded m_in =
        subst (InArchive m) (sym (apply_strategy-archive fails c session groups s db recorded)) (
          archive_all-holds fails works db.next_id session groups.compactable
            (record_event c session groups s db) m
            (compactable-distinct (messages_of db session)
              (Distinct-keep (in_session session) db.messages distinct))
            (All-Memᴰ_intro _ groups.compactable (λ x x_in.
              All-Memᴰ _ x db.messages free
                (found-Memᴰ fails sdk c session db distinct m stored x x_in).0))
            m_in)

    -- Nothing is lost: if identifiers are distinct, no stored message is in the archive yet and no
    -- insertion into the archive fails, then each message that was stored is afterwards still stored,
    -- unchanged, or in the archive, with all its content. This holds whichever other calls fail.
    pub compact-archives :
        Memᴰ m (compact fails sdk c session db).db.messages
        ⊎ InArchive m (compact fails sdk c session db).db.archive
    compact-archives = elim (Bool-cases (contains m.id (ids groups.compactable))) [
      | inr outside ↦ inl (
          compact-keeps fails sdk c session db distinct m stored
            (λ m_in. absurd (ground (arith, contains-Memᴰ m groups.compactable m_in))))
      | inl held ↦
          let (x, x_in, e) = holder m.id groups.compactable held in
          let x_stored = (found-Memᴰ fails sdk c session db distinct m stored x x_in).0 in
          let same = Distinct-eq db.messages x m distinct x_stored stored e in
          elim compact-Outcomes [
            | inl unchanged ↦ inl (subst (λ d. Memᴰ m d.messages) (sym unchanged) stored)
            | inr (s, recorded, applied) ↦ inr (
                subst (λ d. InArchive m d.archive) (sym applied)
                  (archived-holds s recorded (subst (λ y. Memᴰ y groups.compactable) same x_in)))
          ]
    ]
