-- ===== src/Compaction/Compactor/Safety.antt =====
-- A compaction removes compactable messages only.
use mathlib.Core.List.{append-nil}
use mathlib.Core.Path.{fun_ext}
use agentpg.Base.{
  ℕ, suc, ◌≡◌, refl, sym, ap, ◌∙◌, inl, inr, Bool, true, false, not, List, [], ◌∷◌, ◌++◌, keep, All,
  length, ◌==◌, Bool-cases, arith,
}
use agentpg.Driver.{Message}
use agentpg.Anthropic.{Sdk}
use agentpg.Store.Messages.{
  Db, Faults, messages_of, get_messages, get_messages_in, create_compaction_event,
}
use agentpg.Compaction.Errors.{Error, Result, ok, err}
use agentpg.Compaction.Config.{Config}
use agentpg.Compaction.Counter.{TokenCounter}
use agentpg.Compaction.Partition.{MessagePartition, ids, can_compact, compactable_ids}
use agentpg.Compaction.Hybrid.{StrategyResult, execute_strategy}
use agentpg.Compaction.Hybrid.Pruning.{is_rewritten}
use agentpg.Compaction.Hybrid.Outcomes.{Removes, execute_strategy-Removes}
use agentpg.Compaction.Compactor.{
  Compactor, partition_messages, apply_strategy, finish, compact_messages, compact,
}
use agentpg.Compaction.Compactor.Effects.{
  survives-performed, performed, contains, IsNew, apply_strategy-messages, apply_strategy-refused,
}

abbrev pub Among : List ℕ → List ℕ → Type 0
Among xs ys = All (λ id. contains id ys ≡ true) xs

-- The messages have lost some of the compactable ones, and gained a summary at most.
abbrev pub Compacts : ℕ → List Message → Db → Db → Type 0
Compacts session compactable db db' =
    (removed : List ℕ) × (new : List Message) × (db'.messages
      ≡ keep (λ m. not (contains m.id removed)) db.messages ++ new)
    × Among removed (ids compactable)
    × IsNew session new

keep_all : (ms : List Message) → ms ≡ keep (λ m. not (contains m.id [])) ms
unfolding contains
keep_all [] = refl
keep_all (m ∷ ms) = ap (◌∷◌ m) (keep_all ms)

unchanged :
    (session : ℕ) (compactable : List Message) (db : Db) → Compacts session compactable db db
unfolding contains
unchanged session compactable db =
    ([], [], keep_all db.messages ∙ sym (append-nil _), tt, (omega arith, tt))

Among-cons : (y : ℕ) (xs ys : List ℕ) → Among xs ys → Among xs (y ∷ ys)
unfolding contains
Among-cons y [] ys h = tt
Among-cons y (x ∷ xs) ys h = (ground (arith, h.0), Among-cons y xs ys h.1)

Among-refl : (xs : List ℕ) → Among xs xs
unfolding contains
Among-refl [] = tt
Among-refl (x ∷ xs) = (ground arith, Among-cons x xs xs (Among-refl xs))

Among-keep : (p : ℕ → Bool) (xs ys : List ℕ) → Among xs ys → Among (keep p xs) ys
Among-keep p [] ys h = tt
Among-keep p (x ∷ xs) ys h = ground (arith, Among-keep p xs ys, h.0, h.1)

Among-ids : (p : Message → Bool) (ms : List Message) → Among (ids (keep p ms)) (ids ms)
unfolding contains
Among-ids p [] = tt
Among-ids p (m ∷ ms) =
    let later = Among-cons m.id (ids (keep p ms)) (ids ms) (Among-ids p ms) in
    elim (Bool-cases (p m)) [
      | inl kept ↦ rw kept (ground arith, later)
      | inr dropped ↦ rw dropped later
    ]

-- What a strategy asks to remove is compactable.
removed-Among :
    (config : Config) (p : MessagePartition) (s : StrategyResult)
    → Removes config p s
    → Among s.archived_message_ids (ids p.compactable)
unfolding compactable_ids
removed-Among config p s (inl (all, _)) = rw all (Among-refl (ids p.compactable))
removed-Among config p s (inr (some_of, _)) =
    rw some_of (elim (Bool-cases config.preserve_tool_outputs) [
      | inl preserve ↦ rw preserve tt
      | inr prune ↦ rw prune (Among-ids is_rewritten p.compactable)
    ])

module _ (fails : Faults) where
  apply-Compacts :
      (c : Compactor) (session : ℕ) (p : MessagePartition) (s : StrategyResult) (db : Db)
      → Removes c.config p s
      → Compacts session p.compactable db (apply_strategy fails c session p s db).1
  apply-Compacts c session p s db r = elim (Bool-cases (fails create_compaction_event)) [
    | inl failed ↦
        rw (apply_strategy-refused fails c session p s db failed)
          (unchanged session p.compactable db)
    | inr recorded ↦
        let (new, e, is_new) = apply_strategy-messages fails c session p s db recorded in
        (
          performed fails s.archived_message_ids,
          new,
          e
              ∙ ap (λ (f : Message → Bool). keep f db.messages ++ new)
                  (fun_ext (survives-performed fails s.archived_message_ids)),
          Among-keep _ s.archived_message_ids (ids p.compactable) (removed-Among c.config p s r),
          is_new,
        )
  ]

  finish-Compacts :
      (c : Compactor) (session : ℕ) (p : MessagePartition) (db : Db)
      (r : Result StrategyResult × TokenCounter)
      → ((s : StrategyResult) → r.0 ≡ ok s → Removes c.config p s)
      → Compacts session p.compactable db (finish fails c session p db r).db
  finish-Compacts c session p db (err e, tc) h = unchanged session p.compactable db
  finish-Compacts c session p db (ok s, tc) h = apply-Compacts c session p s db (h s refl)

  apply-refused :
      (c : Compactor) (session : ℕ) (p : MessagePartition) (s : StrategyResult) (db : Db)
      (e : Error)
      → (apply_strategy fails c session p s db).0 ≡ err e
      → (apply_strategy fails c session p s db).1 ≡ db
  unfolding apply_strategy
  apply-refused c session p s db e h = ground arith

  finish-refused :
      (c : Compactor) (session : ℕ) (p : MessagePartition) (db : Db)
      (r : Result StrategyResult × TokenCounter) (e : Error)
      → (finish fails c session p db r).result ≡ err e
      → (finish fails c session p db r).db ≡ db
  finish-refused c session p db (err e', tc) e h = refl
  finish-refused c session p db (ok s, tc) e h = apply-refused c session p s db e h

  pub suc-ne : (n : ℕ) → (suc n == 0) ≡ false
  suc-ne n = ground arith

  module _ (sdk : Sdk) (c : Compactor) (session : ℕ) (db : Db) where
    abbrev partition_in : List Message → MessagePartition
    partition_in messages = (partition_messages sdk c.config c.token_counter messages).0

    messages-Compacts :
        (ms : List Message)
        → Compacts session
            (partition_in ms).compactable
            db
            (compact_messages fails sdk c session db ms).db
    unfolding compact_messages
    messages-Compacts [] = unchanged session (partition_in []).compactable db
    messages-Compacts (m ∷ ms) =
        let (p, tc) = partition_messages sdk c.config c.token_counter (m ∷ ms) in
        elim (Bool-cases (can_compact p)) [
          | inl can ↦
              rw (compact_messages, suc-ne (length ms), can)
                (finish-Compacts c session p db (execute_strategy sdk c.summarizer c.config tc p)
                  (execute_strategy-Removes sdk c.summarizer c.config tc p))
          | inr cannot ↦
              rw (compact_messages, suc-ne (length ms), cannot) (unchanged session p.compactable db)
        ]

    messages-refused :
        (ms : List Message) (e : Error)
        → (compact_messages fails sdk c session db ms).result ≡ err e
        → (compact_messages fails sdk c session db ms).db ≡ db
    unfolding compact_messages
    messages-refused [] e h = refl
    messages-refused (m ∷ ms) e h =
        let (p, tc) = partition_messages sdk c.config c.token_counter (m ∷ ms) in
        ground
          (arith, finish-refused c session p db (execute_strategy sdk c.summarizer c.config tc p) e)

    abbrev pub found : MessagePartition
    found = partition_in (messages_of db session)

    -- Compacting a session deletes some of the messages that the partition of the session calls
    -- compactable, keeps all others of the store in their order, and appends one message at most,
    -- a summary of this session. This holds whichever calls of the store fail.
    pub compact-Compacts : Compacts session found.compactable db (compact fails sdk c session db).db
    unfolding compact get_messages_in
    compact-Compacts = elim (Bool-cases (fails get_messages)) [
      | inl failed ↦ rw (compact, get_messages_in, failed) (unchanged session found.compactable db)
      | inr read ↦ rw (compact, get_messages_in, read) (messages-Compacts (messages_of db session))
    ]

    -- A compaction that returns an error leaves every table of the store as it was.
    pub compact-refused :
        (e : Error)
        → (compact fails sdk c session db).result ≡ err e
        → (compact fails sdk c session db).db ≡ db
    unfolding compact get_messages_in
    compact-refused e h = ground (arith, messages-refused (messages_of db session) e)
