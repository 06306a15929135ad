-- ===== src/Compaction/Stats.antt =====
-- The statistics of compaction/compaction.go, and compaction on demand. `UsagePercent`, a quotient of
-- floats that nothing reads, is left out; `scale` is the product of `TriggerThreshold`.
pub mod Counts
use agentpg.Base.{ℕ, ◌+◌, Bool, true, false, List, Option, none, some, length}
use agentpg.Base.Int.{ℤ, pos, leb_ℤ}
use agentpg.Driver.{Message}
use agentpg.Anthropic.{Sdk}
use agentpg.Store.Messages.{Session, Db, Faults, get_messages_in, get_session_by}
use agentpg.Compaction.Errors.{Result, ok, err, storage_error, session_not_found}
use agentpg.Compaction.Config.{trigger_threshold}
use agentpg.Compaction.Counter.{TokenCountResult, TokenCounter, count_tokens}
use agentpg.Compaction.Partition.{MessagePartition}
use agentpg.Compaction.Compactor.{Compactor, CompactResult, partition_messages, compact}

pub record Stats : Type 0 where
  pub total_messages : ℕ
  pub total_tokens : ℕ
  pub compaction_count : ℕ
  pub preserved_messages : ℕ
  pub summary_messages : ℕ
  pub compactable_messages : ℕ
  pub needs_compaction : Bool

-- A call returns, with the counter as it leaves it, or it panics.
pub data Call {ℓ} (A : Type ℓ) : Type ℓ where
  returns : Result A → TokenCounter → Call A
  panics : Call A

module _ (sdk : Sdk) (fails : Faults) (scale : ℤ → ℕ → ℤ) where
  abbrev pub stats_of :
      Compactor → Session → List Message → TokenCountResult → MessagePartition → Stats
  stats_of c session messages result partition = record {
    total_messages = length messages;
    total_tokens = result.total_tokens;
    compaction_count = session.compaction_count;
    preserved_messages =
        length partition.protected + length partition.preserved + length partition.recent;
    summary_messages = length partition.summaries;
    compactable_messages = length partition.compactable;
    needs_compaction = leb_ℤ (trigger_threshold scale c.config) (pos result.total_tokens);
  }

  -- A nil session is read only in the last step, which then panics.
  abbrev pub stats_from : Compactor → List Message → Option Session → Call Stats
  stats_from c messages none = panics
  stats_from c messages (some session) =
      let (result, tc) = count_tokens sdk c.token_counter messages in
      let (partition, tc') = partition_messages sdk c.config tc messages in
      returns (ok (stats_of c session messages result partition)) tc'

  abbrev pub stats_of_session : Compactor → List Message → Option (Option Session) → Call Stats
  stats_of_session c messages none = returns (err session_not_found) c.token_counter
  stats_of_session c messages (some session) = stats_from c messages session

  unfoldable pub get_stats : Compactor → Db → ℕ → Call Stats
  get_stats c db session = elim (get_messages_in fails db session) [
    | none ↦ returns (err storage_error) c.token_counter
    | some messages ↦ stats_of_session c messages (get_session_by fails db session)
  ]

  abbrev needs : Call Stats → Call Bool
  needs (returns (ok stats) tc) = returns (ok stats.needs_compaction) tc
  needs (returns (err e) tc) = returns (err e) tc
  needs panics = panics

  unfoldable pub needs_compaction : Compactor → Db → ℕ → Call Bool
  needs_compaction c db session = needs (get_stats c db session)

  -- `none` is a panic; the result is nil where no compaction was needed.
  abbrev when_needed : Compactor → Db → ℕ → Call Bool → Option (Result (Option CompactResult) × Db)
  when_needed c db session panics = none
  when_needed c db session (returns (err e) tc) = some (err e, db)
  when_needed c db session (returns (ok false) tc) = some (ok none, db)
  when_needed c db session (returns (ok true) tc) =
      let outcome = compact fails sdk (record c { token_counter = tc }) session db in
      some (elim (outcome.result) [ err e ↦ err e | ok result ↦ ok (some result) ], outcome.db)

  unfoldable pub compact_if_needed :
      Compactor → Db → ℕ → Option (Result (Option CompactResult) × Db)
  compact_if_needed c db session = when_needed c db session (needs_compaction c db session)
