-- ===== src/Compaction/Compactor.antt =====
-- compaction/compaction.go: the compactor over the store. Durations and log lines are left out.
pub mod Effects
pub mod Safety
pub mod Kept
pub mod Archive
pub mod Lossless
use agentpg.Base.{
  ℕ, zero, suc, ◌+◌, Bool, true, false, not, List, [], ◌∷◌, ◌++◌, Option, none, some, length, ◌==◌,
  if◌then◌else◌,
}
use agentpg.Base.Int.{ℤ, pos, leb_ℤ}
use agentpg.Driver.{Bytes, MessageRole, ContentBlock, Message}
use agentpg.Anthropic.{Sdk}
use agentpg.Store.Messages.{
  Session, Db, CompactionEvent, StoreCall, Faults, CreateMessageParams, create_compaction_event,
  get_messages_in, get_session_by, insert_message, remove_message, insert_archived,
  set_compaction_count,
}
use agentpg.Compaction.Errors.{
  Error, Result, ok, err, no_messages_to_compact, storage_error, session_not_found,
}
use agentpg.Compaction.Config.{Config, trigger_threshold}
use agentpg.Compaction.Counter.{TokenCounter, count_tokens, text_message}
use agentpg.Compaction.Partition.{
  MessagePartition, empty_partition, partition_counted, can_compact, all_preserved_ids,
}
use agentpg.Compaction.Summarize.{Summarizer, is_nil}
use agentpg.Compaction.Hybrid.{StrategyResult, execute_strategy}

pub record Compactor : Type 0 where
  pub config : Config
  pub summarizer : Summarizer
  pub token_counter : TokenCounter

pub record CompactResult : Type 0 where
  pub event_id : ℕ
  pub original_tokens : ℕ
  pub compacted_tokens : ℤ
  pub messages_removed : ℕ
  pub preserved_message_ids : List ℕ
  pub summary_created : Bool

-- What a call returns, and the store and counter as it leaves them.
pub record Outcome (A : Type 0) : Type 0 where
  pub result : Result A
  pub db : Db
  pub token_counter : TokenCounter

-- `Partition`, with its error, which is always nil, left out.
unfoldable pub partition_messages :
    Sdk → Config → TokenCounter → List Message → MessagePartition × TokenCounter
partition_messages sdk config tc [] = (empty_partition, tc)
partition_messages sdk config tc (msg ∷ messages) =
    let (result, tc') = count_tokens sdk tc (msg ∷ messages) in
    (partition_counted config (msg ∷ messages) result, tc')

abbrev pub refuse : Error → Db → TokenCounter → Outcome CompactResult
refuse e db tc = record { result = err e; db = db; token_counter = tc }

abbrev pub text_or_none : Bytes → Option Bytes
text_or_none content = if is_nil content then none else some content

abbrev pub summary_params : ℕ → Bytes → CreateMessageParams
summary_params session content =
    let sample = text_message content in
    record {
      session_id = session;
      run_id = none;
      role = MessageRole.assistant;
      content = sample.content;
      usage = sample.usage;
      is_preserved = false;
      is_summary = true;
      metadata = [];
    }

abbrev event_row : Compactor → ℕ → MessagePartition → StrategyResult → Db → CompactionEvent
event_row c session partition strategy db = record {
  id = db.next_id;
  session_id = session;
  original_tokens = partition.stats.total_tokens;
  compacted_tokens = strategy.tokens_after;
  messages_removed = length strategy.archived_message_ids;
  summary_content = text_or_none strategy.summary_text;
  preserved_message_ids = all_preserved_ids partition;
  model_used = if is_nil strategy.summary_text then none else some c.config.summarizer_model;
}

-- The event is given the next identifier.
unfoldable pub record_event : Compactor → ℕ → MessagePartition → StrategyResult → Db → Db
record_event c session partition strategy db = record db {
  events = db.events ++ event_row c session partition strategy db ∷ [];
  next_id = suc db.next_id;
}

module _ (fails : Faults) where
  -- Both loops go on when a call fails.
  unfoldable pub archive_all : ℕ → ℕ → List Message → Db → Db
  archive_all event session [] db = db
  archive_all event session (msg ∷ messages) db =
      archive_all event session messages (insert_archived fails event session msg db)

  unfoldable pub delete_all : List ℕ → Db → Db
  delete_all [] db = db
  delete_all (id ∷ ids) db = delete_all ids (remove_message fails id db)

  unfoldable pub create_summary : ℕ → Bytes → Db → Db × Bool
  create_summary session content db =
      if is_nil content
      then (db, false)
      else insert_message fails db (summary_params session content)

  -- From the event on: archive, delete, summarize, count.
  unfoldable pub apply_strategy :
      Compactor → ℕ → MessagePartition → StrategyResult → Db → Result CompactResult × Db
  apply_strategy c session partition strategy db =
      let event = db.next_id in
      let recorded = record_event c session partition strategy db in
      let archived = archive_all event session partition.compactable recorded in
      let deleted = delete_all strategy.archived_message_ids archived in
      let (summarized, summary_created) = create_summary session strategy.summary_text deleted in
      let counted = set_compaction_count fails session 1 summarized in
      let result : CompactResult = record {
        event_id = event;
        original_tokens = partition.stats.total_tokens;
        compacted_tokens = strategy.tokens_after;
        messages_removed = length strategy.archived_message_ids;
        preserved_message_ids = all_preserved_ids partition;
        summary_created = summary_created;
      } in
      if fails create_compaction_event then (err storage_error, db) else (ok result, counted)

  abbrev pub finish :
      Compactor
      → ℕ
      → MessagePartition
      → Db
      → Result StrategyResult × TokenCounter
      → Outcome CompactResult
  finish c session partition db (err e, tc) = refuse e db tc
  finish c session partition db (ok strategy, tc) =
      let (result, db') = apply_strategy c session partition strategy db in
      record { result = result; db = db'; token_counter = tc }

  module _ (sdk : Sdk) where
    unfoldable pub compact_messages : Compactor → ℕ → Db → List Message → Outcome CompactResult
    compact_messages c session db messages =
        let (partition, tc) = partition_messages sdk c.config c.token_counter messages in
        if length messages == 0
        then refuse no_messages_to_compact db c.token_counter
        else if not (can_compact partition)
        then refuse no_messages_to_compact db tc
        else finish c session partition db (execute_strategy sdk c.summarizer c.config tc partition)

    unfoldable pub compact : Compactor → ℕ → Db → Outcome CompactResult
    compact c session db = elim (get_messages_in fails db session) [
      | none ↦ refuse storage_error db c.token_counter
      | some messages ↦ compact_messages c session db messages
    ]
