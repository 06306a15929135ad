-- ===== src/Tests/Compaction.antt =====
-- Runs of the theorems on compaction and on its statistics.
use agentpg.Base.{ℕ, ◌≡◌, ◌≢◌, refl, ◌⊎◌, true, List, [], ◌∷◌, All, All-Memᴰ, Memᴰ, codes}
use agentpg.Base.Int.{ℤ, pos, ◌-ℤ◌, ◌+ℤ◌}
use agentpg.Driver.{Message}
use agentpg.Store.Messages.{messages_of, get_messages_in}
use agentpg.Compaction.Errors.{storage_error}
use agentpg.Compaction.Config.{default_config}
use agentpg.Compaction.Counter.{
  count_with_approximation, count_tokens, count_messages, count_tokens_for_content,
}
use agentpg.Compaction.Partition.{
  MessagePartition, partition_counted, estimate_per_message_tokens, sort_items, protect_pass,
  recent_pass, remaining_pass, exists, add_protected, add_recent, add_remaining, can_compact,
  compactable_ids,
}
use agentpg.Compaction.Tokens.{
  estimate_message_tokens, add_block_tokens, block_tokens, approximate_tokens,
}
use agentpg.Compaction.Summarize.{summarize_with_context, answer_text}
use agentpg.Compaction.Hybrid.{
  StrategyResult, prune_tool_outputs, execute_strategy, execute_hybrid, hybrid_prune, prune_message,
  prune_content, pruned_message, pruned_block, is_prunable, has_prunable_content, tokens_saved,
  pruned_placeholder, summarized,
}
use agentpg.Compaction.Hybrid.Outcomes.{Removes, execute_strategy-Removes}
use agentpg.Compaction.Compactor.{compact, compact_messages, partition_messages, apply_strategy}
use agentpg.Compaction.Compactor.Safety.{Compacts, found, compact-Compacts, compact-refused}
use agentpg.Compaction.Stats.{Stats}
use agentpg.Compaction.Compactor.Archive.{InArchive}
use agentpg.Compaction.Compactor.Lossless.{compact-archives}
use agentpg.Compaction.Compactor.Kept.{compact-keeps-flagged}
use agentpg.Tests.Data.{
  question, looked_up, pinned, earlier, latest, conversation, small_zone, plain_counter, sdk,
  summarizer, compactor, store, never, no_events, conversation-distinct,
}

compact-Compacts_example :
    Compacts 1
      (found never sdk compactor 1 store).compactable
      store
      (compact never sdk compactor 1 store).db
compact-Compacts_example = compact-Compacts never sdk compactor 1 store

pinned-stored : Memᴰ pinned conversation
pinned-stored = Memᴰ.tail (Memᴰ.tail (Memᴰ.head refl))

compact-keeps-flagged_example : Memᴰ pinned (compact never sdk compactor 1 store).db.messages
compact-keeps-flagged_example =
    compact-keeps-flagged never sdk compactor 1 store conversation-distinct pinned pinned-stored
      refl

compact-archives_example :
    Memᴰ looked_up (compact never sdk compactor 1 store).db.messages
    ⊎ InArchive looked_up (compact never sdk compactor 1 store).db.archive
compact-archives_example =
    compact-archives never sdk compactor 1 store (λ id. refl) conversation-distinct
      (refl, (refl, (refl, (refl, (refl, tt))))) looked_up (Memᴰ.tail (Memᴰ.head refl))

compact-refused_example : (compact no_events sdk compactor 1 store).db ≡ store
unfolding compact compact_messages get_messages_in messages_of partition_messages count_tokens
    count_with_approximation count_messages estimate_message_tokens add_block_tokens block_tokens
    approximate_tokens partition_counted estimate_per_message_tokens sort_items protect_pass
    recent_pass remaining_pass exists add_protected add_recent add_remaining can_compact
    execute_strategy execute_hybrid hybrid_prune prune_tool_outputs prune_message prune_content
    pruned_message pruned_block is_prunable has_prunable_content tokens_saved pruned_placeholder
    summarize_with_context answer_text count_tokens_for_content summarized apply_strategy
    default_config ◌-ℤ◌
compact-refused_example = compact-refused no_events sdk compactor 1 store storage_error refl

other_id : (m : Message) (ms : List Message) → All (λ other. m.id ≢ other.id) ms → ¬ Memᴰ m ms
other_id m ms h m_in = All-Memᴰ (λ other. m.id ≢ other.id) m ms h m_in refl

-- The partition of the conversation, and what the strategy makes of it.
abbrev groups : MessagePartition
groups = record {
  protected = latest ∷ [];
  preserved = pinned ∷ [];
  recent = [];
  summaries = earlier ∷ [];
  compactable = question ∷ looked_up ∷ [];
  stats = record {
    protected_tokens = 5;
    preserved_tokens = 6;
    recent_tokens = 0;
    summary_tokens = 6;
    compactable_tokens = 31;
    total_tokens = 48;
  };
}

abbrev replaced : StrategyResult
replaced = record {
  summary_text = codes "what was said";
  summary_tokens = 4;
  archived_message_ids = 1 ∷ 2 ∷ [];
  tokens_removed = 31;
  tokens_after = pos 21;
}

execute_strategy-Removes_example : Removes small_zone groups replaced
unfolding execute_strategy execute_hybrid hybrid_prune prune_tool_outputs prune_message
    prune_content pruned_message pruned_block is_prunable has_prunable_content tokens_saved
    pruned_placeholder summarize_with_context answer_text count_tokens_for_content summarized
    default_config can_compact compactable_ids approximate_tokens ◌-ℤ◌ ◌+ℤ◌
execute_strategy-Removes_example =
    execute_strategy-Removes sdk summarizer small_zone plain_counter groups replaced refl

abbrev forty : ℤ → ℕ → ℤ
forty max trigger = pos 40

abbrev stats : Stats
stats = record {
  total_messages = 5;
  total_tokens = 48;
  compaction_count = 0;
  preserved_messages = 2;
  summary_messages = 1;
  compactable_messages = 2;
  needs_compaction = true;
}
