-- ===== src/Compaction/Hybrid.antt =====
-- compaction/hybrid.go and compaction/summarization.go: the two strategies.

pub mod Pruning
pub mod Outcomes
use agentpg.Base.{
  ℕ, suc, ◌+◌, ◌-◌, Bool, true, false, not, ◌&&◌, ◌||◌, List, [], ◌∷◌, length, ltb, ◌==◌, bytes_eq,
  if◌then◌else◌, codes, Option, none, some,
}
use agentpg.Base.Int.{ℤ, pos, ◌+ℤ◌, ◌-ℤ◌, leb_ℤ}
use agentpg.Driver.{Bytes, ContentType, ContentBlock, Message, Usage, tool_result}
use agentpg.Anthropic.{Sdk}
use agentpg.Compaction.Errors.{Error, Result, ok, err, no_messages_to_compact}
use agentpg.Compaction.Tokens.{approximate_tokens}
use agentpg.Compaction.Config.{Config, Strategy, summarization}
use agentpg.Compaction.Counter.{TokenCounter, count_tokens_for_content}
use agentpg.Compaction.Partition.{MessagePartition, can_compact, compactable_ids, context_messages}
use agentpg.Compaction.Summarize.{Summarizer, summarize_with_context}

pub record StrategyResult : Type 0 where
  pub summary_text : Bytes
  pub summary_tokens : ℕ
  pub archived_message_ids : List ℕ
  pub tokens_removed : ℕ
  pub tokens_after : ℤ

unfoldable pub pruned_placeholder : Bytes
pruned_placeholder = codes "[TOOL OUTPUT PRUNED]"

abbrev is_tool_result : ContentType → Bool
is_tool_result tool_result = true
is_tool_result _ = false

unfoldable pub is_prunable : ContentBlock → Bool
unfolding pruned_placeholder
is_prunable block =
    is_tool_result block.type && ltb (length pruned_placeholder) (length block.tool_content)

unfoldable pub has_prunable_content : List ContentBlock → Bool
has_prunable_content [] = false
has_prunable_content (block ∷ blocks) = is_prunable block || has_prunable_content blocks

unfoldable pub pruned_block : ContentBlock → ContentBlock
unfolding pruned_placeholder
pruned_block block = record {
  type = block.type;
  text = [];
  tool_use_id = [];
  tool_name = [];
  tool_input = [];
  tool_result_for_use_id = block.tool_result_for_use_id;
  tool_content = pruned_placeholder;
  is_error = block.is_error;
  source = [];
  search_results = [];
  metadata = block.metadata;
}

-- `originalTokens - placeholderTokens`, of a block that is prunable.
unfoldable pub tokens_saved : ContentBlock → ℕ
unfolding pruned_placeholder
tokens_saved block = approximate_tokens block.tool_content - approximate_tokens pruned_placeholder

unfoldable pub prune_content : List ContentBlock → List ContentBlock × ℕ
prune_content [] = ([], 0)
prune_content (block ∷ blocks) =
    let (rest, saved) = prune_content blocks in
    if is_prunable block
    then (pruned_block block ∷ rest, tokens_saved block + saved)
    else (block ∷ rest, saved)

-- The copy leaves `Usage` at its zero value.
unfoldable pub pruned_message : Message → List ContentBlock → Message
pruned_message msg content = record msg {
  content = content;
  usage = record {
    input_tokens = 0;
    output_tokens = 0;
    cache_creation_input_tokens = 0;
    cache_read_input_tokens = 0;
  };
}

unfoldable pub prune_message : Message → Message × ℕ
prune_message msg =
    if msg.is_preserved || msg.is_summary
    then (msg, 0)
    else if not (has_prunable_content msg.content)
    then (msg, 0)
    else let (content, saved) = prune_content msg.content in (pruned_message msg content, saved)

unfoldable pub prune_tool_outputs : List Message → List Message × ℕ
prune_tool_outputs [] = ([], 0)
prune_tool_outputs (msg ∷ messages) =
    let (pruned, saved) = prune_message msg in
    let (rest, saved_rest) = prune_tool_outputs messages in (pruned ∷ rest, saved + saved_rest)

-- The loop of `wasMessagePruned` over the blocks of both messages.
unfoldable pub was_content_pruned : List ContentBlock → List ContentBlock → Bool
was_content_pruned [] pruned = false
was_content_pruned (block ∷ blocks) [] = true
was_content_pruned (block ∷ blocks) (other ∷ pruned) =
    is_tool_result block.type && not (bytes_eq block.tool_content other.tool_content)
    || was_content_pruned blocks pruned

unfoldable pub was_message_pruned : Message → Message → Bool
was_message_pruned original pruned =
    original.id == pruned.id && was_content_pruned original.content pruned.content

unfoldable pub find_pruned_message_ids : List Message → List Message → List ℕ
find_pruned_message_ids [] pruned = []
find_pruned_message_ids (msg ∷ original) [] = []
find_pruned_message_ids (msg ∷ original) (other ∷ pruned) =
    let rest = find_pruned_message_ids original pruned in
    if was_message_pruned msg other then msg.id ∷ rest else rest

-- Phase 1: the messages and the tokens saved.
unfoldable pub hybrid_prune : Config → MessagePartition → List Message × ℕ
hybrid_prune config partition =
    if not config.preserve_tool_outputs
    then prune_tool_outputs partition.compactable
    else (partition.compactable, 0)

unfoldable pub summarized : MessagePartition → Bytes → ℕ → StrategyResult
summarized partition summary summary_tokens = record {
  summary_text = summary;
  summary_tokens = summary_tokens;
  archived_message_ids = compactable_ids partition;
  tokens_removed = partition.stats.compactable_tokens;
  tokens_after =
      pos partition.stats.total_tokens
      -ℤ pos partition.stats.compactable_tokens
      +ℤ pos summary_tokens;
}

module _ (sdk : Sdk) (summarizer : Summarizer) where
  -- The strategies return the token counter as they leave it.
  abbrev pub summarized_result :
      TokenCounter → MessagePartition → Result Bytes → Result StrategyResult × TokenCounter
  summarized_result tc partition (err e) = (err e, tc)
  summarized_result tc partition (ok summary) =
      let (summary_tokens, tc') = count_tokens_for_content sdk tc summary in
      (ok (summarized partition summary summary_tokens), tc')

  unfoldable pub execute_summarization :
      TokenCounter → MessagePartition → Result StrategyResult × TokenCounter
  execute_summarization tc partition =
      if not (can_compact partition)
      then (err no_messages_to_compact, tc)
      else summarized_result tc partition
          (summarize_with_context sdk summarizer (context_messages partition) partition.compactable)

  unfoldable pub execute_hybrid :
      Config → TokenCounter → MessagePartition → Result StrategyResult × TokenCounter
  execute_hybrid config tc partition =
      let (pruned, saved) = hybrid_prune config partition in
      let tokens_after_pruning = pos partition.stats.total_tokens -ℤ pos saved in
      let only_pruned : StrategyResult = record {
        summary_text = [];
        summary_tokens = 0;
        archived_message_ids = find_pruned_message_ids partition.compactable pruned;
        tokens_removed = saved;
        tokens_after = tokens_after_pruning;
      } in
      if not (can_compact partition)
      then (err no_messages_to_compact, tc)
      else if leb_ℤ tokens_after_pruning config.target_tokens
      then (ok only_pruned, tc)
      else summarized_result tc partition
          (summarize_with_context sdk summarizer (context_messages partition) pruned)

  -- The strategy that the factory creates; any other name gives the hybrid one.
  unfoldable pub execute_strategy :
      Config → TokenCounter → MessagePartition → Result StrategyResult × TokenCounter
  execute_strategy config tc partition = elim config.strategy [
    | summarization ↦ execute_summarization tc partition
    | _ ↦ execute_hybrid config tc partition
  ]
