-- ===== src/Compaction/Hybrid/Outcomes.antt =====
-- What the strategies may return: which messages they ask to remove, and the tokens they count.
use agentpg.Base.{
  ◌≡◌, refl, ◌⊎◌, false, List, [], ◌∷◌, keep, Option, none, some, if◌then◌else◌, arith,
}
use agentpg.Driver.{Bytes, Message}
use agentpg.Anthropic.{Sdk}
use agentpg.Compaction.Errors.{Result, ok, err}
use agentpg.Compaction.Config.{Config}
use agentpg.Compaction.Counter.{TokenCounter}
use agentpg.Compaction.Partition.{MessagePartition, ids, compactable_ids, context_messages}
use agentpg.Compaction.Summarize.{
  Summarizer, is_nil, summary_of, user_prompt, summarize_with_context,
}
use agentpg.Compaction.Hybrid.{
  StrategyResult, find_pruned_message_ids, hybrid_prune, summarized, summarized_result,
  execute_summarization, execute_hybrid, execute_strategy,
}
use agentpg.Compaction.Hybrid.Pruning.{is_rewritten, find_pruned-prune, find_pruned_self}

summary_of-text :
    (answer : Option (List (Option Bytes))) (summary : Bytes)
    → summary_of answer ≡ ok summary
    → is_nil summary ≡ false
summary_of-text none summary h = cc
summary_of-text (some blocks) summary h = ground arith

-- A summary that is returned has text.
module _ (sdk : Sdk) where
  open sdk use {stream_summary}

  summary-text :
      (s : Summarizer) (context ms : List Message) (summary : Bytes)
      → summarize_with_context sdk s context ms ≡ ok summary
      → is_nil summary ≡ false
  unfolding summarize_with_context
  summary-text s context [] summary h = cc
  summary-text s context (m ∷ ms) summary h =
      summary_of-text (stream_summary s.model s.max_tokens (user_prompt context (m ∷ ms))) summary h

-- The messages to remove are all the compactable ones, and there is a summary; or there is none,
-- and they are the ones that pruning rewrites.
abbrev pub Removes : Config → MessagePartition → StrategyResult → Type 0
Removes config p s =
    ((s.archived_message_ids ≡ compactable_ids p) × (is_nil s.summary_text ≡ false))
    ⊎ ((s.archived_message_ids
          ≡ (if config.preserve_tool_outputs then [] else ids (keep is_rewritten p.compactable)))
        × (s.summary_text ≡ []))

module _ (sdk : Sdk) (summarizer : Summarizer) (config : Config) (tc : TokenCounter)
    (p : MessagePartition) where
  summarized_result-Removes :
      (context ms : List Message) (s : StrategyResult)
      → (summarized_result sdk summarizer tc p (summarize_with_context sdk summarizer context ms)).0
        ≡ ok s
      → Removes config p s
  unfolding summarized
  summarized_result-Removes context ms s h =
      go (summarize_with_context sdk summarizer context ms) refl h
    where
      go :
          (r : Result Bytes)
          → summarize_with_context sdk summarizer context ms ≡ r
          → (summarized_result sdk summarizer tc p r).0 ≡ ok s
          → Removes config p s
      go (err e) q g = cc
      go (ok summary) q g = ground (arith, summary-text sdk summarizer context ms summary q)

  pruned_ids :
      find_pruned_message_ids p.compactable (hybrid_prune config p).0
      ≡ (if config.preserve_tool_outputs then [] else ids (keep is_rewritten p.compactable))
  unfolding hybrid_prune
  pruned_ids = ground (arith, find_pruned-prune p.compactable, find_pruned_self p.compactable)

  execute_summarization-Removes :
      (s : StrategyResult)
      → (execute_summarization sdk summarizer tc p).0 ≡ ok s
      → Removes config p s
  unfolding execute_summarization
  execute_summarization-Removes s h =
      ground (arith, summarized_result-Removes (context_messages p) p.compactable s)

  execute_hybrid-Removes :
      (s : StrategyResult)
      → (execute_hybrid sdk summarizer config tc p).0 ≡ ok s
      → Removes config p s
  unfolding execute_hybrid
  execute_hybrid-Removes s h = ground (
    arith,
    pruned_ids,
    summarized_result-Removes (context_messages p) (hybrid_prune config p).0 s,
  )

  -- A strategy that succeeds asks to remove all the compactable messages and has a summary that is
  -- not empty; or it has no summary, and asks to remove the compactable messages that pruning
  -- rewrites, or none where the tool outputs are to be preserved.
  pub execute_strategy-Removes :
      (s : StrategyResult)
      → (execute_strategy sdk summarizer config tc p).0 ≡ ok s
      → Removes config p s
  unfolding execute_strategy
  execute_strategy-Removes s h =
      ground (arith, execute_summarization-Removes s, execute_hybrid-Removes s)
