-- ===== src/Tests/Partition.antt =====
-- Runs of the theorems on the partition and on the pruning.
use mathlib.Core.List.{Perm}
use agentpg.Base.{◌-◌, ◌≤◌, ◌≡◌, true, not, ◌&&◌, List, [], ◌∷◌, ◌++◌, keep, length, min, arith}
use agentpg.Base.Int.{pos_part}
use agentpg.Driver.{Message}
use agentpg.Compaction.Config.{default_config}
use agentpg.Compaction.Counter.{TokenCountResult}
use agentpg.Compaction.Partition.{partition_counted, estimate_per_message_tokens}
use agentpg.Compaction.Partition.Conservation.{partition-perm, partition-shape}
use agentpg.Compaction.Partition.Zone.{protected-max}
use agentpg.Compaction.Tokens.{
  estimate_message_tokens, add_block_tokens, block_tokens, approximate_tokens,
}
use agentpg.Compaction.Hybrid.{
  prune_tool_outputs, find_pruned_message_ids, is_prunable, has_prunable_content,
  pruned_placeholder,
}
use agentpg.Compaction.Hybrid.Pruning.{find_pruned-prune}
use agentpg.Tests.Data.{conversation, small_zone, conversation-distinct}

abbrev counts : TokenCountResult
counts = record { total_tokens = 50; used_api = true; per_message = [] }

partition-perm_example :
    let p = partition_counted small_zone conversation counts in
    Perm conversation ((p.preserved ++ (p.summaries ++ p.compactable)) ++ (p.recent ++ p.protected))
partition-perm_example = partition-perm small_zone conversation counts conversation-distinct

partition-shape_example :
    let p = partition_counted small_zone conversation counts in
    (before : List Message) × (conversation ≡ before ++ (p.recent ++ p.protected))
    × (length p.recent
        ≡ min (pos_part small_zone.preserve_last_n) (length conversation - length p.protected))
    × (p.summaries ≡ keep (λ m. m.is_summary) before)
    × (p.preserved ≡ keep (λ m. not m.is_summary && m.is_preserved) before)
    × (p.compactable ≡ keep (λ m. not m.is_summary && not m.is_preserved) before)
partition-shape_example = partition-shape small_zone conversation counts conversation-distinct

protected-max_example : 1 ≤ length (partition_counted small_zone conversation counts).protected
unfolding estimate_per_message_tokens estimate_message_tokens add_block_tokens block_tokens
    approximate_tokens default_config
protected-max_example =
    protected-max small_zone conversation counts conversation-distinct 1 (omega arith) (omega arith)

find_pruned-prune_example :
    find_pruned_message_ids conversation (prune_tool_outputs conversation).0 ≡ 2 ∷ []
unfolding is_prunable has_prunable_content pruned_placeholder
find_pruned-prune_example = find_pruned-prune conversation
