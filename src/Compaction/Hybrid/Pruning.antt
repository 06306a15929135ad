-- ===== src/Compaction/Hybrid/Pruning.antt =====
-- What pruning the tool outputs changes, and what it keeps.
use agentpg.Base.{
  ℕ, ◌+◌, ◌≤◌, ◌<◌, ◌≡◌, refl, ap, inl, inr, Bool, true, false, not, ◌&&◌, ◌||◌, List, [], ◌∷◌,
  length, total, keep, bytes_eq, bytes_eq_refl, eq_of_bytes_eq, Bool-cases, arith,
}
use agentpg.Driver.{Bytes, ContentBlock, Message}
use agentpg.Compaction.Tokens.{
  approximate_tokens, block_tokens, add_block_tokens, estimate_message_tokens,
}
use agentpg.Compaction.Partition.{ids}
use agentpg.Compaction.Hybrid.{
  pruned_placeholder, is_prunable, has_prunable_content, pruned_block, tokens_saved, prune_content,
  pruned_message, prune_message, prune_tool_outputs, was_content_pruned, was_message_pruned,
  find_pruned_message_ids, is_tool_result,
}

abbrev tokens_of : ContentBlock → ℕ
tokens_of block = block_tokens block.type block

add_block_tokens-eq :
    (sum : ℕ) (blocks : List ContentBlock)
    → add_block_tokens sum blocks ≡ sum + total tokens_of blocks
unfolding add_block_tokens
add_block_tokens-eq sum [] = omega arith
add_block_tokens-eq sum (block ∷ blocks) =
    omega (arith, add_block_tokens-eq (sum + tokens_of block) blocks)

estimate-eq : (msg : Message) → estimate_message_tokens msg ≡ 4 + total tokens_of msg.content
unfolding estimate_message_tokens
estimate-eq msg = add_block_tokens-eq 4 msg.content

approximate_tokens-placeholder : approximate_tokens pruned_placeholder ≡ 5
unfolding approximate_tokens pruned_placeholder
approximate_tokens-placeholder = refl

-- The placeholder is never the larger one, so the count of saved tokens is exact.
placeholder-le : (content : Bytes) → 20 < length content → 5 ≤ approximate_tokens content
unfolding approximate_tokens
placeholder-le content h = ground arith

tokens_saved-exact :
    (block : ContentBlock)
    → is_prunable block ≡ true
    → tokens_of (pruned_block block) + tokens_saved block ≡ tokens_of block
unfolding is_prunable pruned_block tokens_saved block_tokens
tokens_saved-exact block h =
    ground (arith, placeholder-le block.tool_content, approximate_tokens-placeholder)

prune_content-tokens :
    (blocks : List ContentBlock)
    → total tokens_of (prune_content blocks).0 + (prune_content blocks).1 ≡ total tokens_of blocks
unfolding prune_content
prune_content-tokens [] = refl
prune_content-tokens (block ∷ blocks) =
    ground (arith, tokens_saved-exact block, prune_content-tokens blocks)

prune_message-tokens :
    (msg : Message)
    → estimate_message_tokens (prune_message msg).0 + (prune_message msg).1
      ≡ estimate_message_tokens msg
unfolding prune_message pruned_message
prune_message-tokens msg = ground (
  arith,
  prune_content-tokens msg.content,
  estimate-eq msg,
  estimate-eq (pruned_message msg (prune_content msg.content).0),
)

-- The tokens that pruning claims to save are the difference of the estimates, message by message
-- and so in all.
pub prune_tool_outputs-tokens :
    (ms : List Message)
    → total estimate_message_tokens (prune_tool_outputs ms).0 + (prune_tool_outputs ms).1
      ≡ total estimate_message_tokens ms
unfolding prune_tool_outputs
prune_tool_outputs-tokens [] = refl
prune_tool_outputs-tokens (msg ∷ ms) =
    omega (arith, prune_message-tokens msg, prune_tool_outputs-tokens ms)

-- A prunable output is longer than the placeholder, so it differs from it.
is_prunable-ne :
    (block : ContentBlock)
    → is_prunable block ≡ true
    → bytes_eq block.tool_content pruned_placeholder ≡ false
unfolding is_prunable
is_prunable-ne block h = elim (Bool-cases (bytes_eq block.tool_content pruned_placeholder)) [
  | inl same ↦
      let e = eq_of_bytes_eq block.tool_content pruned_placeholder same in
      ground (arith, ap length e)
  | inr differs ↦ differs
]

is_prunable-tool_result :
    (block : ContentBlock) → is_prunable block ≡ true → is_tool_result block.type ≡ true
unfolding is_prunable
is_prunable-tool_result block h = ground arith

was_content_pruned-prune :
    (blocks : List ContentBlock)
    → was_content_pruned blocks (prune_content blocks).0 ≡ has_prunable_content blocks
unfolding was_content_pruned prune_content has_prunable_content pruned_block
was_content_pruned-prune [] = refl
was_content_pruned-prune (block ∷ blocks) = ground (
  arith,
  is_prunable-ne block,
  is_prunable-tool_result block,
  bytes_eq_refl block.tool_content,
  was_content_pruned-prune blocks,
)

-- The messages that pruning rewrites.
abbrev pub is_rewritten : Message → Bool
is_rewritten msg = not (msg.is_preserved || msg.is_summary) && has_prunable_content msg.content

was_content_pruned_self : (blocks : List ContentBlock) → was_content_pruned blocks blocks ≡ false
unfolding was_content_pruned
was_content_pruned_self [] = refl
was_content_pruned_self (block ∷ blocks) =
    ground (arith, bytes_eq_refl block.tool_content, was_content_pruned_self blocks)

was_message_pruned-prune :
    (msg : Message) → was_message_pruned msg (prune_message msg).0 ≡ is_rewritten msg
unfolding was_message_pruned prune_message pruned_message
was_message_pruned-prune msg =
    ground (arith, was_content_pruned-prune msg.content, was_content_pruned_self msg.content)

-- The messages that `findPrunedMessageIDs` finds are those that pruning rewrites, in order: the
-- ones that are neither preserved nor a summary and hold a tool output longer than the placeholder.
pub find_pruned-prune :
    (ms : List Message)
    → find_pruned_message_ids ms (prune_tool_outputs ms).0 ≡ ids (keep is_rewritten ms)
unfolding find_pruned_message_ids prune_tool_outputs
find_pruned-prune [] = refl
find_pruned-prune (msg ∷ ms) = ground (arith, was_message_pruned-prune msg, find_pruned-prune ms)

placeholder-not-prunable : (block : ContentBlock) → is_prunable (pruned_block block) ≡ false
unfolding is_prunable pruned_block
placeholder-not-prunable block = ground arith

prune_content-clean :
    (blocks : List ContentBlock) → has_prunable_content (prune_content blocks).0 ≡ false
unfolding has_prunable_content prune_content
prune_content-clean [] = refl
prune_content-clean (block ∷ blocks) =
    ground (arith, placeholder-not-prunable block, prune_content-clean blocks)

prune_message-again :
    (msg : Message) → prune_message (prune_message msg).0 ≡ ((prune_message msg).0, 0)
unfolding prune_message pruned_message
prune_message-again msg = ground (arith, prune_content-clean msg.content)

-- Pruning twice is pruning once: the second time nothing changes and nothing is saved.
pub prune_tool_outputs-again :
    (ms : List Message)
    → prune_tool_outputs (prune_tool_outputs ms).0 ≡ ((prune_tool_outputs ms).0, 0)
unfolding prune_tool_outputs
prune_tool_outputs-again [] = refl
prune_tool_outputs-again (msg ∷ ms) =
    ground (arith, prune_message-again msg, prune_tool_outputs-again ms)

pub find_pruned_self : (ms : List Message) → find_pruned_message_ids ms ms ≡ []
unfolding find_pruned_message_ids was_message_pruned
find_pruned_self [] = refl
find_pruned_self (msg ∷ ms) =
    ground (arith, was_content_pruned_self msg.content, find_pruned_self ms)
