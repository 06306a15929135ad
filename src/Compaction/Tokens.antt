-- ===== src/Compaction/Tokens.antt =====
-- compaction/token_counter.go: the character-based estimate of tokens.
use agentpg.Base.{ℕ, ◌+◌, ◌/◌, List, [], ◌∷◌, length, total, ltb, ◌==◌, if◌then◌else◌}
use agentpg.Driver.{
  Bytes, ContentType, ContentBlock, Message, text, tool_use, tool_result, thinking, image, document,
  web_search_result,
}

-- One token for four characters, rounded up, and at least one for a text that is not empty.
unfoldable pub approximate_tokens : Bytes → ℕ
approximate_tokens content =
    if length content == 0
    then 0
    else let tokens = (length content + 3) / 4 in if ltb tokens 1 then 1 else tokens

-- The `switch` over the type of a block: what the block adds to `total`.
unfoldable pub block_tokens : ContentType → ContentBlock → ℕ
block_tokens text block = approximate_tokens block.text
block_tokens tool_use block =
    approximate_tokens block.tool_name
    + 10
    + (if ltb 0 (length block.tool_input) then approximate_tokens block.tool_input else 0)
block_tokens tool_result block = 10 + approximate_tokens block.tool_content
block_tokens thinking block = approximate_tokens block.text
block_tokens image block = 200
block_tokens document block = 200
block_tokens web_search_result block =
    if ltb 0 (length block.search_results) then approximate_tokens block.search_results else 0
block_tokens _ block = if length block.text == 0 then 0 else approximate_tokens block.text

-- The loop over the blocks, with its running `total`.
unfoldable pub add_block_tokens : ℕ → List ContentBlock → ℕ
add_block_tokens total [] = total
add_block_tokens total (block ∷ blocks) =
    add_block_tokens (total + block_tokens block.type block) blocks

unfoldable pub estimate_message_tokens : Message → ℕ
estimate_message_tokens msg = add_block_tokens 4 msg.content
