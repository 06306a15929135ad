-- ===== src/Worker/Answer.antt =====
-- The processing of an answer: processResult and buildToolParams of batch_poller.go and of
-- streaming_worker.go. The two differ in the blocks they keep and in where the run comes from.
-- `GetAgentByName` is the argument `agent_named`, `json.Marshal` of a tool's input is `marshal`.
pub mod Process
pub mod Outcomes
use mathlib.Core.List.{map-append}
use agentpg.Base.{
  ℕ, suc, ◌+◌, ◌≡◌, refl, sym, ap, ◌∙◌, inl, inr, Bool, true, false, not, ◌&&◌, ◌||◌, List, [], ◌∷◌,
  ◌++◌, map, keep, Option, none, some, length, ltb, ◌==◌, if◌then◌else◌, Bool-cases, arith,
}
use agentpg.Base.Int.{ℤ, pos, leb_ℤ}
use agentpg.Driver.{
  Bytes, ContentType, ContentBlock, MessageRole, Usage, text, tool_use, tool_result, image,
  document, thinking, server_tool_use, web_search_result,
}
use agentpg.Store.Messages.{Db, Faults, CreateMessageParams, insert_message}
use agentpg.Store.Runs.{Run, RunState, Iteration, CreateToolExecutionParams}

pub record AnswerBlock : Type 0 where
  pub type : ContentType
  pub text : Bytes
  pub id : Bytes
  pub name : Bytes
  pub input : Bytes

pub record Answer : Type 0 where
  pub content : List AnswerBlock
  pub stop_reason : Bytes
  pub usage : Usage

abbrev pub empty_block : ContentType → ContentBlock
empty_block type = record {
  type = type;
  text = [];
  tool_use_id = [];
  tool_name = [];
  tool_input = [];
  tool_result_for_use_id = [];
  tool_content = [];
  is_error = false;
  source = [];
  search_results = [];
  metadata = [];
}

abbrev text_content : AnswerBlock → ContentBlock
text_content block = record (empty_block text) { text = block.text }

abbrev tool_use_content : AnswerBlock → Bytes → ContentBlock
tool_use_content block input = record (empty_block tool_use) {
  tool_use_id = block.id;
  tool_name = block.name;
  tool_input = input;
}

abbrev pub is_tool_use : ContentType → Bool
is_tool_use tool_use = true
is_tool_use text = false
is_tool_use tool_result = false
is_tool_use image = false
is_tool_use document = false
is_tool_use thinking = false
is_tool_use server_tool_use = false
is_tool_use web_search_result = false
is_tool_use (ContentType.other _) = false

abbrev pub is_text : ContentType → Bool
is_text text = true
is_text tool_use = false
is_text tool_result = false
is_text image = false
is_text document = false
is_text thinking = false
is_text server_tool_use = false
is_text web_search_result = false
is_text (ContentType.other _) = false

-- A batch keeps every block, one of another type with nothing but its type.
unfoldable pub batch_blocks : List AnswerBlock → List ContentBlock
batch_blocks [] = []
batch_blocks (block ∷ content) =
    (if is_text block.type
      then text_content block
      else (if is_tool_use block.type
          then tool_use_content block block.input
          else empty_block block.type))
    ∷ batch_blocks content

abbrev pub or_empty : Option Bytes → Bytes
or_empty none = []
or_empty (some bytes) = bytes

module _ (marshal : Bytes → Option Bytes) where
  -- A stream skips the blocks of another type.
  unfoldable pub stream_blocks : List AnswerBlock → List ContentBlock
  stream_blocks [] = []
  stream_blocks (block ∷ content) =
      let rest = stream_blocks content in
      if is_text block.type
      then text_content block ∷ rest
      else (if is_tool_use block.type
          then tool_use_content block (or_empty (marshal block.input)) ∷ rest
          else rest)

unfoldable pub has_tool_use : List AnswerBlock → Bool
has_tool_use [] = false
has_tool_use (block ∷ content) = is_tool_use block.type || has_tool_use content

unfoldable pub response_text : List AnswerBlock → Bytes
response_text [] = []
response_text (block ∷ content) =
    let rest = response_text content in if is_text block.type then block.text ++ rest else rest

unfoldable pub count_tool_uses : List AnswerBlock → ℕ
count_tool_uses [] = 0
count_tool_uses (block ∷ content) =
    let rest = count_tool_uses content in if is_tool_use block.type then suc rest else rest

-- `toolExecutionCount`
abbrev pub tool_execution_count : List AnswerBlock → ℕ
tool_execution_count content = if has_tool_use content then count_tool_uses content else 0

-- `toolMaxAttempts` of client.go: the `MaxAttempts` of the configuration, `none` without one.
unfoldable pub tool_max_attempts : Option ℤ → ℕ
tool_max_attempts none = 2
tool_max_attempts (some (pos n)) = if ltb 0 n then n else 2
tool_max_attempts (some (ℤ.negsuc n)) = 2

abbrev is_some : Option ℕ → Bool
is_some none = false
is_some (some _) = true

module _ (agent_named : Bytes → Option ℕ) (encode : Bytes → Bytes) (max_attempts : ℕ) where
  abbrev tool_param : Iteration → Run → AnswerBlock → CreateToolExecutionParams
  tool_param iter run block = record {
    run_id = run.id;
    iteration_id = iter.id;
    tool_use_id = block.id;
    tool_name = block.name;
    tool_input = encode block.input;
    is_agent_tool = is_some (agent_named block.name);
    agent_id = agent_named block.name;
    max_attempts = max_attempts;
  }

  -- `buildToolParams`
  unfoldable pub build_tool_params :
      Iteration → Run → List AnswerBlock → List CreateToolExecutionParams
  build_tool_params iter run [] = []
  build_tool_params iter run (block ∷ content) =
      let rest = build_tool_params iter run content in
      if is_tool_use block.type then tool_param iter run block ∷ rest else rest

abbrev pub add_usage : Usage → Usage → Usage
add_usage a b = record {
  input_tokens = a.input_tokens + b.input_tokens;
  output_tokens = a.output_tokens + b.output_tokens;
  cache_creation_input_tokens = a.cache_creation_input_tokens + b.cache_creation_input_tokens;
  cache_read_input_tokens = a.cache_read_input_tokens + b.cache_read_input_tokens;
}
