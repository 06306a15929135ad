-- ===== src/Compaction/Counter.antt =====
-- compaction/token_counter.go: counting with the API, and the fallback to the estimate.
-- The API and the JSON decoder are parameters.
use agentpg.Base.{
  ℕ, ◌+◌, Bool, true, false, not, ◌&&◌, List, [], ◌∷◌, Option, none, some, length, ltb, ◌==◌,
  if◌then◌else◌,
}
use agentpg.Driver.{
  Bytes, ContentType, MessageRole, ContentBlock, Message, Usage, text, tool_use, tool_result,
  thinking,
}
use agentpg.Anthropic.{
  Sdk, ApiRole, ApiBlock, ApiMessage, new_text_block, new_tool_use_block, new_tool_result_block,
}
use agentpg.Compaction.Tokens.{approximate_tokens, estimate_message_tokens}

pub record TokenCounter : Type 0 where
  pub has_client : Bool
  pub use_api : Bool
  pub model : Bytes
  pub fallback : Bool

pub record TokenCountResult : Type 0 where
  pub total_tokens : ℕ
  pub used_api : Bool
  pub per_message : List ℕ

unfoldable pub new_token_counter : Bool → Bytes → Bool → TokenCounter
new_token_counter client model use_api = record {
  has_client = client;
  use_api = use_api;
  model = model;
  fallback = false;
}

-- The loop that fills `perMessage` and adds to `total`.
unfoldable pub count_messages : ℕ → List Message → ℕ × List ℕ
count_messages total [] = (total, [])
count_messages total (msg ∷ messages) =
    let tokens = estimate_message_tokens msg in
    let (total', rest) = count_messages (total + tokens) messages in (total', tokens ∷ rest)

unfoldable pub count_with_approximation : List Message → TokenCountResult
unfolding count_messages
count_with_approximation messages =
    let (total, per_message) = count_messages 0 messages in
    record { total_tokens = total; used_api = false; per_message = per_message }

unfoldable pub estimate_tokens_from_usage : Usage → ℕ
estimate_tokens_from_usage usage = usage.input_tokens + usage.output_tokens

-- A block with the given type and text, and a user message of one such block; the other fields of
-- both have Go's zero values.
unfoldable pub text_block : Bytes → ContentBlock
text_block content = record {
  type = text;
  text = content;
  tool_use_id = [];
  tool_name = [];
  tool_input = [];
  tool_result_for_use_id = [];
  tool_content = [];
  is_error = false;
  source = [];
  search_results = [];
  metadata = [];
}

unfoldable pub text_message : Bytes → Message
unfolding text_block
text_message content = record {
  id = 0;
  session_id = 0;
  run_id = none;
  role = MessageRole.user;
  content = text_block content ∷ [];
  usage = record {
    input_tokens = 0;
    output_tokens = 0;
    cache_creation_input_tokens = 0;
    cache_read_input_tokens = 0;
  };
  is_preserved = false;
  is_summary = false;
  metadata = [];
  created_at = 0;
  updated_at = 0;
}

abbrev pub api_role : MessageRole → ApiRole
api_role MessageRole.assistant = ApiRole.assistant
api_role _ = ApiRole.user

module _ (sdk : Sdk) where
  open sdk use {Json, nil, empty_object, unmarshal, count_input_tokens}

  abbrev convert_input : Bytes → Json
  convert_input raw =
      if ltb 0 (length raw)
      then elim (unmarshal raw) [ none ↦ empty_object | some value ↦ value ]
      else nil

  convert_block : ContentType → ContentBlock → Option (ApiBlock Json)
  convert_block text block = some (new_text_block block.text)
  convert_block tool_use block =
      some (new_tool_use_block block.tool_use_id (convert_input block.tool_input) block.tool_name)
  convert_block tool_result block =
      some (new_tool_result_block block.tool_result_for_use_id block.tool_content block.is_error)
  convert_block thinking block = some (new_text_block block.text)
  convert_block _ block = none

  convert_content : List ContentBlock → List (ApiBlock Json)
  convert_content [] = []
  convert_content (block ∷ blocks) =
      let rest = convert_content blocks in
      elim (convert_block block.type block) [ none ↦ rest | some made ↦ made ∷ rest ]

  unfoldable pub convert_to_anthropic_messages : List Message → List (ApiMessage Json)
  unfolding convert_content convert_block
  convert_to_anthropic_messages [] = []
  convert_to_anthropic_messages (msg ∷ messages) =
      let rest = convert_to_anthropic_messages messages in
      let content = convert_content msg.content in
      if length content == 0
      then rest
      else record { role = api_role msg.role; content = content } ∷ rest

  abbrev api_result : Option ℕ → Option TokenCountResult
  api_result none = none
  api_result (some n) = some (record { total_tokens = n; used_api = true; per_message = [] })

  unfoldable pub count_with_api : TokenCounter → List Message → Option TokenCountResult
  count_with_api tc [] = api_result (some 0)
  count_with_api tc (msg ∷ messages) =
      api_result (count_input_tokens tc.model (convert_to_anthropic_messages (msg ∷ messages)))

  abbrev pub asks_api : TokenCounter → Bool
  asks_api tc = tc.use_api && tc.has_client && not tc.fallback

  abbrev or_fallback :
      TokenCounter → List Message → Option TokenCountResult → TokenCountResult × TokenCounter
  or_fallback tc messages none = (count_with_approximation messages, record tc { fallback = true })
  or_fallback tc messages (some result) = (result, tc)

  -- The error is always nil, so the result is returned alone, with the counter it leaves.
  unfoldable pub count_tokens : TokenCounter → List Message → TokenCountResult × TokenCounter
  count_tokens tc messages =
      if asks_api tc
      then or_fallback tc messages (count_with_api tc messages)
      else (count_with_approximation messages, tc)

  -- The error is nil here too.
  unfoldable pub count_tokens_for_content : TokenCounter → Bytes → ℕ × TokenCounter
  unfolding text_message
  count_tokens_for_content tc content =
      if asks_api tc
      then elim (count_with_api tc (text_message content ∷ [])) [
        | none ↦ (approximate_tokens content, record tc { fallback = true })
        | some result ↦ (result.total_tokens, tc)
      ]
      else (approximate_tokens content, tc)
