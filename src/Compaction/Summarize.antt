-- ===== src/Compaction/Summarize.antt =====
-- compaction/prompt.go and the Summarizer of compaction/summarization.go. What the streaming API
-- answers is a parameter: the text of each block of the accumulated message (`none` for a block of
-- another type), or no message when the stream fails.
use agentpg.Base.{
  Bool, List, [], ◌∷◌, ◌++◌, Option, none, some, length, take, ltb, ◌==◌, if◌then◌else◌, codes,
}
use agentpg.Driver.{
  Bytes, ContentType, MessageRole, ContentBlock, Message, text, tool_use, tool_result, thinking,
}
use agentpg.Base.Int.{ℤ}
use agentpg.Anthropic.{Sdk}
use agentpg.Compaction.Errors.{Result, ok, err, no_messages_to_compact, summarization_failed}

abbrev pub is_nil : Bytes → Bool
is_nil content = length content == 0

abbrev bracketed : Bytes → Bytes → Bytes → Bytes → Bytes
bracketed open_with key between content = open_with ++ (key ++ (between ++ (content ++ codes "]")))

-- The cut is at byte 497, whatever the encoding.
abbrev abbreviated : Bytes → Bytes
abbreviated result = if ltb 500 (length result) then take 497 result ++ codes "..." else result

-- What one block adds to `parts`.
unfoldable pub block_part : ContentType → ContentBlock → Option Bytes
block_part text block = if is_nil block.text then none else some block.text
block_part tool_use block =
    some (bracketed (codes "[Tool: ") block.tool_name (codes ", Input: ") block.tool_input)
block_part tool_result block =
    let result = abbreviated block.tool_content in
    some (
      if block.is_error
      then bracketed (codes "[Tool Error for ") block.tool_result_for_use_id (codes ": ") result
      else bracketed (codes "[Tool Result for ") block.tool_result_for_use_id (codes ": ") result)
block_part thinking block =
    if is_nil block.text then none else some (codes "[Thinking: " ++ (block.text ++ codes "]"))
block_part _ block = none

unfoldable pub parts : List ContentBlock → List Bytes
parts [] = []
parts (block ∷ blocks) =
    let rest = parts blocks in
    elim (block_part block.type block) [ none ↦ rest | some part ↦ part ∷ rest ]

-- strings.Join(parts, "\n")
unfoldable pub join_lines : List Bytes → Bytes
join_lines [] = []
join_lines (part ∷ []) = part
join_lines (part ∷ (next ∷ rest)) = part ++ (codes "\n" ++ join_lines (next ∷ rest))

unfoldable pub extract_message_content : Message → Bytes
extract_message_content msg = join_lines (parts msg.content)

abbrev pub role_label : MessageRole → Bytes
role_label MessageRole.assistant = codes "Assistant"
role_label MessageRole.system = codes "System"
role_label _ = codes "User"

unfoldable pub format_single_message : MessageRole → Bytes → Bytes
format_single_message role content = role_label role ++ (codes ":\n" ++ content)

-- `formatMessagesForSummary`, with the loop of `FormatMessagesAsText`.
unfoldable pub format_messages_for_summary : List Message → Bytes
format_messages_for_summary [] = []
format_messages_for_summary (msg ∷ messages) =
    let rest = format_messages_for_summary messages in
    let content = extract_message_content msg in
    if is_nil content
    then rest
    else format_single_message msg.role content ++ (codes "\n\n" ++ rest)

abbrev please : Bytes
please =
    codes
      "Please summarize the following conversation according to the format specified in your instructions.\n\n"

abbrev closing : Bytes
closing =
    codes
      "Create a comprehensive summary that will allow continuation of this conversation with full context. Follow the 9-section format exactly."

unfoldable pub build_user_prompt : Bytes → Bytes
build_user_prompt conversation =
    please
    ++ (codes "<conversation>\n" ++ (conversation ++ (codes "\n</conversation>\n\n" ++ closing)))

abbrev previous_context : Bytes → Bytes
previous_context context =
    codes "<previous_context>\n"
    ++ (context
        ++ codes
            "\n</previous_context>\n\nThe above is preserved context from earlier in the conversation. Incorporate relevant information from this context into your summary.\n\n")

unfoldable pub build_user_prompt_with_context : Bytes → Bytes → Bytes
build_user_prompt_with_context context conversation =
    please
    ++ ((if is_nil context then [] else previous_context context)
        ++ (codes "<conversation_to_summarize>\n"
            ++ (conversation ++ (codes "\n</conversation_to_summarize>\n\n" ++ closing))))

unfoldable pub user_prompt : List Message → List Message → Bytes
user_prompt [] to_summarize = build_user_prompt (format_messages_for_summary to_summarize)
user_prompt (msg ∷ context) to_summarize =
    build_user_prompt_with_context (format_messages_for_summary (msg ∷ context))
      (format_messages_for_summary to_summarize)

-- The text blocks of the answer, joined.
unfoldable pub answer_text : List (Option Bytes) → Bytes
answer_text [] = []
answer_text (none ∷ blocks) = answer_text blocks
answer_text (some content ∷ blocks) = content ++ answer_text blocks

abbrev pub summary_of : Option (List (Option Bytes)) → Result Bytes
summary_of none = err summarization_failed
summary_of (some blocks) =
    if is_nil (answer_text blocks) then err summarization_failed else ok (answer_text blocks)

pub record Summarizer : Type 0 where
  pub model : Bytes
  pub max_tokens : ℤ

module _ (sdk : Sdk) where
  open sdk use {stream_summary}

  unfoldable pub summarize_with_context : Summarizer → List Message → List Message → Result Bytes
  summarize_with_context s context [] = err no_messages_to_compact
  summarize_with_context s context (msg ∷ to_summarize) =
      summary_of (stream_summary s.model s.max_tokens (user_prompt context (msg ∷ to_summarize)))
