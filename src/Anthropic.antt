-- ===== src/Anthropic.antt =====
-- The requests that the program builds for the Claude API with the anthropic-sdk-go package. A block
-- stands for the SDK call that makes it, with its arguments; `Json` is the type of decoded JSON.
use agentpg.Base.{ℕ, Bool, List, Option}
use agentpg.Base.Int.{ℤ}
use agentpg.Driver.{Bytes}

pub data ApiRole : Type 0 where
  user assistant : ApiRole

pub data ApiBlock (Json : Type 0) : Type 0 where
  new_text_block : Bytes → ApiBlock Json
  new_tool_use_block : Bytes → Json → Bytes → ApiBlock Json
  new_tool_result_block : Bytes → Bytes → Bool → ApiBlock Json

pub record ApiMessage (Json : Type 0) : Type 0 where
  pub role : ApiRole
  pub content : List (ApiBlock Json)

-- What the program takes from the SDK and from encoding/json. `nil` is the JSON value of a variable
-- never set and `empty_object` is `map[string]any{}`; `unmarshal` is `none` where decoding fails.
-- `count_input_tokens` and `stream_summary` take the model first, the latter the token limit and
-- the user prompt too, and answer `none` for an error; a summary comes as the texts of the blocks of
-- the accumulated message, `none` for a block that is no text.
pub record Sdk : Type 1 where
  pub Json : Type 0
  pub nil : Json
  pub empty_object : Json
  pub unmarshal : Bytes → Option Json
  pub count_input_tokens : Bytes → List (ApiMessage Json) → Option ℕ
  pub stream_summary : Bytes → ℤ → Bytes → Option (List (Option Bytes))
