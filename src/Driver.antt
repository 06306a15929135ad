-- ===== src/Driver.antt =====
-- driver/driver.go: the records that the store hands out. An identifier is a number, a string its
-- bytes, a time a number, and a JSON document (`map[string]any`) the bytes of its encoding.
use agentpg.Base.{ℕ, List, Bool, Option}

abbrev pub Bytes : Type 0
Bytes = List ℕ

-- The `Type` of a content block, a string: the constants of constants.go, or any other.
pub data ContentType : Type 0 where
  text tool_use tool_result image document thinking server_tool_use web_search_result : ContentType
  other : Bytes → ContentType

pub data MessageRole : Type 0 where
  user assistant system : MessageRole
  other : Bytes → MessageRole

pub record ContentBlock : Type 0 where
  pub type : ContentType
  pub text : Bytes
  pub tool_use_id : Bytes
  pub tool_name : Bytes
  pub tool_input : Bytes
  pub tool_result_for_use_id : Bytes
  pub tool_content : Bytes
  pub is_error : Bool
  pub source : Bytes
  pub search_results : Bytes
  pub metadata : Bytes

pub record Usage : Type 0 where
  pub input_tokens : ℕ
  pub output_tokens : ℕ
  pub cache_creation_input_tokens : ℕ
  pub cache_read_input_tokens : ℕ

pub record Message : Type 0 where
  pub id : ℕ
  pub session_id : ℕ
  pub run_id : Option ℕ
  pub role : MessageRole
  pub content : List ContentBlock
  pub usage : Usage
  pub is_preserved : Bool
  pub is_summary : Bool
  pub metadata : Bytes
  pub created_at : ℕ
  pub updated_at : ℕ
