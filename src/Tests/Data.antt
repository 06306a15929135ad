-- ===== src/Tests/Data.antt =====
-- A session with two messages to compact, one that is preserved, a summary and a recent answer.
use agentpg.Base.{ℕ, Bool, true, false, List, [], ◌∷◌, none, some, codes, arith}
use agentpg.Base.Int.{pos}
use agentpg.Driver.{Bytes, ContentBlock, Message, MessageRole, Usage, text, tool_result}
use agentpg.Anthropic.{Sdk}
use agentpg.Store.Messages.{Db, Faults, create_compaction_event}
use agentpg.Compaction.Config.{Config, default_config}
use agentpg.Compaction.Counter.{TokenCounter}
use agentpg.Compaction.Partition.{DistinctIds}
use agentpg.Compaction.Summarize.{Summarizer}
use agentpg.Compaction.Compactor.{Compactor}
use agentpg.Worker.Answer.{empty_block}

abbrev pub no_usage : Usage
no_usage = record {
  input_tokens = 0;
  output_tokens = 0;
  cache_creation_input_tokens = 0;
  cache_read_input_tokens = 0;
}

abbrev pub message : ℕ → MessageRole → List ContentBlock → Bool → Bool → Message
message id role content preserved summary = record {
  id = id;
  session_id = 1;
  run_id = none;
  role = role;
  content = content;
  usage = no_usage;
  is_preserved = preserved;
  is_summary = summary;
  metadata = [];
  created_at = id;
  updated_at = id;
}

abbrev pub says : Bytes → List ContentBlock
says bytes = record (empty_block text) { text = bytes } ∷ []

abbrev pub long_output : List ContentBlock
long_output =
    record (empty_block tool_result) {
      tool_content = codes "a tool output of more than twenty bytes";
    }
    ∷ []

abbrev pub question : Message
question = message 1 MessageRole.user (says (codes "a question")) false false

abbrev pub looked_up : Message
looked_up = message 2 MessageRole.user long_output false false

abbrev pub pinned : Message
pinned = message 3 MessageRole.user (says (codes "keep me")) true false

abbrev pub earlier : Message
earlier = message 4 MessageRole.assistant (says (codes "earlier")) false true

abbrev pub latest : Message
latest = message 5 MessageRole.assistant (says (codes "ok")) false false

abbrev pub conversation : List Message
conversation = question ∷ looked_up ∷ pinned ∷ earlier ∷ latest ∷ []

pub conversation-distinct : DistinctIds conversation
conversation-distinct = (
  (
    λ e. omega (arith, e),
    (λ e. omega (arith, e), (λ e. omega (arith, e), (λ e. omega (arith, e), tt))),
  ),
  (
    (λ e. omega (arith, e), (λ e. omega (arith, e), (λ e. omega (arith, e), tt))),
    ((λ e. omega (arith, e), (λ e. omega (arith, e), tt)), ((λ e. omega (arith, e), tt), (tt, tt))),
  ),
)

-- The last message fits the protected zone, the one before does not.
abbrev pub small_zone : Config
unfolding default_config
small_zone = record default_config {
  protected_tokens = pos 6;
  preserve_last_n = pos 0;
  target_tokens = pos 10;
}

abbrev pub plain_counter : TokenCounter
plain_counter = record { has_client = false; use_api = false; model = []; fallback = false }

abbrev pub sdk : Sdk
sdk = record {
  Json = Bytes;
  nil = [];
  empty_object = [];
  unmarshal = λ bytes. some bytes;
  count_input_tokens = λ model messages. none;
  stream_summary = λ model limit prompt. some (some (codes "what was said") ∷ []);
}

abbrev pub summarizer : Summarizer
summarizer = record { model = []; max_tokens = pos 100 }

abbrev pub compactor : Compactor
compactor = record { config = small_zone; summarizer = summarizer; token_counter = plain_counter }

abbrev pub store : Db
store = record {
  sessions = record { id = 1; metadata = []; compaction_count = 0 } ∷ [];
  messages = conversation;
  archive = [];
  events = [];
  next_id = 6;
  now = 6;
}

abbrev pub never : Faults
never call = false

-- Only the insertion of the event fails.
abbrev pub no_events : Faults
no_events create_compaction_event = true
no_events _ = false
