-- ===== src/Tests/Conversation.antt =====
-- Runs of the theorems on the conversation of the user interface: a run, and a run of an agent below it.
use agentpg.Base.{ℕ, suc, ◌+◌, ◌≡◌, refl, Bool, false, List, [], ◌∷◌, none, some, arith}
use agentpg.Base.Int.{pos}
use agentpg.Driver.{Bytes, Message, MessageRole}
use agentpg.Store.Runs.{Run}
use agentpg.Store.Messages.{find_session, messages_of}
use agentpg.Store.World.{World}
use agentpg.Ui.Summaries.{RunSummary}
use agentpg.Ui.Groups.{MessageWithBlocks, RunMessageGroups, build_run_message_groups, max_depth}
use agentpg.Ui.Groups.Enough.{build-enough}
use agentpg.Ui.Conversation.{
  ConversationView, ViewCall, shows, session_runs, session_messages, shown_messages, view_of,
  get_hierarchical_conversation,
}
use agentpg.Ui.Conversation.Conserved.{Whole, get_hierarchical-Whole}
use agentpg.Tests.Rows.{run, some_usage, empty_store}

abbrev child : Run
child = record run { id = 2; depth = 1; parent_run_id = some 1 }

abbrev said : ℕ → ℕ → Message
said id run_id = record {
  id = id;
  session_id = 1;
  run_id = some run_id;
  role = MessageRole.user;
  content = [];
  usage = some_usage;
  is_preserved = false;
  is_summary = false;
  metadata = [];
  created_at = 0;
  updated_at = 0;
}

abbrev world : World
world = record {
  db = record empty_store {
    sessions = record { id = 1; metadata = []; compaction_count = 0 } ∷ [];
    messages = said 5 1 ∷ said 6 2 ∷ [];
  };
  runs = run ∷ child ∷ [];
  iterations = [];
  tools = [];
}

abbrev works : ViewCall → Bool
works call = false

abbrev no_name : ℕ → Bytes
no_name id = []

abbrev view : ConversationView
view =
    view_of works no_name 1 (record { id = 1; metadata = []; compaction_count = 0 })
      (session_runs 1 world) (session_messages 100 1 world) []

shown : get_hierarchical_conversation works no_name 1 (pos 0) world ≡ shows view
unfolding get_hierarchical_conversation find_session
shown = refl

abbrev ones : RunSummary → List MessageWithBlocks → ℕ
ones summary messages = 1

get_hierarchical-Whole_example :
    Whole works no_name ones 1
      (session_runs 1 world)
      (shown_messages works no_name (session_runs 1 world) (session_messages 100 1 world))
      view
unfolding messages_of
get_hierarchical-Whole_example =
    get_hierarchical-Whole works no_name ones 1 (pos 0) world view (tt, (refl, tt))
      (refl, (refl, tt)) shown

abbrev no_messages : ℕ → List MessageWithBlocks
no_messages id = []

abbrev build : ℕ → RunMessageGroups
build fuel = build_run_message_groups no_name no_messages (λ id. []) fuel (run ∷ child ∷ []) 0 none

build-enough_example : build (suc (7 + 1)) ≡ build (suc 1)
unfolding max_depth
build-enough_example =
    build-enough no_name no_messages (λ id. []) (run ∷ child ∷ []) 7 1 (omega arith)
