-- ===== src/Ui/Conversation.antt =====
-- GetHierarchicalConversation of ui/service/messages.go, with the queries of driver/pgxv5/store.go that it
-- makes. `breaks` says which of them fail, `name_of` is the name of an agent, empty where GetAgent fails. A map
-- is a list of its entries, or a function. Of the session's summary the identifier and metadata are kept.
pub mod Conserved
use agentpg.Base.{
  ℕ, suc, ◌+◌, Bool, true, false, not, ◌&&◌, ◌||◌, List, [], ◌∷◌, ◌++◌, map, keep, take, reverse,
  length, total, Option, none, some, bytes_eq, codes, ltb, ◌==◌, if◌then◌else◌,
}
use agentpg.Base.Int.{ℤ, pos, negsuc}
use agentpg.Driver.{Bytes, ContentBlock, ContentType, Message}
use agentpg.Store.Messages.{Db, Session, find_session, messages_of}
use agentpg.Store.Runs.{Run, run_is_terminal, ToolExecution, ToolState}
use agentpg.Store.World.{World, find_run}
use agentpg.Store.Context.{of_run}
use agentpg.Worker.Answer.{empty_block}
use agentpg.Ui.Summaries.{
  RunSummary, ToolExecutionSummary, run_to_summary, tool_exec_to_summary, is_set,
}
use agentpg.Ui.Groups.{
  MessageWithBlocks, RunMessageGroups, build_run_message_groups, max_depth, is_blank,
}

pub record ConversationView : Type 0 where
  pub session_id : ℕ
  pub session : Session
  pub agent_name : Bytes
  pub root_groups : RunMessageGroups
  pub orphan_messages : List MessageWithBlocks
  pub total_tokens : ℕ
  pub message_count : ℕ
  pub tool_results : List (Bytes × ContentBlock)

pub data ViewCall : Type 0 where
  get_session get_messages_with_run_info get_runs_by_session : ViewCall
  get_tool_executions_by_run get_tool_execution : ℕ → ViewCall

pub data Viewed : Type 0 where
  shows : ConversationView → Viewed
  fails panics : Viewed

abbrev pub limit_or_default : ℤ → ℕ
limit_or_default (pos n) = if ltb 0 n then n else 100
limit_or_default (negsuc n) = 100

-- `GetMessagesWithRunInfo`
abbrev pub session_messages : ℕ → ℕ → World → List Message
session_messages limit session world = take limit (messages_of world.db session)

-- `GetRunsBySession`, the newest first, in the order in which they were created.
abbrev pub session_runs : ℕ → World → List Run
session_runs session world =
    reverse (take 1000 (reverse (keep (λ run. run.session_id == session) world.runs)))

abbrev is_tool_result : ContentType → Bool
is_tool_result ContentType.tool_result = true
is_tool_result _ = false

unfoldable pub all_tool_results : List ContentBlock → Bool
all_tool_results [] = true
all_tool_results (block ∷ blocks) = is_tool_result block.type && all_tool_results blocks

-- `isToolResultOnlyMessage`
abbrev pub is_tool_result_only : List ContentBlock → Bool
is_tool_result_only [] = false
is_tool_result_only (block ∷ blocks) = all_tool_results (block ∷ blocks)

unfoldable pub put_result :
    Bytes → ContentBlock → List (Bytes × ContentBlock) → List (Bytes × ContentBlock)
put_result id block [] = (id, block) ∷ []
put_result id block ((k, old) ∷ results) =
    if bytes_eq k id then (k, block) ∷ results else (k, old) ∷ put_result id block results

unfoldable pub has_result : Bytes → List (Bytes × ContentBlock) → Bool
has_result id [] = false
has_result id ((k, block) ∷ results) = bytes_eq k id || has_result id results

unfoldable pub block_results :
    List ContentBlock → List (Bytes × ContentBlock) → List (Bytes × ContentBlock)
block_results [] results = results
block_results (block ∷ blocks) results = block_results blocks (
    if is_tool_result block.type && not (is_blank block.tool_result_for_use_id)
    then put_result block.tool_result_for_use_id block results
    else results)

unfoldable pub message_results :
    List Message → List (Bytes × ContentBlock) → List (Bytes × ContentBlock)
message_results [] results = results
message_results (msg ∷ messages) results =
    message_results messages (block_results msg.content results)

-- The block of an execution's output.
abbrev output_block : ToolExecution → Bytes → ContentBlock
output_block exec output = record (empty_block ContentType.tool_result) {
  tool_result_for_use_id = exec.tool_use_id;
  tool_content = output;
  is_error = exec.is_error;
}

abbrev with_output :
    ToolExecution → Option Bytes → List (Bytes × ContentBlock) → List (Bytes × ContentBlock)
with_output exec none results = results
with_output exec (some output) results =
    put_result exec.tool_use_id (output_block exec output) results

abbrev is_done : ToolState → Bool
is_done ToolState.completed = true
is_done ToolState.pending = false
is_done ToolState.running = false
is_done ToolState.failed = false
is_done ToolState.skipped = false

-- The agent of the first run at depth 0.
unfoldable pub first_agent : (ℕ → Bytes) → List Run → Bytes
first_agent name_of [] = []
first_agent name_of (run ∷ runs) =
    let rest = first_agent name_of runs in if run.depth == 0 then name_of run.agent_id else rest

abbrev pub tokens_in : MessageWithBlocks → ℕ
tokens_in msg = msg.message.usage.input_tokens + msg.message.usage.output_tokens

abbrev pub is_orphan : MessageWithBlocks → Bool
is_orphan msg = not (is_set msg.message.run_id)

abbrev pub messages_by_run : List MessageWithBlocks → ℕ → List MessageWithBlocks
messages_by_run shown id = keep (λ msg. of_run id msg.message) shown

module _ (breaks : ViewCall → Bool) (name_of : ℕ → Bytes) where
  unfoldable pub output_results :
      List ToolExecution → List (Bytes × ContentBlock) → List (Bytes × ContentBlock)
  output_results [] results = results
  output_results (exec ∷ execs) results = output_results execs (
      if (not (is_blank exec.tool_use_id) && is_done exec.state)
        && (not (has_result exec.tool_use_id results) && not (breaks (get_tool_execution exec.id)))
      then with_output exec exec.tool_output results
      else results)

  -- `GetToolExecutionsByRun` for a run that has not ended.
  unfoldable pub open_execs : List ToolExecution → Run → List ToolExecution
  open_execs tools run =
      if run_is_terminal run.state || breaks (get_tool_executions_by_run run.id)
      then []
      else keep (λ exec. exec.run_id == run.id) tools

  unfoldable pub run_results :
      List ToolExecution → List Run → List (Bytes × ContentBlock) → List (Bytes × ContentBlock)
  run_results tools [] results = results
  run_results tools (run ∷ runs) results =
      run_results tools runs (output_results (open_execs tools run) results)

  abbrev pub execs_of : List ToolExecution → Option Run → List ToolExecutionSummary
  execs_of tools none = []
  execs_of tools (some run) = map (tool_exec_to_summary name_of) (open_execs tools run)

  abbrev info_of : List Run → Option ℕ → Option RunSummary
  info_of runs none = none
  info_of runs (some id) = elim (find_run id runs) [
    | none ↦ none
    | some run ↦ some (run_to_summary name_of run)
  ]

  abbrev pub with_blocks : List Run → Message → MessageWithBlocks
  with_blocks runs msg = record { message = msg; run_info = info_of runs msg.run_id }

  abbrev pub shown_messages : List Run → List Message → List MessageWithBlocks
  shown_messages runs messages =
      map (with_blocks runs) (keep (λ msg. not (is_tool_result_only msg.content)) messages)

  unfoldable pub view_of :
      ℕ → Session → List Run → List Message → List ToolExecution → ConversationView
  view_of session_id session runs messages tools =
      let shown = shown_messages runs messages in
      record {
        session_id = session_id;
        session = session;
        agent_name = first_agent name_of runs;
        root_groups =
            build_run_message_groups name_of (messages_by_run shown)
              (λ id. execs_of tools (find_run id runs)) (suc (max_depth runs)) runs 0 none;
        orphan_messages = keep is_orphan shown;
        total_tokens = total tokens_in shown;
        message_count = length shown;
        tool_results = run_results tools runs (message_results messages []);
      }

  -- Without a session the code reads the fields of nil.
  abbrev pub view_found : Option Session → ℕ → ℕ → World → Viewed
  view_found none session_id limit world = panics
  view_found (some session) session_id limit world = shows (
      view_of session_id session (session_runs session_id world)
        (session_messages limit session_id world) world.tools)

  unfoldable pub get_hierarchical_conversation : ℕ → ℤ → World → Viewed
  get_hierarchical_conversation session_id limit world =
      if breaks get_session
      then fails
      else if breaks get_messages_with_run_info
      then fails
      else if breaks get_runs_by_session
      then fails
      else view_found (find_session session_id world.db.sessions) session_id
          (limit_or_default limit) world
