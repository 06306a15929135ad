-- ===== src/Store/World.antt =====
-- The tables that the workers share, and the reads and writes of runs, iterations and tool executions
-- in driver/pgxv5/store.go, each of them one transaction. A write of a run fires the trigger
-- agentpg_handle_child_run_complete of storage/migrations/001_agentpg_migration.up.sql. Rows stand
-- in the order of `created_at`.
pub mod Rows
use agentpg.Base.{
  ℕ, suc, Bool, true, false, not, ◌&&◌, List, [], ◌∷◌, ◌++◌, map, keep, take, Option, none, some,
  ◌==◌, if◌then◌else◌,
}
use agentpg.Driver.{Bytes, ContentBlock, MessageRole, Usage}
use agentpg.Store.Messages.{Db, message_row}
use agentpg.Store.Runs.{
  Run, RunState, RunMode, run_is_terminal, update_run, Iteration, ToolExecution, ToolState,
  tool_is_terminal,
}
use agentpg.Worker.Answer.{empty_block}

pub record World : Type 0 where
  pub db : Db
  pub runs : List Run
  pub iterations : List Iteration
  pub tools : List ToolExecution

unfoldable pub find_run : ℕ → List Run → Option Run
find_run id [] = none
find_run id (run ∷ runs) = let rest = find_run id runs in if run.id == id then some run else rest

-- `UPDATE agentpg_tool_executions … WHERE id = $1`
abbrev pub update_tool :
    ℕ → (ToolExecution → ToolExecution) → List ToolExecution → List ToolExecution
update_tool id f tools = map (λ row. if row.id == id then f row else row) tools

abbrev pub set_iteration : ℕ → (Iteration → Iteration) → List Iteration → List Iteration
set_iteration id f rows = map (λ row. if row.id == id then f row else row) rows

abbrev pub is_completed : RunState → Bool
is_completed RunState.completed = true
is_completed RunState.cancelled = false
is_completed RunState.failed = false
is_completed RunState.pending = false
is_completed RunState.batch_submitting = false
is_completed RunState.batch_pending = false
is_completed RunState.batch_processing = false
is_completed RunState.streaming = false
is_completed RunState.pending_tools = false
is_completed RunState.awaiting_input = false

abbrev pub is_waiting : RunState → Bool
is_waiting RunState.pending_tools = true
is_waiting RunState.completed = false
is_waiting RunState.cancelled = false
is_waiting RunState.failed = false
is_waiting RunState.pending = false
is_waiting RunState.batch_submitting = false
is_waiting RunState.batch_pending = false
is_waiting RunState.batch_processing = false
is_waiting RunState.streaming = false
is_waiting RunState.awaiting_input = false

abbrev pub is_running : ToolState → Bool
is_running ToolState.running = true
is_running ToolState.pending = false
is_running ToolState.completed = false
is_running ToolState.failed = false
is_running ToolState.skipped = false

-- The update of agentpg_handle_child_run_complete: `run` is the child after its own update.
unfoldable pub child_completed : ℕ → Run → ToolExecution → ToolExecution
child_completed now run exec =
    if is_running exec.state
    then record exec {
      state = if is_completed run.state then ToolState.completed else ToolState.failed;
      tool_output = run.response_text;
      is_error = not (is_completed run.state);
      error_message = run.error_message;
      completed_at = some now;
    }
    else exec

abbrev pub complete_parent : ℕ → Run → Option ℕ → List ToolExecution → List ToolExecution
complete_parent now run none tools = tools
complete_parent now run (some id) tools = update_tool id (child_completed now run) tools

-- The trigger, on the row before and after the update.
unfoldable pub handle_child_run_complete : ℕ → Run → Run → List ToolExecution → List ToolExecution
handle_child_run_complete now old new tools =
    if run_is_terminal new.state && not (run_is_terminal old.state)
    then complete_parent now new new.parent_tool_execution_id tools
    else tools

abbrev pub fire : ℕ → Option Run → (Run → Run) → List ToolExecution → List ToolExecution
fire now none f tools = tools
fire now (some old) f tools = handle_child_run_complete now old (f old) tools

-- The update of a run with its trigger.
unfoldable pub write_run : ℕ → (Run → Run) → World → World
write_run id f world = record world {
  runs = update_run id f world.runs;
  tools = fire world.db.now (find_run id world.runs) f world.tools;
}

-- `GetToolExecutionsByIteration`. The rows of an iteration are inserted in one transaction, so they have one
-- `created_at`, by which the query sorts, and may come in any order: it is that of the list here.
unfoldable pub get_tool_executions_by_iteration : ℕ → List ToolExecution → List ToolExecution
get_tool_executions_by_iteration id tools = keep (λ exec. exec.iteration_id == id) tools

unfoldable pub no_open_tools : ℕ → List ToolExecution → Bool
no_open_tools iteration [] = true
no_open_tools iteration (exec ∷ tools) =
    not (exec.iteration_id == iteration && not (tool_is_terminal exec.state))
    && no_open_tools iteration tools

abbrev pub tools_done : List ToolExecution → Option ℕ → Bool
tools_done tools none = false
tools_done tools (some iteration) = no_open_tools iteration tools

-- `GetStuckPendingToolsRuns`
unfoldable pub get_stuck_pending_tools_runs : ℕ → World → List Run
get_stuck_pending_tools_runs limit world = take limit (
    keep (λ run. is_waiting run.state && tools_done world.tools run.current_iteration_id)
      world.runs)

abbrev pub no_usage : Usage
no_usage = record {
  input_tokens = 0;
  output_tokens = 0;
  cache_creation_input_tokens = 0;
  cache_read_input_tokens = 0;
}

-- Of a block, the call hands on the type and the three columns of a tool result.
abbrev pub stored_result : ContentBlock → ContentBlock
stored_result block = record (empty_block block.type) {
  tool_result_for_use_id = block.tool_result_for_use_id;
  tool_content = block.tool_content;
  is_error = block.is_error;
}

unfoldable pub continued_run : Run → Run
continued_run run = record run {
  state = RunState.pending;
  previous_state = some run.state;
  claimed_by_instance_id = none;
  claimed_at = none;
}

-- An error, nil without an error, or the message.
pub data Completion : Type 0 where
  refused skipped continued : Completion

abbrev pub insert_results : ℕ → ℕ → List ContentBlock → Db → Db
insert_results session run_id blocks db = record db {
  messages =
      db.messages
      ++ message_row db
          (record {
            session_id = session;
            run_id = some run_id;
            role = MessageRole.user;
            content = blocks;
            usage = no_usage;
            is_preserved = false;
            is_summary = false;
            metadata = [];
          })
          (map stored_result blocks)
        ∷ [];
  next_id = suc db.next_id;
  now = suc db.now;
}

abbrev pub continue_found : ℕ → ℕ → List ContentBlock → Option Run → World → World × Completion
continue_found session run_id blocks none world = (world, refused)
continue_found session run_id blocks (some run) world =
    if is_waiting run.state
    then (
      record (write_run run_id continued_run world) {
        db = insert_results session run_id blocks world.db;
      },
      continued,
    )
    else (world, skipped)

-- `CompleteToolsAndContinueRun`: all of it or, where the call `breaks`, nothing. Without the run the
-- message cannot be inserted, since it refers to the run.
unfoldable pub complete_tools_and_continue_run :
    Bool → ℕ → ℕ → List ContentBlock → World → World × Completion
complete_tools_and_continue_run breaks session run_id blocks world =
    if breaks
    then (world, refused)
    else continue_found session run_id blocks (find_run run_id world.runs) world
