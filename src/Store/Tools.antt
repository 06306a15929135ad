-- ===== src/Store/Tools.antt =====
-- The updates of a tool execution in driver/pgxv5/store.go, each on the row it addresses, and the
-- claim, the SQL function agentpg_claim_tool_executions of
-- storage/migrations/001_agentpg_migration.up.sql. `NOW()` is an argument.
use agentpg.Base.{
  ℕ, suc, ◌-◌, Bool, true, false, ◌&&◌, [], ◌∷◌, Option, none, some, leb, ◌==◌, if◌then◌else◌,
}
use agentpg.Driver.{Bytes}
use agentpg.Store.Runs.{ToolExecution, ToolState, CreateToolExecutionParams}

abbrev null_if_empty : Bytes → Option Bytes
null_if_empty [] = none
null_if_empty (b ∷ bs) = some (b ∷ bs)

unfoldable pub complete_tool_execution : ℕ → Bytes → Bool → Bytes → ToolExecution → ToolExecution
complete_tool_execution now output is_error error_msg exec = record exec {
  state = if is_error then ToolState.failed else ToolState.completed;
  tool_output = some output;
  is_error = is_error;
  error_message = null_if_empty error_msg;
  completed_at = some now;
}

unfoldable pub retry_tool_execution : ℕ → Bytes → ToolExecution → ToolExecution
retry_tool_execution scheduled_at last_error exec = record exec {
  state = ToolState.pending;
  claimed_by_instance_id = none;
  claimed_at = none;
  started_at = none;
  scheduled_at = scheduled_at;
  last_error = some last_error;
}

-- `GREATEST(0, attempt_count - 1)` is the subtraction that stops at 0.
unfoldable pub snooze_tool_execution : ℕ → ToolExecution → ToolExecution
snooze_tool_execution scheduled_at exec = record exec {
  state = ToolState.pending;
  claimed_by_instance_id = none;
  claimed_at = none;
  started_at = none;
  scheduled_at = scheduled_at;
  attempt_count = exec.attempt_count - 1;
  snooze_count = suc exec.snooze_count;
}

unfoldable pub discard_tool_execution : ℕ → Bytes → ToolExecution → ToolExecution
discard_tool_execution now error_msg exec = record exec {
  state = ToolState.failed;
  is_error = true;
  error_message = some error_msg;
  completed_at = some now;
}

-- The update with which `executeTool` begins.
unfoldable pub start_tool_execution : ℕ → ToolExecution → ToolExecution
start_tool_execution now exec = record exec { state = ToolState.running; started_at = some now }

abbrev pub is_pending : ToolState → Bool
is_pending ToolState.pending = true
is_pending ToolState.running = false
is_pending ToolState.completed = false
is_pending ToolState.failed = false
is_pending ToolState.skipped = false

abbrev pub is_null : Option ℕ → Bool
is_null none = true
is_null (some _) = false

-- The conditions of the claim on the row. Whether the instance can run the tool, which other tables
-- say, is the argument `capable`.
unfoldable pub is_claimable : ℕ → Bool → ToolExecution → Bool
is_claimable now capable exec =
    is_pending exec.state
    && (is_null exec.claimed_by_instance_id && (leb exec.scheduled_at now && capable))

unfoldable pub claim_tool_execution : ℕ → ℕ → ToolExecution → ToolExecution
claim_tool_execution now instance_id exec = record exec {
  claimed_by_instance_id = some instance_id;
  claimed_at = some now;
  state = ToolState.running;
  started_at = some now;
  attempt_count = suc exec.attempt_count;
}

-- A new row. `CreateToolExecutionsAndUpdateRunState` puts 2 for a maximum of 0.
unfoldable pub new_tool_execution : ℕ → ℕ → CreateToolExecutionParams → ToolExecution
new_tool_execution id now params = record {
  id = id;
  run_id = params.run_id;
  iteration_id = params.iteration_id;
  tool_use_id = params.tool_use_id;
  tool_name = params.tool_name;
  tool_input = params.tool_input;
  is_agent_tool = params.is_agent_tool;
  agent_id = params.agent_id;
  child_run_id = none;
  state = ToolState.pending;
  tool_output = none;
  is_error = false;
  error_message = none;
  claimed_by_instance_id = none;
  claimed_at = none;
  started_at = none;
  completed_at = none;
  scheduled_at = now;
  attempt_count = 0;
  max_attempts = if params.max_attempts == 0 then 2 else params.max_attempts;
  snooze_count = 0;
  last_error = none;
}
