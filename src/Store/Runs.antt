-- ===== src/Store/Runs.antt =====
-- Runs, iterations and tool executions: the columns of driver/driver.go that the workers read or
-- write, the states of constants.go, and the parameters of a new tool execution.
use agentpg.Base.{ℕ, Bool, true, false, List, map, ◌==◌, if◌then◌else◌, Option}
use agentpg.Driver.{Bytes, Usage}

pub data RunState : Type 0 where
  pending batch_submitting batch_pending batch_processing streaming pending_tools awaiting_input :
      RunState
  completed cancelled failed : RunState

-- `RunState.IsTerminal`, and `isTerminalState` of client.go.
unfoldable pub run_is_terminal : RunState → Bool
run_is_terminal RunState.completed = true
run_is_terminal RunState.cancelled = true
run_is_terminal RunState.failed = true
run_is_terminal RunState.pending = false
run_is_terminal RunState.batch_submitting = false
run_is_terminal RunState.batch_pending = false
run_is_terminal RunState.batch_processing = false
run_is_terminal RunState.streaming = false
run_is_terminal RunState.pending_tools = false
run_is_terminal RunState.awaiting_input = false

pub data ToolState : Type 0 where
  pending running completed failed skipped : ToolState

unfoldable pub tool_is_terminal : ToolState → Bool
tool_is_terminal ToolState.completed = true
tool_is_terminal ToolState.failed = true
tool_is_terminal ToolState.skipped = true
tool_is_terminal ToolState.pending = false
tool_is_terminal ToolState.running = false

pub data RunMode : Type 0 where
  batch streaming : RunMode

pub record Run : Type 0 where
  pub id : ℕ
  pub session_id : ℕ
  pub agent_id : ℕ
  pub run_mode : RunMode
  pub parent_run_id : Option ℕ
  pub parent_tool_execution_id : Option ℕ
  pub depth : ℕ
  pub state : RunState
  pub previous_state : Option RunState
  pub prompt : Bytes
  pub current_iteration : ℕ
  pub current_iteration_id : Option ℕ
  pub response_text : Option Bytes
  pub stop_reason : Option Bytes
  pub usage : Usage
  pub iteration_count : ℕ
  pub tool_iterations : ℕ
  pub finalized_at : Option ℕ
  pub error_type : Option Bytes
  pub error_message : Option Bytes
  pub created_by_instance_id : ℕ
  pub claimed_by_instance_id : Option ℕ
  pub claimed_at : Option ℕ
  pub metadata : Bytes
  pub started_at : Option ℕ
  pub rescue_attempts : ℕ
  pub last_rescue_at : Option ℕ

pub data BatchStatus : Type 0 where
  in_progress canceling ended : BatchStatus

pub record Iteration : Type 0 where
  pub id : ℕ
  pub run_id : ℕ
  pub iteration_number : ℕ
  pub is_streaming : Bool
  pub batch_id : Option Bytes
  pub batch_request_id : Option Bytes
  pub batch_status : Option BatchStatus
  pub batch_submitted_at : Option ℕ
  pub batch_completed_at : Option ℕ
  pub batch_expires_at : Option ℕ
  pub batch_poll_count : ℕ
  pub batch_last_poll_at : Option ℕ
  pub streaming_started_at : Option ℕ
  pub streaming_completed_at : Option ℕ
  pub trigger_type : Bytes
  pub stop_reason : Option Bytes
  pub response_message_id : Option ℕ
  pub has_tool_use : Bool
  pub tool_execution_count : ℕ
  pub usage : Usage
  pub started_at : Option ℕ
  pub completed_at : Option ℕ

pub record CreateToolExecutionParams : Type 0 where
  pub run_id : ℕ
  pub iteration_id : ℕ
  pub tool_use_id : Bytes
  pub tool_name : Bytes
  pub tool_input : Bytes
  pub is_agent_tool : Bool
  pub agent_id : Option ℕ
  pub max_attempts : ℕ

pub record ToolExecution : Type 0 where
  pub id : ℕ
  pub run_id : ℕ
  pub iteration_id : ℕ
  pub tool_use_id : Bytes
  pub tool_name : Bytes
  pub tool_input : Bytes
  pub is_agent_tool : Bool
  pub agent_id : Option ℕ
  pub child_run_id : Option ℕ
  pub state : ToolState
  pub tool_output : Option Bytes
  pub is_error : Bool
  pub error_message : Option Bytes
  pub claimed_by_instance_id : Option ℕ
  pub claimed_at : Option ℕ
  pub started_at : Option ℕ
  pub completed_at : Option ℕ
  pub scheduled_at : ℕ
  pub attempt_count : ℕ
  pub max_attempts : ℕ
  pub snooze_count : ℕ
  pub last_error : Option Bytes

-- `UPDATE agentpg_runs … WHERE id = $1`
abbrev pub update_run : ℕ → (Run → Run) → List Run → List Run
update_run id f runs = map (λ row. if row.id == id then f row else row) runs
