-- ===== src/Ui/Summaries.antt =====
-- runToSummary and toolExecToSummary of ui/service/runs.go. `name_of` is the name of an agent, empty where
-- GetAgent fails. A duration may be negative.
use agentpg.Base.{ℕ, ◌+◌, Bool, true, false, Option, none, some}
use agentpg.Base.Int.{ℤ, sub_ℕ}
use agentpg.Driver.{Bytes}
use agentpg.Store.Runs.{Run, RunMode, RunState, ToolExecution, ToolState}

pub record RunSummary : Type 0 where
  pub id : ℕ
  pub session_id : ℕ
  pub agent_name : Bytes
  pub run_mode : RunMode
  pub state : RunState
  pub depth : ℕ
  pub has_parent : Bool
  pub iteration_count : ℕ
  pub tool_iterations : ℕ
  pub total_tokens : ℕ
  pub duration : Option ℤ
  pub error_message : Option Bytes
  pub finalized_at : Option ℕ

pub record ToolExecutionSummary : Type 0 where
  pub id : ℕ
  pub run_id : ℕ
  pub iteration_id : ℕ
  pub tool_use_id : Bytes
  pub tool_name : Bytes
  pub tool_input : Bytes
  pub state : ToolState
  pub is_agent_tool : Bool
  pub agent_name : Option Bytes
  pub child_run_id : Option ℕ
  pub is_error : Bool
  pub attempt_count : ℕ
  pub max_attempts : ℕ
  pub duration : Option ℤ
  pub completed_at : Option ℕ

abbrev pub duration_of : Option ℕ → Option ℕ → Option ℤ
duration_of none start = none
duration_of (some end_) none = none
duration_of (some end_) (some start) = some (sub_ℕ end_ start)

abbrev pub is_set : Option ℕ → Bool
is_set none = false
is_set (some value) = true

module _ (name_of : ℕ → Bytes) where
  unfoldable pub run_to_summary : Run → RunSummary
  run_to_summary run = record {
    id = run.id;
    session_id = run.session_id;
    agent_name = name_of run.agent_id;
    run_mode = run.run_mode;
    state = run.state;
    depth = run.depth;
    has_parent = is_set run.parent_run_id;
    iteration_count = run.iteration_count;
    tool_iterations = run.tool_iterations;
    total_tokens = run.usage.input_tokens + run.usage.output_tokens;
    duration = duration_of run.finalized_at run.started_at;
    error_message = run.error_message;
    finalized_at = run.finalized_at;
  }

  abbrev agent_name_of : Bool → Option ℕ → Option Bytes
  agent_name_of true (some id) = some (name_of id)
  agent_name_of true none = none
  agent_name_of false agent = none

  unfoldable pub tool_exec_to_summary : ToolExecution → ToolExecutionSummary
  tool_exec_to_summary exec = record {
    id = exec.id;
    run_id = exec.run_id;
    iteration_id = exec.iteration_id;
    tool_use_id = exec.tool_use_id;
    tool_name = exec.tool_name;
    tool_input = exec.tool_input;
    state = exec.state;
    is_agent_tool = exec.is_agent_tool;
    agent_name = agent_name_of exec.is_agent_tool exec.agent_id;
    child_run_id = exec.child_run_id;
    is_error = exec.is_error;
    attempt_count = exec.attempt_count;
    max_attempts = exec.max_attempts;
    duration = duration_of exec.completed_at exec.started_at;
    completed_at = exec.completed_at;
  }
