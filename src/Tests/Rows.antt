-- ===== src/Tests/Rows.antt =====
-- Rows that the tests on the workers share: a run of session 1 with its iteration, and the parameters of
-- a tool execution.
use agentpg.Base.{true, false, [], none, some, codes}
use agentpg.Driver.{Usage}
use agentpg.Store.Messages.{Db}
use agentpg.Store.Runs.{Run, RunMode, RunState, Iteration, CreateToolExecutionParams}

abbrev pub some_usage : Usage
some_usage = record {
  input_tokens = 7;
  output_tokens = 5;
  cache_creation_input_tokens = 0;
  cache_read_input_tokens = 0;
}

abbrev pub run : Run
run = record {
  id = 1;
  session_id = 1;
  agent_id = 4;
  run_mode = RunMode.streaming;
  parent_run_id = none;
  parent_tool_execution_id = none;
  depth = 0;
  state = RunState.streaming;
  previous_state = none;
  prompt = [];
  current_iteration = 1;
  current_iteration_id = some 2;
  response_text = none;
  stop_reason = none;
  usage = some_usage;
  iteration_count = 0;
  tool_iterations = 0;
  finalized_at = none;
  error_type = none;
  error_message = none;
  created_by_instance_id = 3;
  claimed_by_instance_id = some 3;
  claimed_at = some 1;
  metadata = [];
  started_at = some 1;
  rescue_attempts = 0;
  last_rescue_at = none;
}

abbrev pub iteration : Iteration
iteration = record {
  id = 2;
  run_id = 1;
  iteration_number = 1;
  is_streaming = true;
  batch_id = none;
  batch_request_id = none;
  batch_status = none;
  batch_submitted_at = none;
  batch_completed_at = none;
  batch_expires_at = none;
  batch_poll_count = 0;
  batch_last_poll_at = none;
  streaming_started_at = none;
  streaming_completed_at = none;
  trigger_type = [];
  stop_reason = none;
  response_message_id = none;
  has_tool_use = false;
  tool_execution_count = 0;
  usage = some_usage;
  started_at = none;
  completed_at = none;
}

abbrev pub params : CreateToolExecutionParams
params = record {
  run_id = 1;
  iteration_id = 2;
  tool_use_id = codes "a";
  tool_name = codes "search";
  tool_input = codes "{}";
  is_agent_tool = false;
  agent_id = none;
  max_attempts = 2;
}

abbrev pub empty_store : Db
empty_store = record {
  sessions = [];
  messages = [];
  archive = [];
  events = [];
  next_id = 9;
  now = 9;
}
