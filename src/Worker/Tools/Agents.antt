-- ===== src/Worker/Tools/Agents.antt =====
-- An agent as a tool in tool_worker.go: executeAgentTool, which creates a run of the agent, and
-- CreateRun of driver/pgxv5/store.go. The execution ends with that run, by the trigger of
-- Store.World.
pub mod Answered
use agentpg.Base.{
  ℕ, suc, Bool, true, false, List, [], ◌∷◌, ◌++◌, codes, Option, none, some, ◌==◌, if◌then◌else◌,
}
use agentpg.Driver.{Bytes}
use agentpg.Store.Messages.{Db}
use agentpg.Store.Runs.{Run, RunState, RunMode, ToolExecution}
use agentpg.Store.Tools.{complete_tool_execution, start_tool_execution}
use agentpg.Store.World.{World, find_run, update_tool, no_usage}

pub record CreateRunParams : Type 0 where
  pub session_id : ℕ
  pub agent_id : ℕ
  pub prompt : Bytes
  pub run_mode : Option RunMode
  pub parent_run_id : Option ℕ
  pub parent_tool_execution_id : Option ℕ
  pub depth : ℕ
  pub created_by_instance_id : ℕ
  pub metadata : Bytes

-- The empty string is no mode.
abbrev mode_or_batch : Option RunMode → RunMode
mode_or_batch none = RunMode.batch
mode_or_batch (some mode) = mode

unfoldable pub new_run : ℕ → CreateRunParams → Run
new_run id params = record {
  id = id;
  session_id = params.session_id;
  agent_id = params.agent_id;
  run_mode = mode_or_batch params.run_mode;
  parent_run_id = params.parent_run_id;
  parent_tool_execution_id = params.parent_tool_execution_id;
  depth = params.depth;
  state = RunState.pending;
  previous_state = none;
  prompt = params.prompt;
  current_iteration = 0;
  current_iteration_id = none;
  response_text = none;
  stop_reason = none;
  usage = no_usage;
  iteration_count = 0;
  tool_iterations = 0;
  finalized_at = none;
  error_type = none;
  error_message = none;
  created_by_instance_id = params.created_by_instance_id;
  claimed_by_instance_id = none;
  claimed_at = none;
  metadata = params.metadata;
  started_at = none;
  rescue_attempts = 0;
  last_rescue_at = none;
}

unfoldable pub create_run : CreateRunParams → World → World
create_run params world = record world {
  runs = world.runs ++ new_run world.db.next_id params ∷ [];
  db = record world.db { next_id = suc world.db.next_id; now = suc world.db.now };
}

-- What `json.Unmarshal` makes of the input: the text of its error, or the task, which is empty where
-- the input has none.
pub data TaskInput : Type 0 where
  invalid task : Bytes → TaskInput

pub data AgentCall : Type 0 where
  start get_parent create link complete : AgentCall

abbrev pub child_params : ℕ → ToolExecution → ℕ → Bytes → Run → CreateRunParams
child_params instance_id exec agent_id prompt parent = record {
  session_id = parent.session_id;
  agent_id = agent_id;
  prompt = prompt;
  run_mode = some parent.run_mode;
  parent_run_id = some exec.run_id;
  parent_tool_execution_id = some exec.id;
  depth = suc parent.depth;
  created_by_instance_id = instance_id;
  metadata = parent.metadata;
}

module _ (breaks : AgentCall → Bool) (create_error : Bytes) (unmarshal : Bytes → TaskInput)
    (instance_id : ℕ) where
  abbrev complete_with : ToolExecution → Bytes → World → World
  complete_with exec message world = if breaks complete then world else record world {
    tools = update_tool exec.id (complete_tool_execution world.db.now [] true message) world.tools;
  }

  abbrev link_child : ToolExecution → ℕ → World → World
  link_child exec child world = if breaks link then world else record world {
    tools = update_tool exec.id (λ row. record row { child_run_id = some child }) world.tools;
  }

  abbrev start_child : ToolExecution → ℕ → Bytes → Option Run → World → Option World
  start_child exec agent_id prompt none world = none
  start_child exec agent_id prompt (some parent) world = some (
      if breaks create
      then complete_with exec (codes "failed to create child run: " ++ create_error) world
      else link_child exec world.db.next_id
          (create_run (child_params instance_id exec agent_id prompt parent) world))

  abbrev with_task : ToolExecution → ℕ → TaskInput → World → Option World
  with_task exec agent_id (invalid message) world =
      some (complete_with exec (codes "invalid input: " ++ message) world)
  with_task exec agent_id (task prompt) world =
      if breaks get_parent
      then some world
      else start_child exec agent_id prompt (find_run exec.run_id world.runs) world

  abbrev with_agent : ToolExecution → Option ℕ → World → Option World
  with_agent exec none world =
      some (complete_with exec (codes "agent ID is nil for agent tool") world)
  with_agent exec (some agent_id) world = with_task exec agent_id (unmarshal exec.tool_input) world

  -- `none` is the panic of a parent that is nil.
  unfoldable pub execute_agent_tool : ToolExecution → World → Option World
  execute_agent_tool exec world = with_agent exec exec.agent_id world

  -- `executeTool` for an agent.
  unfoldable pub execute_agent : ToolExecution → World → Option World
  execute_agent exec world =
      if breaks start
      then some world
      else execute_agent_tool exec (record world {
        tools = update_tool exec.id (start_tool_execution world.db.now) world.tools;
      })
