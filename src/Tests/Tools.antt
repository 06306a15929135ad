-- ===== src/Tests/Tools.antt =====
-- Runs of the theorems on the end of an iteration's tools, and on agents as tools.
use agentpg.Base.{ℕ, ◌≡◌, ◌↔◌, refl, Bool, true, false, List, [], ◌∷◌, codes, some, Memᴰ}
use agentpg.Driver.{Bytes, Message}
use agentpg.Store.Runs.{Run, RunState, run_is_terminal, ToolExecution, ToolState, tool_is_terminal}
use agentpg.Store.Tools.{new_tool_execution}
use agentpg.Store.World.{World, find_run, write_run}
use agentpg.Store.Context.{get_messages_for_run_context}
use agentpg.Store.Context.Isolation.{Visible, get_messages-Visible}
use agentpg.Worker.Tools.Continue.Context.{Extends, handle_all-Extends}
use agentpg.Worker.Tools.{tool_results, tool_result_block}
use agentpg.Worker.Tools.Continue.{ToolsCall}
use agentpg.Worker.Tools.Continue.Once.{Attempt, Once, completions, completions-Once}
use agentpg.Worker.Tools.Agents.{AgentCall, TaskInput, new_run, execute_agent}
use agentpg.Worker.Tools.Agents.Answered.{child_of, agent_result, execute_agent-answers}
use agentpg.Tests.Rows.{run, iteration, params, empty_store}

abbrev waiting : Run
waiting = record run { state = RunState.pending_tools }

abbrev exec : ToolExecution
exec = record (new_tool_execution 5 0 params) {
  state = ToolState.completed;
  tool_output = some (codes "found");
}

abbrev world : World
world = record {
  db = empty_store;
  runs = run_of 7 ∷ waiting ∷ [];
  iterations = iteration ∷ [];
  tools = exec ∷ [];
}
  where
    run_of : ℕ → Run
    run_of id = record run { id = id }

abbrev works : ToolsCall → Bool
works call = false

abbrev completes : Bool → Bytes → Attempt
completes breaks output = record {
  breaks = breaks;
  session = 1;
  blocks = tool_results (record exec { tool_output = some output } ∷ []);
}

abbrev attempts : List Attempt
attempts = completes true [] ∷ completes false (codes "new") ∷ completes false (codes "old") ∷ []

completions-Once_example : Once 1 attempts world (completions 1 attempts world)
unfolding find_run
completions-Once_example = completions-Once 1 attempts world waiting refl refl

abbrev agent_exec : ToolExecution
agent_exec = record (new_tool_execution 6 0 params) { is_agent_tool = true; agent_id = some 4 }

abbrev parent_world : World
parent_world = record world { tools = agent_exec ∷ [] }

abbrev task_of : Bytes → TaskInput
task_of input = TaskInput.task input

abbrev never : AgentCall → Bool
never call = false

abbrev ended : Run → Run
ended row = record row { state = RunState.failed; error_message = some (codes "no luck") }

execute_agent-answers_example :
    let child = child_of 3 4 (codes "{}") agent_exec waiting parent_world in
    (created : World) × (execute_agent never [] task_of 3 agent_exec parent_world ≡ some created)
    × (find_run 9 created.runs ≡ some child)
    × (child.state ≡ RunState.pending)
    × (child.session_id ≡ 1)
    × (child.depth ≡ 1)
    × ((done : ToolExecution) × Memᴰ done (write_run 9 ended created).tools
        × (tool_is_terminal done.state ≡ true)
        × (tool_result_block done ≡ agent_result (codes "a") (ended child)))
unfolding find_run new_run new_tool_execution run_is_terminal
execute_agent-answers_example =
    execute_agent-answers 3 4 (codes "{}") agent_exec waiting parent_world never [] task_of ended
      agent_exec (λ c. refl) refl refl refl refl refl refl refl (Memᴰ.head refl)

handle_all-Extends_example : Extends works (λ c. refl) 1 2 world
unfolding find_run
handle_all-Extends_example = handle_all-Extends works (λ c. refl) 1 2 world waiting refl refl refl

get_messages-Visible_example :
    (messages : List Message) × (get_messages_for_run_context false 1 world ≡ some messages)
    × ((msg : Message) → Memᴰ msg messages ↔ (Memᴰ msg [] × Visible world waiting msg))
unfolding find_run
get_messages-Visible_example = get_messages-Visible 1 world waiting refl
