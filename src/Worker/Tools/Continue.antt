-- ===== src/Worker/Tools/Continue.antt =====
-- The end of an iteration's tools in tool_worker.go: handleAllToolsComplete, which sends the run on
-- with the results, and checkForStuckRuns, which does so where the notification was missed. The
-- reads and the write of handleAllToolsComplete are apart, since other instances act in between.
pub mod Once
pub mod Recovery
pub mod Context
use agentpg.Base.{
  ℕ, Bool, true, false, List, [], ◌∷◌, map, Option, none, some, ◌==◌, ◌>>=◌, if◌then◌else◌,
}
use agentpg.Driver.{ContentBlock}
use agentpg.Store.Runs.{Run, RunState, ToolExecution}
use agentpg.Store.World.{
  World, find_run, is_waiting, get_tool_executions_by_iteration, get_stuck_pending_tools_runs,
  complete_tools_and_continue_run,
}
use agentpg.Worker.Tools.{tool_results}

-- The calls, with the run they are for.
pub data ToolsCall : Type 0 where
  get_run get_tool_executions complete_tools : ℕ → ToolsCall
  get_stuck_runs : ToolsCall

-- What the reads lead to: a nil run is read and panics, the handler returns, or it has the session
-- and the blocks of the message.
pub data Prepared : Type 0 where
  panics returns : Prepared
  ready : ℕ → List ContentBlock → Prepared

module _ (breaks : ToolsCall → Bool) where
  abbrev prepare_iteration : Run → Option ℕ → List ToolExecution → Prepared
  prepare_iteration run none tools = returns
  prepare_iteration run (some iteration) tools =
      if breaks (get_tool_executions run.id)
      then returns
      else ready run.session_id (tool_results (get_tool_executions_by_iteration iteration tools))

  abbrev prepare_run : Option Run → List ToolExecution → Prepared
  prepare_run none tools = panics
  prepare_run (some run) tools =
      if is_waiting run.state then prepare_iteration run run.current_iteration_id tools else returns

  -- `handleAllToolsComplete` up to its write.
  unfoldable pub prepare : ℕ → World → Prepared
  prepare run_id world =
      if breaks (get_run run_id)
      then returns
      else prepare_run (find_run run_id world.runs) world.tools

  unfoldable pub commit : ℕ → Prepared → World → Option World
  commit run_id panics world = none
  commit run_id returns world = some world
  commit run_id (ready session blocks) world =
      some
        (complete_tools_and_continue_run (breaks (complete_tools run_id)) session run_id blocks
          world).0

  -- `none` is a panic.
  unfoldable pub handle_all_tools_complete : ℕ → World → Option World
  handle_all_tools_complete run_id world = commit run_id (prepare run_id world) world

  unfoldable pub handle_each : List Run → World → Option World
  handle_each [] world = some world
  handle_each (run ∷ runs) world = do
    next ← handle_all_tools_complete run.id world
    handle_each runs next

  unfoldable pub check_for_stuck_runs : World → Option World
  check_for_stuck_runs world =
      if breaks get_stuck_runs
      then some world
      else handle_each (get_stuck_pending_tools_runs 100 world) world
