-- ===== src/Worker/Tools/Continue/Recovery.antt =====
-- A waiting run is sent on with the results of its tools, and the check for stuck runs sends on those
-- whose notification was missed.
use agentpg.Base.{ℕ, ◌≡◌, refl, ap, ◌∙◌, ◌⊎◌, Bool, true, false, List, [], ◌∷◌, ◌++◌, map, some}
use agentpg.Driver.{Message, MessageRole}
use agentpg.Store.Runs.{Run, RunState, ToolExecution, update_run}
use agentpg.Store.World.{
  World, find_run, is_waiting, write_run, continued_run, stored_result,
  complete_tools_and_continue_run, get_tool_executions_by_iteration,
}
use agentpg.Worker.Tools.{tool_result_block, tool_results}
use agentpg.Worker.Tools.Continue.{ToolsCall, prepare, commit, handle_all_tools_complete}
use agentpg.Worker.Tools.Continue.Once.{complete-continued, find_complete, write-continued_tools}

stored-results :
    (executions : List ToolExecution)
    → map stored_result (tool_results executions) ≡ tool_results executions
unfolding tool_results
stored-results [] = refl
stored-results (exec ∷ executions) = ap (◌∷◌ (tool_result_block exec)) (stored-results executions)

abbrev pub Sent : (ToolsCall → Bool) → ℕ → ℕ → World → Run → World → Type 0
Sent breaks id iteration world run after =
    (handle_all_tools_complete breaks id world ≡ some after)
    × (find_run id after.runs ≡ some (continued_run run))
    × (after.tools ≡ world.tools)
    × (after.runs ≡ update_run id continued_run world.runs)
    × ((message : Message) × (after.db.messages ≡ world.db.messages ++ message ∷ [])
        × (message.session_id ≡ run.session_id)
        × (message.run_id ≡ some id)
        × (message.role ≡ MessageRole.user)
        × (message.content ≡ tool_results (get_tool_executions_by_iteration iteration world.tools)))

abbrev pub Waits : World → ℕ → Type 0
Waits world id =
    (row : Run) × (find_run id world.runs ≡ some row)
    × (is_waiting row.state ≡ true)
    × ((iteration : ℕ) × (row.current_iteration_id ≡ some iteration))

abbrev pub IsPending : World → ℕ → Type 0
IsPending world id =
    (row : Run) × (find_run id world.runs ≡ some row) × (row.state ≡ RunState.pending)

abbrev Sendable : World → ℕ → Type 0
Sendable world id = Waits world id ⊎ IsPending world id

abbrev Keeps : World → World → Type 0
Keeps world after =
    ((k : ℕ) → Sendable world k → Sendable after k)
    × ((k : ℕ) → IsPending world k → IsPending after k)

module _ (breaks : ToolsCall → Bool) (works : (c : ToolsCall) → breaks c ≡ false) where
  handle-waiting :
      (id iteration : ℕ) (world : World) (run : Run)
      → find_run id world.runs ≡ some run
      → is_waiting run.state ≡ true
      → run.current_iteration_id ≡ some iteration
      → handle_all_tools_complete breaks id world
        ≡ some
            (complete_tools_and_continue_run false run.session_id id
              (tool_results (get_tool_executions_by_iteration iteration world.tools))
              world).0
  unfolding handle_all_tools_complete prepare commit
  handle-waiting id iteration world run found waits current =
      rw
        (
          works (ToolsCall.get_run id),
          found,
          waits,
          current,
          works (ToolsCall.get_tool_executions run.id),
          works (ToolsCall.complete_tools id),
        )
        refl

  pub handle_all-sends :
      (id iteration : ℕ) (world : World) (run : Run)
      → find_run id world.runs ≡ some run
      → is_waiting run.state ≡ true
      → run.current_iteration_id ≡ some iteration
      → (after : World) × Sent breaks id iteration world run after
  unfolding continued_run write_run
  handle_all-sends id iteration world run found waits current =
      let blocks = tool_results (get_tool_executions_by_iteration iteration world.tools) in
      let whole = complete-continued id run.session_id blocks world run found waits in
      (
        (complete_tools_and_continue_run false run.session_id id blocks world).0,
        (
          handle-waiting id iteration world run found waits current,
          find_complete id run.session_id blocks world run found waits,
          ap (λ p. p.0.tools) whole ∙ write-continued_tools id world,
          ap (λ p. p.0.runs) whole,
          (
            _,
            ap (λ p. p.0.db.messages) whole,
            refl,
            refl,
            refl,
            stored-results (get_tool_executions_by_iteration iteration world.tools),
          ),
        ),
      )
