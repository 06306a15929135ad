-- ===== src/Worker/Tools/Results.antt =====
-- How the results of tools answer the tool uses.
use agentpg.Base.{
  ℕ, suc, ◌≡◌, refl, sym, ap, subst, ◌∙◌, true, false, List, [], ◌∷◌, ◌++◌, map, All, Option, none,
  some, Permᴰ, Permᴰ-map, Permᴰ-keep, ◌==◌, arith,
}
use agentpg.Base.Int.{ℤ}
use agentpg.Driver.{Bytes, ContentBlock}
use agentpg.Store.Runs.{Run, Iteration, ToolExecution, CreateToolExecutionParams}
use agentpg.Store.Tools.{
  complete_tool_execution, retry_tool_execution, snooze_tool_execution, discard_tool_execution,
  start_tool_execution, claim_tool_execution, new_tool_execution,
}
use agentpg.Store.World.{child_completed, get_tool_executions_by_iteration}
use agentpg.Store.Instances.{orphaned_tool}
use agentpg.Worker.Answer.{AnswerBlock, build_tool_params, batch_blocks, stream_blocks}
use agentpg.Worker.Answer.Outcomes.{use_ids, created_ids, build_tool_params-ids}
use agentpg.Worker.Tools.{
  ErrorLayer, ToolAnswer, ToolFaults, output, error, handle_tool_error, finish_tool, attempt,
  run_tool, execute_tool, tool_results,
}
use agentpg.Worker.Tools.Retries.{Turn}

-- What becomes of the row of an execution: a turn of the tool worker; the steps of an agent as a tool,
-- which is claimed, started and linked to its run, ends with that run or by an error before; and the
-- clean-up after the instance that held it.
pub data RowStep : Type 0 where
  tried : Turn → RowStep
  claimed_for_agent : ℕ → ℕ → RowStep
  agent_started : ℕ → RowStep
  agent_linked : ℕ → RowStep
  agent_fails : ℕ → Bytes → RowStep
  agent_ended : ℕ → Run → RowStep
  orphaned : ℕ → ℕ → RowStep

-- The same execution, for the same tool use and iteration.
abbrev Same : ToolExecution → ToolExecution → Type 0
Same row after = (after.tool_use_id ≡ row.tool_use_id) × (after.iteration_id ≡ row.iteration_id)

handle-Same :
    (delay : ℤ → ℕ) (now : ℕ) (exec row : ToolExecution) (err : List ErrorLayer)
    → Same row (handle_tool_error delay now exec err row)
unfolding handle_tool_error complete_tool_execution retry_tool_execution snooze_tool_execution
    discard_tool_execution
handle-Same delay now exec row err = (ground arith, ground arith)

finish-Same :
    (delay : ℤ → ℕ) (now : ℕ) (exec row : ToolExecution) (answer : ToolAnswer)
    → Same row (finish_tool delay now exec answer row)
unfolding finish_tool complete_tool_execution
finish-Same delay now exec row (output bytes) = (refl, refl)
finish-Same delay now exec row (error err) = handle-Same delay now exec row err

module _ (delay : ℤ → ℕ) (instance_id : ℕ) (text_of : ℕ → Bytes) where
  abbrev row_step : RowStep → ToolExecution → ToolExecution
  row_step (tried turn) row =
      attempt delay instance_id turn.now turn.capable turn.faults turn.tool row
  row_step (claimed_for_agent now instance) row = claim_tool_execution now instance row
  row_step (agent_started now) row = start_tool_execution now row
  row_step (agent_linked child) row = record row { child_run_id = some child }
  row_step (agent_fails now message) row = complete_tool_execution now [] true message row
  row_step (agent_ended now run) row = child_completed now run row
  row_step (orphaned now instance) row = orphaned_tool text_of now instance row

  unfoldable pub row_steps : List RowStep → ToolExecution → ToolExecution
  row_steps [] row = row
  row_steps (step ∷ steps) row = row_steps steps (row_step step row)

  run_tool-Same :
      (now : ℕ) (faults : ToolFaults) (tool : Option ToolAnswer) (exec row : ToolExecution)
      → Same row (run_tool delay now faults tool exec row)
  unfolding complete_tool_execution
  run_tool-Same now faults none exec row = (ground arith, ground arith)
  run_tool-Same now faults (some answer) exec row =
      let finished = finish-Same delay now exec row answer in
      (ground (arith, finished), ground (arith, finished))

  attempt-Same :
      (turn : Turn) (row : ToolExecution)
      → Same row (attempt delay instance_id turn.now turn.capable turn.faults turn.tool row)
  unfolding attempt execute_tool claim_tool_execution start_tool_execution
  attempt-Same turn row =
      let claimed = claim_tool_execution turn.now instance_id row in
      let ran =
        run_tool-Same turn.now turn.faults turn.tool claimed
          (start_tool_execution turn.now claimed) in
      (ground (arith, ran), ground (arith, ran))

  step-Same : (step : RowStep) (row : ToolExecution) → Same row (row_step step row)
  unfolding claim_tool_execution start_tool_execution complete_tool_execution child_completed
      orphaned_tool
  step-Same (tried turn) row = attempt-Same turn row
  step-Same (claimed_for_agent now instance) row = (refl, refl)
  step-Same (agent_started now) row = (refl, refl)
  step-Same (agent_linked child) row = (refl, refl)
  step-Same (agent_fails now message) row = (refl, refl)
  step-Same (agent_ended now run) row = (ground arith, ground arith)
  step-Same (orphaned now instance) row = (ground arith, ground arith)

  steps-Same : (steps : List RowStep) (row : ToolExecution) → Same row (row_steps steps row)
  unfolding row_steps
  steps-Same [] row = (refl, refl)
  steps-Same (step ∷ steps) row =
      let (uses, iter) = steps-Same steps (row_step step row) in
      let (uses', iter') = step-Same step row in (uses ∙ uses', iter ∙ iter')

  -- The executions of an answer, under successive identifiers, after the steps that each of them has.
  unfoldable pub executed :
      (ℕ → List RowStep) → ℕ → ℕ → List CreateToolExecutionParams → List ToolExecution
  executed steps id now [] = []
  executed steps id now (param ∷ params) =
      row_steps (steps id) (new_tool_execution id now param) ∷ executed steps (suc id) now params

abbrev pub result_ids : List ContentBlock → List Bytes
result_ids blocks = map (λ block. block.tool_result_for_use_id) blocks

abbrev row_ids : List ToolExecution → List Bytes
row_ids rows = map (λ row. row.tool_use_id) rows

results-rows : (rows : List ToolExecution) → result_ids (tool_results rows) ≡ row_ids rows
unfolding tool_results
results-rows [] = refl
results-rows (row ∷ rows) = ap (λ ids. row.tool_use_id ∷ ids) (results-rows rows)

-- Rows of an iteration among the rows of others.
keep-rows :
    (id : ℕ) (rows others : List ToolExecution)
    → All (λ row. row.iteration_id ≡ id) rows
    → All (λ row. (row.iteration_id == id) ≡ false) others
    → get_tool_executions_by_iteration id (rows ++ others) ≡ rows
unfolding get_tool_executions_by_iteration
keep-rows id [] [] h k = refl
keep-rows id [] (row ∷ others) h (k, ks) = rw k (keep-rows id [] others h ks)
keep-rows id (row ∷ rows) others (h, hs) k = ground (arith, keep-rows id rows others hs k)

module _ (delay : ℤ → ℕ) (instance_id : ℕ) (text_of : ℕ → Bytes) where
  executed-ids :
      (steps : ℕ → List RowStep) (id now : ℕ) (params : List CreateToolExecutionParams)
      → row_ids (executed delay instance_id text_of steps id now params) ≡ created_ids params
  unfolding executed new_tool_execution
  executed-ids steps id now [] = refl
  executed-ids steps id now (param ∷ params) =
      let first =
        (steps-Same delay instance_id text_of (steps id) (new_tool_execution id now param)).0 in
      let rest = executed-ids steps (suc id) now params in cc

  executed-iteration :
      (iteration_id : ℕ) (steps : ℕ → List RowStep) (id now : ℕ)
      (params : List CreateToolExecutionParams)
      → All (λ param. param.iteration_id ≡ iteration_id) params
      → All
          (λ row. row.iteration_id ≡ iteration_id)
          (executed delay instance_id text_of steps id now params)
  unfolding executed new_tool_execution
  executed-iteration iteration_id steps id now [] h = tt
  executed-iteration iteration_id steps id now (param ∷ params) (h, hs) = (
    (steps-Same delay instance_id text_of (steps id) (new_tool_execution id now param)).1 ∙ h,
    executed-iteration iteration_id steps (suc id) now params hs,
  )

module _ (agent_named : Bytes → Option ℕ) (encode : Bytes → Bytes) (max_attempts : ℕ)
    (iter : Iteration) (run : Run) where
  params-iteration :
      (content : List AnswerBlock)
      → All
          (λ param. param.iteration_id ≡ iter.id)
          (build_tool_params agent_named encode max_attempts iter run content)
  unfolding build_tool_params
  params-iteration [] = tt
  params-iteration (block ∷ content) = ground (arith, params-iteration content)

  -- The message of tool results answers each tool use that the assistant's message stores, once, and
  -- nothing else, for a batch and for a stream. The table may hold the rows of the iteration in any
  -- order, among those of other iterations, since they have one time of creation; so the order of the
  -- answers is left open. This is so whatever steps the executions took: tries of tools, agents that
  -- were started, failed or ended, and clean-ups after instances.
  pub tool_results-answer :
      (marshal : Bytes → Option Bytes) (content : List AnswerBlock) (delay : ℤ → ℕ)
      (instance_id : ℕ) (text_of : ℕ → Bytes) (steps : ℕ → List RowStep) (id now : ℕ)
      (others tools : List ToolExecution)
      → All (λ row. (row.iteration_id == iter.id) ≡ false) others
      → Permᴰ tools (
          executed delay instance_id text_of steps id now
            (build_tool_params agent_named encode max_attempts iter run content)
          ++ others)
      → let results = tool_results (get_tool_executions_by_iteration iter.id tools) in
        Permᴰ (result_ids results) (use_ids (stream_blocks marshal content))
        × Permᴰ (result_ids results) (use_ids (batch_blocks content))
  unfolding get_tool_executions_by_iteration
  tool_results-answer marshal content delay instance_id text_of steps id now others tools apart
        order =
      let params = build_tool_params agent_named encode max_attempts iter run content in
      let rows = executed delay instance_id text_of steps id now params in
      let kept =
        keep-rows iter.id rows others
          (executed-iteration delay instance_id text_of iter.id steps id now params
            (params-iteration content))
          apart in
      let read = get_tool_executions_by_iteration iter.id tools in
      let same_rows : Permᴰ read rows =
        subst (Permᴰ read) kept (Permᴰ-keep (λ exec. exec.iteration_id == iter.id) order) in
      let answers : Permᴰ (result_ids (tool_results read)) (created_ids params) =
        subst (λ l. Permᴰ l (created_ids params)) (sym (results-rows read))
          (subst (Permᴰ (row_ids read)) (executed-ids delay instance_id text_of steps id now params)
            (Permᴰ-map (λ row. row.tool_use_id) same_rows)) in
      let (streamed, batched) =
        build_tool_params-ids agent_named marshal encode max_attempts iter run content in
      (
        subst (Permᴰ (result_ids (tool_results read))) streamed answers,
        subst (Permᴰ (result_ids (tool_results read))) batched answers,
      )
