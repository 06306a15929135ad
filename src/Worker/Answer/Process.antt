-- ===== src/Worker/Answer/Process.antt =====
-- What processResult of batch_poller.go and of streaming_worker.go writes: the message, the iteration,
-- the run and its tool executions.
use agentpg.Base.{
  ℕ, suc, Bool, true, false, not, List, [], ◌++◌, Option, none, some, length, ltb, if◌then◌else◌,
}
use agentpg.Driver.{Bytes, ContentBlock, MessageRole, Usage}
use agentpg.Store.Messages.{Db, Faults, CreateMessageParams, insert_message}
use agentpg.Store.Runs.{Run, RunState, Iteration, CreateToolExecutionParams}
use agentpg.Worker.Answer.{
  Answer, or_empty, batch_blocks, stream_blocks, has_tool_use, response_text, tool_execution_count,
  build_tool_params, add_usage,
}

-- The rows that the processing writes: the messages, the run, its iteration, its new tool executions.
pub record Work : Type 0 where
  pub db : Db
  pub run : Run
  pub iteration : Iteration
  pub created : List CreateToolExecutionParams

-- The calls that write the iteration and the run.
pub data AnswerCall : Type 0 where
  update_iteration create_tool_executions update_run_state : AnswerCall

abbrev message_params : Run → Iteration → Usage → List ContentBlock → CreateMessageParams
message_params run iter usage blocks = record {
  session_id = run.session_id;
  run_id = some iter.run_id;
  role = MessageRole.assistant;
  content = blocks;
  usage = usage;
  is_preserved = false;
  is_summary = false;
  metadata = [];
}

-- Only the streaming worker writes the end of the stream.
abbrev updated_iteration : Bool → Answer → ℕ → ℕ → Iteration → Iteration
updated_iteration streamed answer message now iter = record iter {
  stop_reason = some answer.stop_reason;
  response_message_id = some message;
  has_tool_use = has_tool_use answer.content;
  tool_execution_count = tool_execution_count answer.content;
  usage = answer.usage;
  streaming_completed_at = if streamed then some now else iter.streaming_completed_at;
  completed_at = some now;
}

-- The counters are those of the run as it was read, `run`; the other columns are those of the row.
abbrev counted_run : Run → Usage → Run → Run
counted_run run usage row = record row {
  usage = add_usage run.usage usage;
  iteration_count = suc run.iteration_count;
}

abbrev tools_run : Run → Usage → Run → Run
tools_run run usage row = record (counted_run run usage row) {
  state = RunState.pending_tools;
  tool_iterations = suc run.tool_iterations;
}

abbrev completed_run : Run → Answer → ℕ → Run → Run
completed_run run answer now row = record (counted_run run answer.usage row) {
  state = RunState.completed;
  response_text = some (response_text answer.content);
  stop_reason = some answer.stop_reason;
  finalized_at = some now;
}

module _ (fails : Faults) (breaks : AnswerCall → Bool) where
  abbrev to_tools : Run → Answer → List CreateToolExecutionParams → Work → Work × Bool
  to_tools run answer params work =
      let moved = record work { run = tools_run run answer.usage work.run } in
      if ltb 0 (length params)
      then (if breaks create_tool_executions
          then (work, false)
          else (record moved { created = work.created ++ params }, true))
      else (if breaks update_run_state then (work, false) else (moved, true))

  abbrev to_completed : Run → Answer → ℕ → Work → Work × Bool
  to_completed run answer now work =
      if breaks update_run_state
      then (work, false)
      else (record work { run = completed_run run answer now work.run }, true)

  -- From the creation of the message on, which both workers have in common. The second part says
  -- whether the call returned without an error.
  unfoldable pub save_answer :
      Bool
      → Run
      → Iteration
      → Answer
      → ℕ
      → List ContentBlock
      → List CreateToolExecutionParams
      → Work
      → Work × Bool
  save_answer streamed run iter answer now blocks params work =
      let message = work.db.next_id in
      let (db, made) = insert_message fails work.db (message_params run iter answer.usage blocks) in
      let stored = record work { db = db } in
      let noted = record stored {
        iteration = updated_iteration streamed answer message now work.iteration;
      } in
      if not made
      then (stored, false)
      else (if breaks update_iteration
          then (stored, false)
          else (if has_tool_use answer.content
              then to_tools run answer params noted
              else to_completed run answer now noted))

  module _ (agent_named : Bytes → Option ℕ) (max_attempts : ℕ) where
    -- `processResult` of streaming_worker.go, up to the compaction.
    unfoldable pub process_streaming :
        (Bytes → Option Bytes) → Run → Iteration → Answer → ℕ → Work → Work × Bool
    process_streaming marshal run iter answer now work =
        save_answer true run iter answer now (stream_blocks marshal answer.content)
          (build_tool_params agent_named (λ input. or_empty (marshal input)) max_attempts iter run
            answer.content)
          work

    -- `processResult` of batch_poller.go, up to the compaction: `read` is what `GetRun` gives, `none`
    -- where it fails. Its nil for a missing run is read in the next line, which panics: the inner
    -- `none` of the argument, and `none` of the result.
    unfoldable pub process_batch :
        Option (Option Run) → Iteration → Option Answer → ℕ → Work → Option (Work × Bool)
    process_batch read iter none now work = some (work, false)
    process_batch none iter (some answer) now work = some (work, false)
    process_batch (some none) iter (some answer) now work = none
    process_batch (some (some run)) iter (some answer) now work = some (
        save_answer false run iter answer now (batch_blocks answer.content)
          (build_tool_params agent_named (λ input. input) max_attempts iter run answer.content)
          work)
