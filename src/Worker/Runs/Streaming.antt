-- ===== src/Worker/Runs/Streaming.antt =====
-- processRun of streaming_worker.go, up to the compaction that may follow: the request is answered at
-- once, and the answer is stored by processResult, which Worker.Answer.Process models for the rows of
-- one run.
use agentpg.Base.{
  ℕ, suc, ◌+◌, Bool, true, false, List, [], ◌∷◌, ◌++◌, codes, Option, none, some, length,
}
use agentpg.Anthropic.{Sdk}
use agentpg.Driver.{Bytes}
use agentpg.Store.Messages.{Faults}
use agentpg.Store.Runs.{Run, Iteration, ToolExecution, CreateToolExecutionParams}
use agentpg.Store.Tools.{new_tool_execution}
use agentpg.Store.World.{World, find_run, set_iteration, write_run}
use agentpg.Worker.Answer.{Answer}
use agentpg.Worker.Answer.Process.{Work, AnswerCall, process_streaming}
use agentpg.Worker.Request.{AgentDefinition, Tool, ApiRequest, build_request}
use agentpg.Worker.Runs.{
  RunCall, update_iteration, update_run, Tried, ok, err, Step, ◌>>=◌, write, lift, create_prompt,
  create_iteration_of, messages_for,
}

abbrev pub started : ℕ → Iteration → Iteration
started now iter = record iter { streaming_started_at = some now; started_at = some now }

unfoldable pub streams_with : ℕ → Iteration → Run → Run
streams_with now iter run = record run {
  current_iteration = iter.iteration_number;
  current_iteration_id = some iter.id;
  started_at = some now;
}

-- The rows of new tool executions, under successive identifiers.
unfoldable pub new_rows : ℕ → ℕ → List CreateToolExecutionParams → List ToolExecution
new_rows id now [] = []
new_rows id now (param ∷ params) = new_tool_execution id now param ∷ new_rows (suc id) now params

abbrev pub row_or : Run → Option Run → Run
row_or run none = run
row_or run (some row) = row

-- The rows of the run, and the tables after them.
abbrev pub work_of : Run → Iteration → World → Work
work_of run iter world = record {
  db = world.db;
  run = row_or run (find_run run.id world.runs);
  iteration = iter;
  created = [];
}

unfoldable pub put_work : ℕ → ℕ → Work → World → World
put_work id iteration work world =
    let written = write_run id (λ row. record work.run { id = row.id }) world in
    record written {
      db = record work.db { next_id = work.db.next_id + length work.created };
      iterations = set_iteration iteration (λ row. work.iteration) world.iterations;
      tools = written.tools ++ new_rows work.db.next_id work.db.now work.created;
    }

module _ (breaks : ℕ → RunCall → Option Bytes) (fails : Faults) (message_error : Bytes) (sdk : Sdk)
    (get_tool : Bytes → Option Tool) (agent_of : ℕ → Tried AgentDefinition)
    (get_agent : ℕ → Option AgentDefinition) (stream : ApiRequest sdk.Json → Tried Answer)
    (answer_breaks : AnswerCall → Bool) (agent_named : Bytes → Option ℕ) (max_attempts : ℕ)
    (marshal : Bytes → Option Bytes) (result_error : Bytes) where
  abbrev result_of : Bool → World → World × Tried (Unit {0})
  result_of true world = (world, ok tt)
  result_of false world = (world, err result_error)

  unfoldable pub process_result : Run → Iteration → Answer → Step (Unit {0})
  process_result run iter answer world =
      let (work, done) =
        process_streaming fails answer_breaks agent_named max_attempts marshal run iter answer
          world.db.now (work_of run iter world) in
      result_of done (put_work run.id iter.id work world)

  unfoldable pub stream_run : Run → Step (Unit {0})
  stream_run run = do
    agent ← lift (codes "agent not found: ") (agent_of run.agent_id)
    prompted ← create_prompt breaks fails message_error run
    iter ← create_iteration_of breaks fails message_error run true
    begun ←
        write (breaks run.id update_iteration) (codes "failed to update iteration start time: ")
          (λ world. record world {
            iterations = set_iteration iter.id (started world.db.now) world.iterations;
          })
    noted ←
        write (breaks run.id update_run) (codes "failed to update run: ")
          (λ world. write_run run.id (streams_with world.db.now iter) world)
    messages ← messages_for breaks fails message_error sdk run
    answer ←
        lift (codes "streaming error: ") (stream (build_request get_tool get_agent agent messages))
    process_result run iter answer
