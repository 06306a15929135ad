-- ===== src/Worker/Runs/Batch.antt =====
-- processRun of run_worker.go: the submission of a run's request as a batch.
use agentpg.Base.{ℕ, ◌+◌, false, codes, Option, some}
use agentpg.Anthropic.{Sdk}
use agentpg.Driver.{Bytes}
use agentpg.Store.Messages.{Faults}
use agentpg.Store.Runs.{Run, RunState, Iteration, BatchStatus}
use agentpg.Store.World.{set_iteration, write_run}
use agentpg.Worker.Request.{AgentDefinition, Tool, ApiRequest, build_request}
use agentpg.Worker.Runs.{
  RunCall, update_iteration, update_run, Tried, Step, ◌>>=◌, write, lift, create_prompt,
  create_iteration_of, messages_for,
}

-- Seconds: the API gives a batch a day.
abbrev pub batch_lifetime : ℕ
batch_lifetime = 86400

unfoldable pub submitted : ℕ → Bytes → Bytes → Iteration → Iteration
submitted now batch_id request_id iter = record iter {
  batch_id = some batch_id;
  batch_request_id = some request_id;
  batch_status = some BatchStatus.in_progress;
  batch_submitted_at = some now;
  batch_expires_at = some (now + batch_lifetime);
  started_at = some now;
}

unfoldable pub waits_for_batch : ℕ → Iteration → Run → Run
waits_for_batch now iter run = record run {
  state = RunState.batch_pending;
  current_iteration = iter.iteration_number;
  current_iteration_id = some iter.id;
  started_at = some now;
}

-- `agent_of` is `GetAgentByID`, `submit` is `Batches.New`, which takes the custom identifier and the
-- request and gives the identifier of the batch, and `uuid_text` is `UUID.String`.
module _ (breaks : ℕ → RunCall → Option Bytes) (fails : Faults) (message_error : Bytes) (sdk : Sdk)
    (get_tool : Bytes → Option Tool) (agent_of : ℕ → Tried AgentDefinition)
    (get_agent : ℕ → Option AgentDefinition) (uuid_text : ℕ → Bytes)
    (submit : Bytes → ApiRequest sdk.Json → Tried Bytes) where
  unfoldable pub process_run : Run → Step (Unit {0})
  process_run run = do
    agent ← lift (codes "agent not found: ") (agent_of run.agent_id)
    prompted ← create_prompt breaks fails message_error run
    iter ← create_iteration_of breaks fails message_error run false
    messages ← messages_for breaks fails message_error sdk run
    batch_id ←
        lift (codes "failed to submit batch: ")
          (submit (uuid_text iter.id) (build_request get_tool get_agent agent messages))
    noted ← write (breaks run.id update_iteration) (codes "failed to update iteration: ") (λ world.
        record world {
          iterations =
              set_iteration iter.id (submitted world.db.now batch_id (uuid_text iter.id))
                world.iterations;
        })
    write (breaks run.id update_run) (codes "failed to update run state: ")
        (λ world. write_run run.id (waits_for_batch world.db.now iter) world)
