-- ===== src/Worker/Runs/Settled/Batches.antt =====
-- The runs that run_worker.go claims.
use agentpg.Base.{ℕ, ◌≡◌, refl, Bool, false, List, codes, Option, none}
use agentpg.Anthropic.{Sdk, ApiMessage}
use agentpg.Driver.{Bytes}
use agentpg.Store.Messages.{Faults}
use agentpg.Store.Runs.{Run, RunState, RunMode, Iteration}
use agentpg.Store.World.{World, set_iteration, write_run}
use agentpg.Worker.Request.{AgentDefinition, Tool, ApiRequest, build_request}
use agentpg.Worker.Runs.{
  RunCall, update_iteration, update_run, fail_run, claim_runs, Tried, Step, write, lift,
  create_prompt, create_iteration_of, messages_for,
}
use agentpg.Worker.Runs.Batch.{submitted, waits_for_batch, process_run}
use agentpg.Worker.Runs.Settled.{AllSettled, process_runs-settles}
use agentpg.Worker.Runs.Settled.Touching.{
  Touches, Touches-iterations, Touches-write, state-write, Processed,
}
use agentpg.Worker.Runs.Settled.Steps.{
  Processed-bind, lift-Touches, write-Touches, write-Processed, create_prompt-Touches,
  create_iteration-Touches, messages_for-Touches,
}

abbrev pub IsSubmitted : RunState → Type 0
IsSubmitted state = state ≡ RunState.batch_pending

module _ (breaks : ℕ → RunCall → Option Bytes) (fails : Faults) (message_error : Bytes) (sdk : Sdk)
    (get_tool : Bytes → Option Tool) (agent_of : ℕ → Tried AgentDefinition)
    (get_agent : ℕ → Option AgentDefinition) (uuid_text : ℕ → Bytes)
    (submit : Bytes → ApiRequest sdk.Json → Tried Bytes) where
  abbrev pub processing : Run → Step (Unit {0})
  processing =
      process_run breaks fails message_error sdk get_tool agent_of get_agent uuid_text submit

  abbrev agent_step : Run → Step AgentDefinition
  agent_step run = lift (codes "agent not found: ") (agent_of run.agent_id)

  abbrev submit_step : AgentDefinition → Iteration → List (ApiMessage sdk.Json) → Step Bytes
  submit_step agent iter messages =
      lift (codes "failed to submit batch: ")
        (submit (uuid_text iter.id) (build_request get_tool get_agent agent messages))

  abbrev note_step : Run → Iteration → Bytes → Step (Unit {0})
  note_step run iter batch_id =
      write (breaks run.id update_iteration) (codes "failed to update iteration: ") (λ world.
        record world {
          iterations =
              set_iteration iter.id (submitted world.db.now batch_id (uuid_text iter.id))
                world.iterations;
        })

  note-Touches :
      (run : Run) (iter : Iteration) (batch_id : Bytes) (world : World)
      → Touches run.id world (note_step run iter batch_id world).0
  note-Touches run iter batch_id =
      write-Touches run.id (breaks run.id update_iteration) (codes "failed to update iteration: ") _
        (λ world.
          Touches-iterations run.id
            (set_iteration iter.id (submitted world.db.now batch_id (uuid_text iter.id))
              world.iterations)
            world)

  last-Processed :
      (run : Run) (iter : Iteration) (world : World)
      → Processed IsSubmitted run.id world (
          write
            (breaks run.id update_run)
            (codes "failed to update run state: ")
            (λ w. write_run run.id (waits_for_batch w.db.now iter) w)
            world)
  unfolding waits_for_batch
  last-Processed run iter =
      write-Processed IsSubmitted run.id (breaks run.id update_run)
        (codes "failed to update run state: ")
        (λ w. write_run run.id (waits_for_batch w.db.now iter) w)
        (λ w. (
          Touches-write run.id (waits_for_batch w.db.now iter) w (λ row. refl),
          state-write IsSubmitted run.id (waits_for_batch w.db.now iter) w (λ row. refl)
              (λ row. refl),
        ))

  pub process_run-Processed :
      (run : Run) (world : World) → Processed IsSubmitted run.id world (processing run world)
  unfolding process_run
  process_run-Processed run =
      let Q = IsSubmitted in
      let created = create_iteration_of breaks fails message_error run false in
      Processed-bind Q run.id (agent_step run) _
        (lift-Touches run.id (codes "agent not found: ") (agent_of run.agent_id))
        (λ agent.
          Processed-bind Q run.id (create_prompt breaks fails message_error run) _
            (create_prompt-Touches breaks fails message_error run)
            (λ prompted.
              Processed-bind Q run.id created _
                (create_iteration-Touches breaks fails message_error run false)
                (λ iter.
                  Processed-bind Q run.id (messages_for breaks fails message_error sdk run) _
                    (messages_for-Touches breaks fails message_error run sdk)
                    (λ messages.
                      Processed-bind Q run.id (submit_step agent iter messages) _
                        (lift-Touches run.id (codes "failed to submit batch: ") (
                          submit (uuid_text iter.id)
                            (build_request get_tool get_agent agent messages)))
                        (λ batch_id.
                          Processed-bind Q run.id (note_step run iter batch_id) _
                            (note-Touches run iter batch_id) (λ noted. last-Processed run iter))))))

  -- Every batch run that is claimed is afterwards in the table, waiting for its batch or failed,
  -- whatever else fails: no claimed run is left in a state that nothing takes up. The claim and the
  -- writes of failures succeed.
  pub process_runs-submits :
      (error_type : Bytes) (instance_id max : ℕ) (capable : Run → Bool) (world : World)
      → ((id : ℕ) → breaks id fail_run ≡ none)
      → breaks instance_id claim_runs ≡ none
      → AllSettled IsSubmitted breaks error_type processing instance_id max RunMode.batch capable
          world
  process_runs-submits error_type instance_id max capable world notes claims =
      process_runs-settles breaks error_type processing IsSubmitted process_run-Processed notes
        instance_id max RunMode.batch capable world claims
