-- ===== src/Worker/Runs/Settled/Streams.antt =====
-- The runs that streaming_worker.go claims.
use agentpg.Base.{
  ℕ, ◌≡◌, refl, ◌∙◌, inl, inr, ◌⊎◌, Bool, true, false, codes, Option, none, Bool-cases,
}
use agentpg.Anthropic.{Sdk}
use agentpg.Driver.{Bytes}
use agentpg.Store.Messages.{Faults}
use agentpg.Store.Runs.{Run, RunState, RunMode, Iteration}
use agentpg.Store.World.{World, set_iteration, write_run}
use agentpg.Worker.Answer.{Answer, has_tool_use}
use agentpg.Worker.Answer.Process.{Work, AnswerCall, process_streaming}
use agentpg.Worker.Answer.Outcomes.{next_state, process_streaming-moves}
use agentpg.Worker.Request.{AgentDefinition, Tool, ApiRequest, build_request}
use agentpg.Worker.Runs.{
  RunCall, update_iteration, update_run, fail_run, claim_runs, Tried, Step, ◌>>=◌, write, lift,
  create_prompt, create_iteration_of, messages_for,
}
use agentpg.Worker.Runs.Streaming.{
  started, streams_with, work_of, put_work, process_result, stream_run,
}
use agentpg.Worker.Runs.Settled.{AllSettled, process_runs-settles}
use agentpg.Worker.Runs.Settled.Touching.{
  InState, AnyState, Touches, Touches-iterations, Touches-update, state-update, Touches-write,
  Processed,
}
use agentpg.Worker.Runs.Settled.Steps.{
  Processed-bind, lift-Touches, write-Touches, create_prompt-Touches, create_iteration-Touches,
  messages_for-Touches,
}

-- After an answer: the run is completed, or waits for its tools.
abbrev pub IsAnswered : RunState → Type 0
IsAnswered state = (state ≡ RunState.completed) ⊎ (state ≡ RunState.pending_tools)

pub next-IsAnswered :
    (answer : Answer) (state : RunState) → state ≡ next_state answer → IsAnswered state
next-IsAnswered answer state e = elim (Bool-cases (has_tool_use answer.content)) [
  | inl uses ↦ inr (e ∙ by_tools uses)
  | inr plain ↦ inl (e ∙ by_text plain)
]
  where
    by_tools : has_tool_use answer.content ≡ true → next_state answer ≡ RunState.pending_tools
    by_tools uses = rw uses refl

    by_text : has_tool_use answer.content ≡ false → next_state answer ≡ RunState.completed
    by_text plain = rw plain refl

pub put-Touches :
    (id iteration : ℕ) (work : Work) (world : World)
    → Touches id world (put_work id iteration work world)
unfolding put_work write_run
put-Touches id iteration work world =
    Touches-update id (λ row. record work.run { id = row.id }) world
      (put_work id iteration work world) (λ row. refl) refl

pub put-state :
    (Q : RunState → Type 0) (id iteration : ℕ) (work : Work) (world : World)
    → Q work.run.state
    → InState AnyState world id
    → InState Q (put_work id iteration work world) id
unfolding put_work write_run
put-state Q id iteration work world q =
    state-update Q id (λ row. record work.run { id = row.id }) world
      (put_work id iteration work world) (λ row. refl) (λ row. q) refl

module _ (breaks : ℕ → RunCall → Option Bytes) (fails : Faults) (message_error : Bytes) (sdk : Sdk)
    (get_tool : Bytes → Option Tool) (agent_of : ℕ → Tried AgentDefinition)
    (get_agent : ℕ → Option AgentDefinition) (stream : ApiRequest sdk.Json → Tried Answer)
    (answer_breaks : AnswerCall → Bool) (agent_named : Bytes → Option ℕ) (max_attempts : ℕ)
    (marshal : Bytes → Option Bytes) (result_error : Bytes) where
  abbrev pub streaming : Run → Step (Unit {0})
  streaming =
      stream_run breaks fails message_error sdk get_tool agent_of get_agent stream answer_breaks
        agent_named max_attempts marshal result_error

  abbrev processing : Run → Iteration → Answer → Step (Unit {0})
  processing =
      process_result breaks fails message_error sdk get_tool agent_of get_agent stream answer_breaks
        agent_named max_attempts marshal result_error

  abbrev answered : Run → Iteration → Answer → World → Work × Bool
  answered run iter answer world =
      process_streaming fails answer_breaks agent_named max_attempts marshal run iter answer
        world.db.now (work_of run iter world)

  result-Processed :
      (run : Run) (iter : Iteration) (answer : Answer) (world : World)
      → Processed IsAnswered run.id world (processing run iter answer world)
  unfolding process_result
  result-Processed run iter answer world = elim (Bool-cases (answered run iter answer world).1) [
    | inl done ↦ rw done (
      put-Touches run.id iter.id (answered run iter answer world).0 world,
      put-state IsAnswered run.id iter.id (answered run iter answer world).0 world (
          next-IsAnswered answer _
            (process_streaming-moves fails answer_breaks agent_named max_attempts marshal run iter
              answer world.db.now (work_of run iter world) done).0),
    )
    | inr failed ↦ rw failed (put-Touches run.id iter.id (answered run iter answer world).0 world)
  ]

  abbrev begin_step : Run → Iteration → Step (Unit {0})
  begin_step run iter =
      write (breaks run.id update_iteration) (codes "failed to update iteration start time: ")
        (λ world. record world {
          iterations = set_iteration iter.id (started world.db.now) world.iterations;
        })

  abbrev note_step : Run → Iteration → Step (Unit {0})
  note_step run iter =
      write (breaks run.id update_run) (codes "failed to update run: ")
        (λ world. write_run run.id (streams_with world.db.now iter) world)

  begin-Touches :
      (run : Run) (iter : Iteration) (world : World)
      → Touches run.id world (begin_step run iter world).0
  begin-Touches run iter =
      write-Touches run.id (breaks run.id update_iteration)
        (codes "failed to update iteration start time: ") _
        (λ world.
          Touches-iterations run.id (set_iteration iter.id (started world.db.now) world.iterations)
            world)

  note-Touches :
      (run : Run) (iter : Iteration) (world : World)
      → Touches run.id world (note_step run iter world).0
  unfolding streams_with
  note-Touches run iter =
      write-Touches run.id (breaks run.id update_run) (codes "failed to update run: ")
        (λ world. write_run run.id (streams_with world.db.now iter) world)
        (λ world. Touches-write run.id (streams_with world.db.now iter) world (λ row. refl))

  abbrev answer_steps : Run → AgentDefinition → Iteration → Step (Unit {0})
  answer_steps run agent iter = do
    messages ← messages_for breaks fails message_error sdk run
    answer ←
        lift (codes "streaming error: ") (stream (build_request get_tool get_agent agent messages))
    processing run iter answer

  answer-Processed :
      (run : Run) (agent : AgentDefinition) (iter : Iteration) (world : World)
      → Processed IsAnswered run.id world (answer_steps run agent iter world)
  answer-Processed run agent iter =
      Processed-bind IsAnswered run.id (messages_for breaks fails message_error sdk run) _
        (messages_for-Touches breaks fails message_error run sdk)
        (λ messages.
          Processed-bind IsAnswered run.id
            (lift (codes "streaming error: ")
              (stream (build_request get_tool get_agent agent messages)))
            (λ answer. processing run iter answer)
            (lift-Touches run.id (codes "streaming error: ")
              (stream (build_request get_tool get_agent agent messages)))
            (λ answer. result-Processed run iter answer))

  pub stream_run-Processed :
      (run : Run) (world : World) → Processed IsAnswered run.id world (streaming run world)
  unfolding stream_run
  stream_run-Processed run =
      let Q = IsAnswered in
      let created = create_iteration_of breaks fails message_error run true in
      Processed-bind Q run.id (lift (codes "agent not found: ") (agent_of run.agent_id)) _
        (lift-Touches run.id (codes "agent not found: ") (agent_of run.agent_id))
        (λ agent.
          Processed-bind Q run.id (create_prompt breaks fails message_error run) _
            (create_prompt-Touches breaks fails message_error run)
            (λ prompted.
              Processed-bind Q run.id created _
                (create_iteration-Touches breaks fails message_error run true)
                (λ iter.
                  Processed-bind Q run.id (begin_step run iter) _ (begin-Touches run iter) (λ begun.
                    Processed-bind Q run.id (note_step run iter) _ (note-Touches run iter)
                      (λ noted. answer-Processed run agent iter)))))

  -- Every streaming run that is claimed is afterwards in the table, completed, waiting for its tools,
  -- or failed, whatever else fails: none is left as it was claimed. The claim and the writes of
  -- failures succeed.
  pub process_runs-answers :
      (error_type : Bytes) (instance_id max : ℕ) (capable : Run → Bool) (world : World)
      → ((id : ℕ) → breaks id fail_run ≡ none)
      → breaks instance_id claim_runs ≡ none
      → AllSettled IsAnswered breaks error_type streaming instance_id max RunMode.streaming capable
          world
  process_runs-answers error_type instance_id max capable world notes claims =
      process_runs-settles breaks error_type streaming IsAnswered stream_run-Processed notes
        instance_id max RunMode.streaming capable world claims
