-- ===== src/Client/Runs/Synced.antt =====
-- A call that waits for its run returns what the run came to.
use agentpg.Base.{
  inl, inr, ◌⊎◌, ℕ, ◌≡◌, refl, ap, Bool, true, false, List, ◌∷◌, ◌++◌, All, none, some, ◌==◌, arith,
}
use agentpg.Store.Runs.{Run, RunState, RunMode, run_is_terminal}
use agentpg.Store.World.{World, find_run}
use agentpg.Store.World.Rows.{find-append}
use agentpg.Worker.Tools.Agents.{CreateRunParams, new_run, create_run}
use agentpg.Client.Wait.{
  ReadCall, WaitEvent, Answered, Response, run_failed, was_cancelled, responded, returned,
  answer_of, build_response,
}
use agentpg.Worker.Answer.{or_empty}
use agentpg.Client.Wait.Returns.{GoesOn, Tells, tables_at, ticks, wait_for_run-returns}
use agentpg.Client.Runs.{
  RunRequest, waited, run_params, run_async, run_fast, run_sync, run_fast_sync,
}

is_next : (k : ℕ) → (k == k) ≡ true
is_next k = ground arith

-- The run that a call creates is there, and has not ended.
create_run-GoesOn :
    (params : CreateRunParams) (world : World)
    → find_run world.db.next_id world.runs ≡ none
    → GoesOn world.db.next_id (create_run params world)
unfolding create_run new_run run_is_terminal
create_run-GoesOn params world fresh =
    let id = world.db.next_id in
    (new_run id params, find-append id world.runs (new_run id params) fresh (is_next id), refl)

-- What a run that has ended came to, apart from the code that makes it: the error of one that failed, with
-- its type and text, the error of a cancelled one, or the response of a completed one, with its text,
-- its stop reason, its usage and its counts.
abbrev pub CameTo : Run → Answered → Type 0
CameTo run answer =
    ((run.state ≡ RunState.failed)
      × (answer ≡ run_failed (or_empty run.error_type) (or_empty run.error_message)))
    ⊎ ((run.state ≡ RunState.cancelled) × (answer ≡ was_cancelled))
    ⊎ ((run.state ≡ RunState.completed)
        × ((response : Response) × (answer ≡ responded response)
            × (response.text ≡ or_empty run.response_text)
            × (response.stop_reason ≡ or_empty run.stop_reason)
            × (response.usage ≡ run.usage)
            × (response.iteration_count ≡ run.iteration_count)
            × (response.tool_iterations ≡ run.tool_iterations)))

-- The run that a call leaves in the table: at the top, waiting to be claimed in its mode, with what was
-- asked for.
abbrev pub Created : RunMode → RunRequest → ℕ → World → Type 0
Created mode request id world =
    (run : Run) × (find_run id world.runs ≡ some run)
    × (run.state ≡ RunState.pending)
    × (run.run_mode ≡ mode)
    × (run.depth ≡ 0)
    × (run.parent_run_id ≡ none)
    × (run.claimed_by_instance_id ≡ none)
    × (run.session_id ≡ request.session_id)
    × (run.agent_id ≡ request.agent_id)
    × (run.prompt ≡ request.prompt)
    × (run.metadata ≡ request.variables)

module _ (fails : ReadCall → Bool) where
  ended-CameTo :
      (state : RunState) (run : Run) (world : World)
      → run.state ≡ state
      → run_is_terminal state ≡ true
      → CameTo run (answer_of fails state run world)
  unfolding run_is_terminal
  ended-CameTo RunState.failed run world e over = inl (e, refl)
  ended-CameTo RunState.cancelled run world e over = inr (inl (e, refl))
  ended-CameTo RunState.completed run world e over =
      inr (inr (e, (_, refl, refl, refl, refl, refl, refl)))
  ended-CameTo _ run world e over = absurd cc

  response-CameTo :
      (run : Run) (world : World)
      → run_is_terminal run.state ≡ true
      → CameTo run (build_response fails run world)
  unfolding build_response
  response-CameTo run world over = ended-CameTo run.state run world refl over

module _ (fails : ReadCall → Bool) (instance_id : ℕ) where
  -- RunSync and RunFastSync, of a client that is started, where the run can be created under an
  -- identifier that no run has. Each leaves a run at the top that waits, for a batch or for a stream,
  -- with what was asked for. If then the ticks find the run unfinished until an event tells that it
  -- has ended, which is a tick or a notification, both return what that run came to: the error of a
  -- failed or a cancelled run, or the response of a completed one.
  pub run_sync-returns :
      (request : RunRequest) (world : World) (worlds : List World) (event : WaitEvent) (run : Run)
      (rest : List WaitEvent)
      → find_run world.db.next_id world.runs ≡ none
      → All (GoesOn world.db.next_id) worlds
      → Tells fails world.db.next_id run event
      → run_is_terminal run.state ≡ true
      → let id = world.db.next_id in
        let events = ticks worlds ++ event ∷ rest in
        Created RunMode.batch request id (run_async instance_id true false request world).0
        × Created RunMode.streaming request id (run_fast instance_id true false request world).0
        × ((answer : Answered) × CameTo run answer
            × (run_sync fails instance_id true false request none world events
                ≡ waited (returned answer))
            × (run_fast_sync fails instance_id true false request none world events
                ≡ waited (returned answer)))
  unfolding run_sync run_fast_sync run_async run_fast create_run new_run
  run_sync-returns request world worlds event run rest fresh going told over =
      let id = world.db.next_id in
      let batch = run_params none instance_id request in
      let fast = run_params (some RunMode.streaming) instance_id request in
      let there = λ (params : CreateRunParams).
        find-append id world.runs (new_run id params) fresh (is_next id) in
      (
        (new_run id batch, there batch, refl, refl, refl, refl, refl, refl, refl, refl, refl),
        (new_run id fast, there fast, refl, refl, refl, refl, refl, refl, refl, refl, refl),
        (
          build_response fails run (tables_at fails id event world),
          response-CameTo fails run (tables_at fails id event world) over,
          ap waited (
              wait_for_run-returns fails id (create_run batch world) world worlds event run rest
                (create_run-GoesOn batch world fresh) going told over),
          ap waited (
              wait_for_run-returns fails id (create_run fast world) world worlds event run rest
                (create_run-GoesOn fast world fresh) going told over),
        ),
      )
