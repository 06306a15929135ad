-- ===== src/Worker/Runs.antt =====
-- The claim of waiting runs and the loop over them, processRuns of run_worker.go and of
-- streaming_worker.go, whose bodies differ in the mode and in the text of the error's type; failRun;
-- and what both processRun have in common. A call that fails gives the text of its error. The claim is
-- the SQL function agentpg_claim_runs of storage/migrations/001_agentpg_migration.up.sql.
pub mod Batch
pub mod Streaming
pub mod Settled
pub mod Exclusive
use agentpg.Base.{
  ℕ, suc, ◌+◌, Bool, true, false, ◌&&◌, List, [], ◌∷◌, ◌++◌, map, keep, take, codes, Option, none,
  some, ltb, ◌==◌, if◌then◌else◌,
}
use agentpg.Anthropic.{Sdk, ApiMessage}
use agentpg.Driver.{Bytes, MessageRole, text}
use agentpg.Store.Messages.{Db, Faults, CreateMessageParams, insert_message}
use agentpg.Store.Runs.{Run, RunState, RunMode, Iteration}
use agentpg.Store.Tools.{is_null}
use agentpg.Store.World.{World, find_run, set_iteration, write_run, no_usage}
use agentpg.Store.Context.{get_messages_for_run_context}
use agentpg.Worker.Answer.{empty_block}
use agentpg.Worker.Messages.{build_messages}
use agentpg.Worker.Request.{AgentDefinition}

pub data Tried {ℓ} (A : Type ℓ) : Type ℓ where
  ok : A → Tried A
  err : Bytes → Tried A

-- Go code on the tables that returns a value or an error.
abbrev pub Step {ℓ} : Type ℓ → Type ℓ
Step A = World → World × Tried A

abbrev pub and_then {ℓ κ} :
    {A : Type ℓ} {B : Type κ} → World × Tried A → (A → Step B) → World × Tried B
and_then (world, ok a) k = k a world
and_then (world, err message) k = (world, err message)

infixl 10 ◌>>=◌
abbrev pub ◌>>=◌ {ℓ κ} : {A : Type ℓ} {B : Type κ} → Step A → (A → Step B) → Step B
step >>= k = λ world. and_then (step world) k

-- A call that writes, with the text that its error is wrapped in.
abbrev pub write : Option Bytes → Bytes → (World → World) → Step (Unit {0})
write none wrap f world = (f world, ok tt)
write (some message) wrap f world = (world, err (wrap ++ message))

abbrev pub lift {ℓ} : {A : Type ℓ} → Bytes → Tried A → Step A
lift wrap (ok a) world = (world, ok a)
lift wrap (err message) world = (world, err (wrap ++ message))

-- The calls of a run's processing.
pub data RunCall : Type 0 where
  create_iteration update_iteration update_run get_messages fail_run claim_runs : RunCall

abbrev pub is_pending_run : RunState → Bool
is_pending_run RunState.pending = true
is_pending_run RunState.batch_submitting = false
is_pending_run RunState.batch_pending = false
is_pending_run RunState.batch_processing = false
is_pending_run RunState.streaming = false
is_pending_run RunState.pending_tools = false
is_pending_run RunState.awaiting_input = false
is_pending_run RunState.completed = false
is_pending_run RunState.cancelled = false
is_pending_run RunState.failed = false

abbrev pub same_mode : RunMode → RunMode → Bool
same_mode RunMode.batch RunMode.batch = true
same_mode RunMode.streaming RunMode.streaming = true
same_mode RunMode.batch RunMode.streaming = false
same_mode RunMode.streaming RunMode.batch = false

abbrev pub claimed_state : RunMode → RunState
claimed_state RunMode.batch = RunState.batch_submitting
claimed_state RunMode.streaming = RunState.streaming

abbrev or_now : ℕ → Option ℕ → ℕ
or_now now none = now
or_now now (some time) = time

unfoldable pub claimed_run : ℕ → ℕ → Run → Run
claimed_run now instance_id run = record run {
  claimed_by_instance_id = some instance_id;
  claimed_at = some now;
  state = claimed_state run.run_mode;
  previous_state = some RunState.pending;
  started_at = some (or_now now run.started_at);
}

-- `capable` says whether the instance has all tools of the run's agent.
unfoldable pub is_claimable_run : RunMode → (Run → Bool) → Run → Bool
is_claimable_run mode capable run =
    is_pending_run run.state
    && (is_null run.claimed_by_instance_id && (same_mode run.run_mode mode && capable run))

unfoldable pub claim_all : ℕ → List Run → World → World
claim_all instance_id [] world = world
claim_all instance_id (run ∷ runs) world =
    claim_all instance_id runs (write_run run.id (claimed_run world.db.now instance_id) world)

-- `ClaimRuns`: the tables, and the rows as they are claimed.
unfoldable pub claim_runs_of : ℕ → ℕ → RunMode → (Run → Bool) → World → World × List Run
claim_runs_of instance_id max mode capable world =
    let runs = take max (keep (is_claimable_run mode capable) world.runs) in
    (claim_all instance_id runs world, map (claimed_run world.db.now instance_id) runs)

unfoldable pub failed_run : ℕ → Bytes → Bytes → Run → Run
failed_run now error_type message run = record run {
  state = RunState.failed;
  error_type = some error_type;
  error_message = some message;
  finalized_at = some now;
}

module _ (breaks : ℕ → RunCall → Option Bytes) (error_type : Bytes) where
  -- `failRun`, whose own error is only logged.
  unfoldable pub fail : ℕ → Bytes → World → World
  fail id message world =
      (write (breaks id fail_run) [] (write_run id (failed_run world.db.now error_type message))
        world).0

  abbrev pub settle : ℕ → World × Tried (Unit {0}) → World
  settle id (world, ok done) = world
  settle id (world, err message) = fail id message world

  module _ (process : Run → Step (Unit {0})) where
    unfoldable pub process_each : List Run → World → World
    process_each [] world = world
    process_each (run ∷ runs) world = process_each runs (settle run.id (process run world))

    abbrev after_claim : Option Bytes → World × List Run → World → World
    after_claim (some message) claimed world = world
    after_claim none (claimed, runs) world = process_each runs claimed

    unfoldable pub process_runs : ℕ → ℕ → RunMode → (Run → Bool) → World → World
    process_runs instance_id max mode capable world =
        after_claim (breaks instance_id claim_runs)
          (claim_runs_of instance_id max mode capable world) world

abbrev pub trigger_type : ℕ → Bytes
trigger_type iterations = if ltb 0 iterations then codes "tool_results" else codes "user_prompt"

abbrev pub new_iteration : ℕ → Run → Bool → Iteration
new_iteration id run is_streaming = record {
  id = id;
  run_id = run.id;
  iteration_number = run.current_iteration + 1;
  is_streaming = is_streaming;
  batch_id = none;
  batch_request_id = none;
  batch_status = none;
  batch_submitted_at = none;
  batch_completed_at = none;
  batch_expires_at = none;
  batch_poll_count = 0;
  batch_last_poll_at = none;
  streaming_started_at = none;
  streaming_completed_at = none;
  trigger_type = trigger_type run.current_iteration;
  stop_reason = none;
  response_message_id = none;
  has_tool_use = false;
  tool_execution_count = 0;
  usage = no_usage;
  started_at = none;
  completed_at = none;
}

module _ (breaks : ℕ → RunCall → Option Bytes) (fails : Faults) (message_error : Bytes) where
  abbrev pub prompt_params : Run → Bytes → CreateMessageParams
  prompt_params run prompt = record {
    session_id = run.session_id;
    run_id = some run.id;
    role = MessageRole.user;
    content = record (empty_block text) { text = prompt } ∷ [];
    usage = no_usage;
    is_preserved = false;
    is_summary = false;
    metadata = [];
  }

  abbrev pub with_db : World → Db × Bool → World × Tried (Unit {0})
  with_db world (db, true) = (record world { db = db }, ok tt)
  with_db world (db, false) =
      (record world { db = db }, err (codes "failed to create user message: " ++ message_error))

  abbrev pub prompt_of : Run → Bytes → Step (Unit {0})
  prompt_of run [] world = (world, ok tt)
  prompt_of run (b ∷ bs) world =
      if run.current_iteration == 0
      then with_db world (insert_message fails world.db (prompt_params run (b ∷ bs)))
      else (world, ok tt)

  -- The user's message of the first iteration.
  unfoldable pub create_prompt : Run → Step (Unit {0})
  create_prompt run world = prompt_of run run.prompt world

  abbrev pub insert_iteration : Option Bytes → Run → Bool → Step Iteration
  insert_iteration (some message) run is_streaming world =
      (world, err (codes "failed to create iteration: " ++ message))
  insert_iteration none run is_streaming world =
      let row = new_iteration world.db.next_id run is_streaming in
      (
        record world {
          iterations = world.iterations ++ row ∷ [];
          db = record world.db { next_id = suc world.db.next_id; now = suc world.db.now };
        },
        ok row,
      )

  unfoldable pub create_iteration_of : Run → Bool → Step Iteration
  create_iteration_of run is_streaming world =
      insert_iteration (breaks run.id create_iteration) run is_streaming world

  abbrev pub messages_or_error {ℓ} :
      {A : Type ℓ} → Option Bytes → Option A → World → World × Tried A
  messages_or_error (some message) built world =
      (world, err (codes "failed to build messages: failed to get messages: " ++ message))
  messages_or_error none none world =
      (world, err (codes "failed to build messages: failed to get messages: failed to get run"))
  messages_or_error none (some messages) world = (world, ok messages)

  unfoldable pub messages_for : (sdk : Sdk) → Run → Step (List (ApiMessage sdk.Json))
  messages_for sdk run world =
      messages_or_error (breaks run.id get_messages)
        (build_messages sdk (get_messages_for_run_context false run.id world)) world
