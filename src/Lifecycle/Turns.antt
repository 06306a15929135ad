-- ===== src/Lifecycle/Turns.antt =====
-- The turns of all instances, one after the other: passes of the workers, ends of tools and clean-ups. A
-- worker writes its run by the identifier alone, whatever became of it; so a pass is one turn here. The polls
-- of batches, which write so as well, and the rescues, which lead back, are left out.
use agentpg.Base.{ℕ, ◌≡◌, inl, inr, ◌⊎◌, Bool, Bool-cases, false, List, Option, none, some}
use agentpg.Anthropic.{Sdk}
use agentpg.Driver.{Bytes, ContentBlock}
use agentpg.Store.Messages.{Faults}
use agentpg.Store.Runs.{Run, RunMode, run_is_terminal}
use agentpg.Store.World.{World, find_run, complete_tools_and_continue_run}
use agentpg.Store.Instances.{orphan_all}
use agentpg.Worker.Answer.{Answer}
use agentpg.Worker.Answer.Process.{AnswerCall}
use agentpg.Worker.Request.{AgentDefinition, Tool, ApiRequest}
use agentpg.Worker.Runs.{RunCall, fail_run, Tried, process_runs}
use agentpg.Worker.Runs.Settled.Batches.{IsSubmitted, processing, process_run-Processed}
use agentpg.Worker.Runs.Settled.Streams.{IsAnswered, streaming, stream_run-Processed}
use agentpg.Lifecycle.{Life, Life-ends}
use agentpg.Lifecycle.Moves.{Moves, Moves-refl, Moves-trans}
use agentpg.Lifecycle.Changes.{orphan_all-Moves, submitted-Life, answered-Life, complete-Moves}
use agentpg.Lifecycle.Passes.{HasKeys, process_runs-Moves}

module _ (breaks : ℕ → RunCall → Option Bytes) (fails : Faults) (message_error : Bytes) (sdk : Sdk)
    (get_tool : Bytes → Option Tool) (agent_of : ℕ → Tried AgentDefinition)
    (get_agent : ℕ → Option AgentDefinition) (uuid_text : ℕ → Bytes)
    (submit : Bytes → ApiRequest sdk.Json → Tried Bytes)
    (stream : ApiRequest sdk.Json → Tried Answer) (answer_breaks : AnswerCall → Bool)
    (agent_named : Bytes → Option ℕ) (max_attempts : ℕ) (marshal : Bytes → Option Bytes)
    (result_error error_type : Bytes) where
  -- `processRuns` of run_worker.go, and of streaming_worker.go: the claim and the loop over what it gives.
  abbrev pub batch_pass : ℕ → ℕ → (Run → Bool) → World → World
  batch_pass instance_id max capable world =
      process_runs breaks error_type
        (processing breaks fails message_error sdk get_tool agent_of get_agent uuid_text submit)
        instance_id max RunMode.batch capable world

  abbrev pub stream_pass : ℕ → ℕ → (Run → Bool) → World → World
  stream_pass instance_id max capable world =
      process_runs breaks error_type
        (streaming breaks fails message_error sdk get_tool agent_of get_agent stream answer_breaks
          agent_named max_attempts marshal result_error)
        instance_id max RunMode.streaming capable world

  pub data Turn : World → World → Type 0 where
    submits :
        (instance_id max : ℕ) (capable : Run → Bool) (world : World)
        → HasKeys world.runs
        → Turn world (batch_pass instance_id max capable world)
    streams :
        (instance_id max : ℕ) (capable : Run → Bool) (world : World)
        → HasKeys world.runs
        → Turn world (stream_pass instance_id max capable world)
    continues :
        (failing : Bool) (session id : ℕ) (blocks : List ContentBlock) (world : World)
        → Turn world (complete_tools_and_continue_run failing session id blocks world).0
    cleans :
        (text_of : ℕ → Bytes) (ids : List ℕ) (world : World)
        → Turn world (orphan_all text_of ids world)

  pub data Turns (start : World) : World → Type 0 where
    none_yet : Turns start start
    then_ :
        (world : World) {after : World} → Turns start world → Turn world after → Turns start after

  module _ (marks : (id : ℕ) → breaks id fail_run ≡ none) where
    turn-Moves : {world after : World} → Turn world after → Moves world after
    turn-Moves (submits instance_id max capable world keys) =
        process_runs-Moves breaks error_type
          (processing breaks fails message_error sdk get_tool agent_of get_agent uuid_text submit)
          IsSubmitted
          (process_run-Processed breaks fails message_error sdk get_tool agent_of get_agent
            uuid_text submit)
          marks RunMode.batch submitted-Life instance_id max capable world keys
    turn-Moves (streams instance_id max capable world keys) =
        process_runs-Moves breaks error_type
          (streaming breaks fails message_error sdk get_tool agent_of get_agent stream answer_breaks
            agent_named max_attempts marshal result_error)
          IsAnswered
          (stream_run-Processed breaks fails message_error sdk get_tool agent_of get_agent stream
            answer_breaks agent_named max_attempts marshal result_error)
          marks RunMode.streaming answered-Life instance_id max capable world keys
    turn-Moves (continues failing session id blocks world) =
        complete-Moves failing session id blocks world
    turn-Moves (cleans text_of ids world) = orphan_all-Moves text_of ids world

    Turns-Moves : {start after : World} → Turns start after → Moves start after
    Turns-Moves {start} none_yet = Moves-refl start
    Turns-Moves {start} {after} (then_ world turns turn) =
        Moves-trans start world after (Turns-Moves turns) (turn-Moves turn)

    -- The turns are the passes of the workers of all instances, each with its claim and the processing of
    -- the runs that it claims, for a batch or for a stream; the ends of an iteration's tools; and the
    -- clean-ups after instances. However these follow one another, none of them amid another: every
    -- run that was in the table is still there, its state has moved along a path of the life that is
    -- drawn for runs, and a final state has stayed. Identifiers are keys; the writes of failures
    -- succeed, any other call may fail. The polls of batches and the rescues are no such turns, and
    -- neither is a worker's write that comes amid another's turn.
    pub Turns-refine :
        {start after : World} (k : ℕ) (row : Run)
        → Turns start after
        → find_run k start.runs ≡ some row
        → (later : Run) × (find_run k after.runs ≡ some later)
          × Life row.state later.state
          × ((run_is_terminal row.state ≡ false) ⊎ (later.state ≡ row.state))
    Turns-refine k row turns found =
        let (later, found', life) = Turns-Moves turns k row found in
        (
          later,
          found',
          life,
          elim (Bool-cases (run_is_terminal row.state)) [
            | inl ended ↦ inr (Life-ends life ended)
            | inr open_ ↦ inl open_
          ],
        )
