-- ===== src/Worker/Poll/Ended.antt =====
-- What a poll leaves of the run.
use agentpg.Base.{
  ℕ, ◌≡◌, refl, sym, subst, inl, inr, ◌⊎◌, Bool, true, false, List, codes, Option, none, some,
  bytes_eq, Bool-cases, arith,
}
use agentpg.Driver.{Bytes, ContentBlock}
use agentpg.Store.Messages.{Faults}
use agentpg.Store.Runs.{Run, RunState, Iteration, BatchStatus, CreateToolExecutionParams}
use agentpg.Store.World.{World, find_run, set_iteration, write_run}
use agentpg.Worker.Answer.{Answer}
use agentpg.Worker.Answer.Process.{Work, AnswerCall, process_batch, save_answer}
use agentpg.Worker.Answer.Outcomes.{next_state}
use agentpg.Worker.Runs.{Tried, ok, err, failed_run}
use agentpg.Worker.Runs.Streaming.{work_of}
use agentpg.Worker.Runs.Settled.{Settled}
use agentpg.Worker.Runs.Settled.Touching.{
  InState, AnyState, Touches, Touches-refl, Touches-iterations, Touches-write, state-write,
  Processed,
}
use agentpg.Worker.Runs.Settled.Steps.{Processed-from}
use agentpg.Worker.Runs.Settled.Streams.{IsAnswered, next-IsAnswered, put-Touches, put-state}
use agentpg.Worker.Poll.{
  ProcessingStatus, in_progress, canceling, ended, other, ResultLine, PollCall, fail_run, get_run,
  mark_processing, mark_canceling, mark_ended, count_poll, Polled, write_then, put_back,
  process_read, process_message, handle_line, handle_result, batch_error, when_processing,
  on_status, with_status, with_batch, is_batch_pending, or_default, write_iteration, ended_at,
  counted_poll, handle_batch_complete, poll_iteration,
}

-- A poll that does not panic, and leaves the tables as `Processed` says.
abbrev pub Good : (RunState → Type 0) → ℕ → World → Polled → Type 0
Good Q id world polled =
    (result : World × Tried (Unit {0})) × (polled ≡ some result) × Processed Q id world result

-- What a poll that succeeds leaves: an ended batch leaves its run answered or failed.
abbrev pub StateAfter : Tried ProcessingStatus → RunState → Type 0
StateAfter (ok ended) = Settled IsAnswered
StateAfter (ok in_progress) = AnyState
StateAfter (ok canceling) = AnyState
StateAfter (ok (other status)) = AnyState
StateAfter (err message) = AnyState

abbrev done : World → World × Tried (Unit {0})
done world = (world, ok tt)

save_answer-state :
    (fails : Faults) (breaks : AnswerCall → Bool) (run : Run) (iter : Iteration) (answer : Answer)
    (now : ℕ) (blocks : List ContentBlock) (params : List CreateToolExecutionParams) (work : Work)
    → (save_answer fails breaks false run iter answer now blocks params work).1 ≡ true
    → (save_answer fails breaks false run iter answer now blocks params work).0.run.state
      ≡ next_state answer
unfolding save_answer
save_answer-state fails breaks run iter answer now blocks params work h = ground arith

Good-then :
    (Q : RunState → Type 0) (id : ℕ) (world between : World) (polled : Polled)
    → Touches id world between
    → Good Q id between polled
    → Good Q id world polled
Good-then Q id world between polled touched (result, same, processed) =
    (result, same, Processed-from Q id world between result touched processed)

Good-write :
    (Q : RunState → Type 0) (id : ℕ) (broken : Option Bytes) (wrap : Bytes) (world after : World)
    (next : World → Polled)
    → Touches id world after
    → Good Q id after (next after)
    → Good Q id world (write_then broken wrap world after next)
Good-write Q id none wrap world after next touched good =
    Good-then Q id world after (next after) touched good
Good-write Q id (some message) wrap world after next touched good = (_, refl, Touches-refl id world)

module _ (breaks : PollCall → Option Bytes) (fails : Faults) (answer_breaks : AnswerCall → Bool)
    (agent_named : Bytes → Option ℕ) (max_attempts : ℕ) (result_error : Bytes)
    (notes : breaks fail_run ≡ none) (iter : Iteration) where
  abbrev Q : RunState → Type 0
  Q = Settled IsAnswered

  Good-put :
      (answer : Answer) (world : World) (saved : Work × Bool)
      → (saved.1 ≡ true → saved.0.run.state ≡ next_state answer)
      → Good Q iter.run_id world (
          put_back breaks fails answer_breaks agent_named max_attempts result_error iter world
            (some saved))
  Good-put answer world (work, false) h = (_, refl, put-Touches iter.run_id iter.id work world)
  Good-put answer world (work, true) h = (
    _,
    refl,
    (
      put-Touches iter.run_id iter.id work world,
      put-state Q iter.run_id iter.id work world
          (inl (next-IsAnswered answer work.run.state (h refl))),
    ),
  )

  Good-read :
      (broken : Option Bytes) (answer : Answer) (run : Run) (world : World)
      → Good Q iter.run_id world (
          process_read breaks fails answer_breaks agent_named max_attempts result_error broken iter
            answer
            (some run)
            world)
  unfolding process_batch
  Good-read (some message) answer run world = (_, refl, Touches-refl iter.run_id world)
  Good-read none answer run world = Good-put answer world _ (
      save_answer-state fails answer_breaks run iter answer world.db.now _ _
        (work_of run iter world))

  errored-world :
      (message : Bytes) (world : World)
      → Processed Q iter.run_id world (
          done (
            batch_error breaks fails answer_breaks agent_named max_attempts result_error iter.run_id
              message world))
  unfolding failed_run
  errored-world message world = rw notes (
    Touches-write iter.run_id (failed_run world.db.now (codes "batch_error") message) world
        (λ row. refl),
    state-write Q iter.run_id (failed_run world.db.now (codes "batch_error") message) world
        (λ row. refl) (λ row. inr refl),
  )

  Good-error :
      (message : Bytes) (world : World)
      → Good Q iter.run_id world (
          some (
            done (
              batch_error breaks fails answer_breaks agent_named max_attempts result_error
                iter.run_id message world)))
  Good-error message world = (_, refl, errored-world message world)

  Good-line :
      (line : ResultLine) (world : World)
      → InState AnyState world iter.run_id
      → Good Q iter.run_id world (
          handle_line breaks fails answer_breaks agent_named max_attempts result_error iter line
            world)
  Good-line line world (row, found, any) =
      elim (Bool-cases (bytes_eq line.type (codes "errored"))) [
        | inl errored ↦ rw errored (Good-error (or_default line.error) world)
        | inr plain ↦ rw plain (Good-message line.message)
      ]
    where
      Good-message :
          (message : Option Answer)
          → Good Q iter.run_id world (
              process_message breaks fails answer_breaks agent_named max_attempts result_error iter
                message world)
      Good-message none = (_, refl, Touches-refl iter.run_id world)
      Good-message (some answer) = rw found (Good-read (breaks get_run) answer row world)

  Good-result :
      (fetched : Tried (Option ResultLine)) (world : World)
      → InState AnyState world iter.run_id
      → Good Q iter.run_id world (
          handle_result breaks fails answer_breaks agent_named max_attempts result_error iter
            fetched world)
  Good-result (err message) world h = (_, refl, (errored-world message world).0)
  Good-result (ok none) world h = (_, refl, Touches-refl iter.run_id world)
  Good-result (ok (some line)) world h = Good-line line world h

  Good-ended :
      (fetched : Tried (Option ResultLine)) (world : World)
      → InState AnyState world iter.run_id
      → Good Q iter.run_id world (
          handle_batch_complete breaks fails answer_breaks agent_named max_attempts result_error
            iter fetched world)
  unfolding handle_batch_complete
  Good-ended fetched world h =
      Good-write Q iter.run_id (breaks mark_ended)
        (codes "failed to update iteration batch status: ") world
        (write_iteration iter.id (ended_at world.db.now) world)
        (handle_result breaks fails answer_breaks agent_named max_attempts result_error iter
          fetched)
        (Touches-iterations iter.run_id
          (set_iteration iter.id (ended_at world.db.now) world.iterations) world)
        (Good-result fetched (write_iteration iter.id (ended_at world.db.now) world) h)

  Good-return : (world : World) → Good AnyState iter.run_id world (some (done world))
  Good-return world = (_, refl, (Touches-refl iter.run_id world, λ h. h))

  Good-processing :
      (broken : Option Bytes) (world : World)
      → InState AnyState world iter.run_id
      → Good AnyState iter.run_id world (
          when_processing breaks fails answer_breaks agent_named max_attempts result_error iter
            broken
            (find_run iter.run_id world.runs)
            world)
  Good-processing (some message) world h = (_, refl, Touches-refl iter.run_id world)
  Good-processing none world (row, found, any) =
      rw found (starts (Bool-cases (is_batch_pending row.state)))
    where
      begun : World
      begun = write_run iter.run_id (λ r. record r { state = RunState.batch_processing }) world

      starts :
          (is_batch_pending row.state ≡ true) ⊎ (is_batch_pending row.state ≡ false)
          → Good AnyState iter.run_id world (
              when_processing breaks fails answer_breaks agent_named max_attempts result_error iter
                none
                (some row)
                world)
      starts (inl waits) = rw waits (
          Good-write AnyState iter.run_id (breaks mark_processing)
            (codes "failed to update run state: ") world begun (λ w. some (done w))
            (Touches-write iter.run_id (λ r. record r { state = RunState.batch_processing }) world
              (λ r. refl))
            (Good-return begun))
      starts (inr over) = rw over (Good-return world)

  Good-status :
      (status : ProcessingStatus) (fetched : Tried (Option ResultLine)) (world : World)
      → InState AnyState world iter.run_id
      → Good (StateAfter (ok status)) iter.run_id world (
          on_status breaks fails answer_breaks agent_named max_attempts result_error iter status
            fetched world)
  Good-status in_progress fetched world h = Good-processing (breaks get_run) world h
  Good-status ended fetched world h = Good-ended fetched world h
  Good-status canceling fetched world h =
      Good-write AnyState iter.run_id (breaks mark_canceling)
        (codes "failed to update batch status: ") world
        (write_iteration iter.id (λ row. record row { batch_status = some BatchStatus.canceling })
          world)
        (λ w. some (done w))
        (Touches-iterations iter.run_id
          (set_iteration iter.id (λ row. record row { batch_status = some BatchStatus.canceling })
            world.iterations)
          world)
        (Good-return (
          write_iteration iter.id (λ row. record row { batch_status = some BatchStatus.canceling })
            world))
  Good-status (other status) fetched world h = Good-return world

  Good-with_status :
      (status : Tried ProcessingStatus) (fetched : Tried (Option ResultLine)) (world : World)
      → InState AnyState world iter.run_id
      → Good (StateAfter status) iter.run_id world (
          with_status breaks fails answer_breaks agent_named max_attempts result_error iter status
            fetched world)
  Good-with_status (err message) fetched world h = (_, refl, Touches-refl iter.run_id world)
  Good-with_status (ok status) fetched world h =
      Good-write (StateAfter (ok status)) iter.run_id (breaks count_poll)
        (codes "failed to update poll count: ") world
        (write_iteration iter.id (counted_poll iter world.db.now) world)
        (on_status breaks fails answer_breaks agent_named max_attempts result_error iter status
          fetched)
        (Touches-iterations iter.run_id
          (set_iteration iter.id (counted_poll iter world.db.now) world.iterations) world)
        (Good-status status fetched (write_iteration iter.id (counted_poll iter world.db.now) world)
          h)

  -- A poll of an iteration whose run is in the table does not panic, whatever the API answers and
  -- whichever calls fail, and touches no other run. Where it returns without an error and the batch
  -- has ended, the run is completed, waits for its tools, or has failed, whatever state it was in
  -- before. The write of a failure succeeds.
  pub poll_iteration-Good :
      (get_batch : Bytes → Tried ProcessingStatus) (fetch : Bytes → Tried (Option ResultLine))
      (batch_id : Bytes) (world : World)
      → iter.batch_id ≡ some batch_id
      → InState AnyState world iter.run_id
      → Good (StateAfter (get_batch batch_id)) iter.run_id world (
          poll_iteration breaks fails answer_breaks agent_named max_attempts result_error get_batch
            fetch iter world)
  unfolding poll_iteration
  poll_iteration-Good get_batch fetch batch_id world named h =
      subst
        (λ named_id. Good (StateAfter (get_batch batch_id)) iter.run_id world (
          with_batch breaks fails answer_breaks agent_named max_attempts result_error iter named_id
            get_batch fetch world))
        (sym named) (Good-with_status (get_batch batch_id) (fetch batch_id) world h)
