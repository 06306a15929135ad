-- ===== src/Worker/Poll.antt =====
-- batch_poller.go: the polling of batches and what the end of one leads to. What `Batches.Get` and
-- the request for the results give is an argument: a status, and the lines that the scanner reads
-- with the error that it ends in. processResult is that of Worker.Answer.Process, up to the
-- compaction that may follow.
pub mod Ended
use agentpg.Base.{
  ℕ, suc, ◌+◌, Bool, true, false, ◌&&◌, ◌||◌, List, [], ◌∷◌, ◌++◌, keep, take, codes, Option, none,
  some, ltb, leb, ◌==◌, bytes_eq, if◌then◌else◌,
}
use agentpg.Driver.{Bytes}
use agentpg.Store.Messages.{Faults}
use agentpg.Store.Runs.{Run, RunState, Iteration, BatchStatus}
use agentpg.Store.World.{World, find_run, set_iteration, write_run}
use agentpg.Worker.Answer.{Answer}
use agentpg.Worker.Answer.Process.{Work, AnswerCall, process_batch}
use agentpg.Worker.Runs.{Tried, ok, err, failed_run}
use agentpg.Worker.Runs.Streaming.{work_of, put_work}

-- `MessageBatchProcessingStatus`, a string.
pub data ProcessingStatus : Type 0 where
  in_progress canceling ended : ProcessingStatus
  other : Bytes → ProcessingStatus

-- `batchResultLine`: the message is an answer, with the fields that processResult reads.
pub record ResultLine : Type 0 where
  pub custom_id : Bytes
  pub type : Bytes
  pub message : Option Answer
  pub error : Option Bytes

pub data PollCall : Type 0 where
  count_poll get_run mark_processing mark_canceling mark_ended fail_run : PollCall

-- `fetchBatchResult`: the first line that is the request's. A line that does not decode is skipped.
abbrev or_next : Bytes → Option ResultLine → Tried (Option ResultLine) → Tried (Option ResultLine)
or_next request none rest = rest
or_next request (some line) rest = if bytes_eq line.custom_id request then ok (some line) else rest

abbrev scan_end : Option Bytes → Tried (Option ResultLine)
scan_end none = ok none
scan_end (some message) = err (codes "failed to read results: " ++ message)

unfoldable pub find_line :
    (Bytes → Option ResultLine) → Bytes → List Bytes → Option Bytes → Tried (Option ResultLine)
find_line unmarshal request [] scan_error = scan_end scan_error
find_line unmarshal request ([] ∷ lines) scan_error = find_line unmarshal request lines scan_error
find_line unmarshal request ((b ∷ bs) ∷ lines) scan_error =
    or_next request (unmarshal (b ∷ bs)) (find_line unmarshal request lines scan_error)

-- Go code that returns with an error or without, or panics (`none`).
abbrev pub Polled : Type 0
Polled = Option (World × Tried (Unit {0}))

abbrev pub write_iteration : ℕ → (Iteration → Iteration) → World → World
write_iteration id f world = record world { iterations = set_iteration id f world.iterations }

abbrev returns : World → Polled
returns world = some (world, ok tt)

abbrev fails_with : World → Bytes → Polled
fails_with world message = some (world, err message)

-- A write, and what follows where it succeeds.
abbrev pub write_then : Option Bytes → Bytes → World → World → (World → Polled) → Polled
write_then (some message) wrap before after next = fails_with before (wrap ++ message)
write_then none wrap before after next = next after

abbrev pub or_default : Option Bytes → Bytes
or_default none = codes "batch processing error"
or_default (some message) = message

abbrev pub ended_at : ℕ → Iteration → Iteration
ended_at now iter = record iter {
  batch_status = some BatchStatus.ended;
  batch_completed_at = some now;
}

abbrev pub is_batch_pending : RunState → Bool
is_batch_pending RunState.batch_pending = true
is_batch_pending _ = false

abbrev pub counted_poll : Iteration → ℕ → Iteration → Iteration
counted_poll iter now row = record row {
  batch_poll_count = iter.batch_poll_count + 1;
  batch_last_poll_at = some now;
}

abbrev pub unless_broken : Option Bytes → World → World → World
unless_broken none before after = after
unless_broken (some logged) before after = before

module _ (breaks : PollCall → Option Bytes) (fails : Faults) (answer_breaks : AnswerCall → Bool)
    (agent_named : Bytes → Option ℕ) (max_attempts : ℕ) (result_error : Bytes) where
  -- The error of this write is only logged.
  abbrev pub batch_error : ℕ → Bytes → World → World
  batch_error run_id message world =
      unless_broken (breaks fail_run) world
        (write_run run_id (failed_run world.db.now (codes "batch_error") message) world)

  abbrev result_of : World → Bool → Polled
  result_of world true = returns world
  result_of world false = fails_with world result_error

  abbrev pub put_back : Iteration → World → Option (Work × Bool) → Polled
  put_back iter world none = none
  put_back iter world (some (work, done)) = result_of (put_work iter.run_id iter.id work world) done

  -- `processResult` after its `GetRun`, whose nil for a missing run panics. The counters are those of
  -- the row, since it is read here.
  abbrev pub process_read : Option Bytes → Iteration → Answer → Option Run → World → Polled
  process_read (some message) iter answer run world =
      fails_with world (codes "failed to get run: " ++ message)
  process_read none iter answer none world = none
  process_read none iter answer (some run) world = put_back iter world (
      process_batch fails answer_breaks agent_named max_attempts (some (some run)) iter
        (some answer) world.db.now (work_of run iter world))

  abbrev pub process_message : Iteration → Option Answer → World → Polled
  process_message iter none world = fails_with world (codes "no message in result")
  process_message iter (some answer) world =
      process_read (breaks get_run) iter answer (find_run iter.run_id world.runs) world

  abbrev pub handle_line : Iteration → ResultLine → World → Polled
  handle_line iter line world =
      if bytes_eq line.type (codes "errored")
      then returns (batch_error iter.run_id (or_default line.error) world)
      else process_message iter line.message world

  abbrev pub handle_result : Iteration → Tried (Option ResultLine) → World → Polled
  handle_result iter (err message) world =
      fails_with (batch_error iter.run_id message world)
        (codes "failed to fetch batch result: " ++ message)
  handle_result iter (ok none) world = fails_with world (codes "result not found")
  handle_result iter (ok (some line)) world = handle_line iter line world

  unfoldable pub handle_batch_complete : Iteration → Tried (Option ResultLine) → World → Polled
  handle_batch_complete iter result world =
      write_then (breaks mark_ended) (codes "failed to update iteration batch status: ") world
        (write_iteration iter.id (ended_at world.db.now) world) (handle_result iter result)

  abbrev pub when_processing : Iteration → Option Bytes → Option Run → World → Polled
  when_processing iter (some message) run world =
      fails_with world (codes "failed to get run: " ++ message)
  when_processing iter none none world = none
  when_processing iter none (some run) world =
      if is_batch_pending run.state
      then write_then (breaks mark_processing) (codes "failed to update run state: ") world
          (write_run iter.run_id (λ row. record row { state = RunState.batch_processing }) world)
          returns
      else returns world

  abbrev pub on_status : Iteration → ProcessingStatus → Tried (Option ResultLine) → World → Polled
  on_status iter in_progress result world =
      when_processing iter (breaks get_run) (find_run iter.run_id world.runs) world
  on_status iter ended result world = handle_batch_complete iter result world
  on_status iter canceling result world =
      write_then (breaks mark_canceling) (codes "failed to update batch status: ") world
        (write_iteration iter.id (λ row. record row { batch_status = some BatchStatus.canceling })
          world)
        returns
  on_status iter (other status) result world = returns world

  abbrev pub with_status :
      Iteration → Tried ProcessingStatus → Tried (Option ResultLine) → World → Polled
  with_status iter (err message) result world =
      fails_with world (codes "failed to get batch status: " ++ message)
  with_status iter (ok status) result world =
      write_then (breaks count_poll) (codes "failed to update poll count: ") world
        (write_iteration iter.id (counted_poll iter world.db.now) world)
        (on_status iter status result)

  abbrev pub with_batch :
      Iteration
      → Option Bytes
      → (Bytes → Tried ProcessingStatus)
      → (Bytes → Tried (Option ResultLine))
      → World
      → Polled
  with_batch iter none get_batch fetch world = fails_with world (codes "iteration has no batch_id")
  with_batch iter (some batch_id) get_batch fetch world =
      with_status iter (get_batch batch_id) (fetch batch_id) world

  -- `fetch` gives the line of the iteration's request, and is read only where the batch has ended.
  unfoldable pub poll_iteration :
      (Bytes → Tried ProcessingStatus)
      → (Bytes → Tried (Option ResultLine))
      → Iteration
      → World
      → Polled
  poll_iteration get_batch fetch iter world = with_batch iter iter.batch_id get_batch fetch world

  abbrev after_poll : Polled → (World → Option World) → Option World
  after_poll none next = none
  after_poll (some (world, result)) next = next world

  -- The loop of `pollBatches`, which goes on after an error.
  unfoldable pub poll_each :
      (Bytes → Tried ProcessingStatus)
      → (ℕ → Bytes → Tried (Option ResultLine))
      → List Iteration
      → World
      → Option World
  poll_each get_batch fetch [] world = some world
  poll_each get_batch fetch (iter ∷ rows) world =
      after_poll (poll_iteration get_batch (fetch iter.id) iter world)
        (λ next. poll_each get_batch fetch rows next)
