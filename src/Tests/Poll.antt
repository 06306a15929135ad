-- ===== src/Tests/Poll.antt =====
-- Runs of the theorems on polls: a batch has ended with an answer of text.
use agentpg.Base.{ℕ, refl, Bool, false, [], ◌∷◌, codes, Option, none, some}
use agentpg.Driver.{Bytes, text}
use agentpg.Store.Messages.{Faults}
use agentpg.Store.Runs.{RunState, Iteration, BatchStatus}
use agentpg.Store.World.{World, find_run}
use agentpg.Worker.Answer.Process.{AnswerCall}
use agentpg.Worker.Runs.{Tried, ok}
use agentpg.Worker.Poll.{ProcessingStatus, ended, ResultLine, PollCall, find_line, poll_iteration}
use agentpg.Worker.Poll.Ended.{Good, StateAfter, poll_iteration-Good}
use agentpg.Tests.Rows.{some_usage, run, iteration, empty_store}

abbrev polled : Iteration
polled = record iteration {
  batch_id = some (codes "batch");
  batch_status = some BatchStatus.in_progress;
}

abbrev world : World
world = record {
  db = empty_store;
  runs = record run { state = RunState.batch_processing } ∷ [];
  iterations = polled ∷ [];
  tools = [];
}

abbrev line : ResultLine
line = record {
  custom_id = codes "two";
  type = codes "succeeded";
  message = some (record {
    content = record { type = text; text = codes "done"; id = []; name = []; input = [] } ∷ [];
    stop_reason = codes "end_turn";
    usage = some_usage;
  });
  error = none;
}

abbrev works : PollCall → Option Bytes
works call = none

abbrev never : Faults
never call = false

abbrev all_work : AnswerCall → Bool
all_work call = false

abbrev no_agents : Bytes → Option ℕ
no_agents name = none

abbrev has_ended : Bytes → Tried ProcessingStatus
has_ended batch_id = ok ended

abbrev decode : Bytes → Option ResultLine
decode bytes = some line

abbrev fetch : Bytes → Tried (Option ResultLine)
fetch batch_id = find_line decode (codes "two") ([] ∷ codes "{}" ∷ []) none

poll_iteration-Good_example :
    Good
      (StateAfter (ok ended))
      1
      world
      (poll_iteration works never all_work no_agents 2 [] has_ended fetch polled world)
unfolding find_run
poll_iteration-Good_example =
    poll_iteration-Good works never all_work no_agents 2 [] refl polled has_ended fetch
      (codes "batch") world refl (record run { state = RunState.batch_processing }, refl, tt)
