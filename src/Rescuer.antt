-- ===== src/Rescuer.antt =====
-- The rescue of stuck runs: rescueStuckRuns of rescuer.go, RescueRun of driver/pgxv5/store.go, and the
-- SQL function agentpg_get_stuck_runs of storage/migrations/001_agentpg_migration.up.sql. `NOW()` is an
-- argument, `busy` says which runs have a pending or running tool execution, and `fails` whether the
-- update of a run fails.
pub mod Outcomes
use agentpg.Base.{
  ℕ, suc, ◌+◌, Bool, true, false, not, ◌&&◌, List, [], ◌∷◌, map, keep, take, codes, Option, none,
  some, ltb, leb, ◌==◌, if◌then◌else◌,
}
use agentpg.Store.Runs.{Run, RunState, update_run}

abbrev pub can_be_stuck : RunState → Bool
can_be_stuck RunState.batch_submitting = true
can_be_stuck RunState.batch_pending = true
can_be_stuck RunState.batch_processing = true
can_be_stuck RunState.streaming = true
can_be_stuck RunState.pending_tools = true
can_be_stuck RunState.pending = false
can_be_stuck RunState.awaiting_input = false
can_be_stuck RunState.completed = false
can_be_stuck RunState.cancelled = false
can_be_stuck RunState.failed = false

abbrev claim_time : Option ℕ → ℕ
claim_time none = 0
claim_time (some at_time) = at_time

-- `claimed_at < NOW() - timeout`, with the timeout on the other side.
abbrev claimed_too_long : ℕ → ℕ → Option ℕ → Bool
claimed_too_long now timeout none = false
claimed_too_long now timeout (some at_time) = ltb (at_time + timeout) now

unfoldable pub is_stuck : ℕ → ℕ → ℕ → (ℕ → Bool) → Run → Bool
is_stuck now timeout max busy run =
    can_be_stuck run.state
    && (claimed_too_long now timeout run.claimed_at
        && (ltb run.rescue_attempts max && not (busy run.id)))

-- `ORDER BY claimed_at ASC`
unfoldable pub insert_by_claim : Run → List Run → List Run
insert_by_claim run [] = run ∷ []
insert_by_claim run (other ∷ runs) =
    if leb (claim_time run.claimed_at) (claim_time other.claimed_at)
    then run ∷ other ∷ runs
    else other ∷ insert_by_claim run runs

unfoldable pub sort_by_claim : List Run → List Run
sort_by_claim [] = []
sort_by_claim (run ∷ runs) = insert_by_claim run (sort_by_claim runs)

unfoldable pub get_stuck_runs : ℕ → ℕ → ℕ → ℕ → (ℕ → Bool) → List Run → List Run
get_stuck_runs now timeout max limit busy runs =
    take limit (sort_by_claim (keep (is_stuck now timeout max busy) runs))

unfoldable pub rescued : ℕ → Run → Run
rescued now run = record run {
  state = RunState.pending;
  claimed_by_instance_id = none;
  claimed_at = none;
  started_at = none;
  rescue_attempts = suc run.rescue_attempts;
  last_rescue_at = some now;
}

unfoldable pub given_up : ℕ → Run → Run
given_up now run = record run {
  state = RunState.failed;
  error_type = some (codes "rescue_failed");
  error_message = some (codes "run exceeded maximum rescue attempts");
  finalized_at = some now;
}

module _ (fails : ℕ → Bool) (now max : ℕ) where
  -- One turn of the loop, which goes on when a call fails.
  abbrev rescue_one : Run → List Run → List Run
  rescue_one run table =
      if fails run.id
      then table
      else (if leb max run.rescue_attempts
          then update_run run.id (given_up now) table
          else update_run run.id (rescued now) table)

  unfoldable pub rescue_all : List Run → List Run → List Run
  rescue_all [] table = table
  rescue_all (run ∷ runs) table = rescue_all runs (rescue_one run table)

  -- `leads` is the answer of `IsLeader`, false where it fails; `found` says whether the query succeeds.
  unfoldable pub rescue_stuck_runs : Bool → Bool → ℕ → (ℕ → Bool) → List Run → List Run
  rescue_stuck_runs leads found timeout busy table =
      if leads && found
      then rescue_all (get_stuck_runs now timeout max 100 busy table) table
      else table
