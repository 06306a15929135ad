-- ===== src/Store/Iterations.antt =====
-- GetIterationsForPoll of driver/pgxv5/store.go, the SQL function agentpg_get_iterations_for_poll of
-- storage/migrations/001_agentpg_migration.up.sql. `NOW()` is the time of the tables.
use agentpg.Base.{
  ℕ, suc, ◌+◌, Bool, true, false, ◌&&◌, List, [], ◌∷◌, keep, take, Option, none, some, ltb, leb,
  ◌==◌, if◌then◌else◌,
}
use agentpg.Store.Runs.{Run, Iteration, BatchStatus}
use agentpg.Store.World.{World, find_run}

abbrev is_in_progress : Option BatchStatus → Bool
is_in_progress (some BatchStatus.in_progress) = true
is_in_progress (some BatchStatus.canceling) = false
is_in_progress (some BatchStatus.ended) = false
is_in_progress none = false

-- `NULL` is before any time.
abbrev polled_at : Option ℕ → ℕ
polled_at none = 0
polled_at (some time) = suc time

abbrev is_due : ℕ → ℕ → Option ℕ → Bool
is_due now interval none = true
is_due now interval (some time) = ltb (time + interval) now

abbrev held_by : ℕ → Option ℕ → Bool
held_by instance_id none = false
held_by instance_id (some holder) = holder == instance_id

abbrev claimed_by : ℕ → Option Run → Bool
claimed_by instance_id none = false
claimed_by instance_id (some run) = held_by instance_id run.claimed_by_instance_id

unfoldable pub needs_poll : ℕ → ℕ → World → Iteration → Bool
needs_poll instance_id interval world iter =
    is_in_progress iter.batch_status
    && (claimed_by instance_id (find_run iter.run_id world.runs)
        && is_due world.db.now interval iter.batch_last_poll_at)

-- `ORDER BY i.batch_last_poll_at NULLS FIRST`
unfoldable pub insert_by_poll : Iteration → List Iteration → List Iteration
insert_by_poll iter [] = iter ∷ []
insert_by_poll iter (first ∷ rows) =
    if leb (polled_at iter.batch_last_poll_at) (polled_at first.batch_last_poll_at)
    then iter ∷ first ∷ rows
    else first ∷ insert_by_poll iter rows

unfoldable pub sort_by_poll : List Iteration → List Iteration
sort_by_poll [] = []
sort_by_poll (iter ∷ rows) = insert_by_poll iter (sort_by_poll rows)

-- `GetIterationsForPoll`
unfoldable pub get_iterations_for_poll : ℕ → ℕ → ℕ → World → List Iteration
get_iterations_for_poll instance_id interval max world =
    take max (sort_by_poll (keep (needs_poll instance_id interval world) world.iterations))
