-- ===== src/Tests/Rescuer.antt =====
-- A run of the theorem on the rescuer: one run is stuck, one has used up its rescues.
use agentpg.Base.{ℕ, ◌≡◌, Bool, true, false, List, [], ◌∷◌, some}
use agentpg.Tests.Rows.{run}
use agentpg.Store.Runs.{Run}
use agentpg.Rescuer.{rescue_stuck_runs}
use agentpg.Rescuer.Outcomes.{Rescues, run_ids, rescue_stuck_runs-Rescues}

abbrev stuck : ℕ → ℕ → Run
stuck id attempts = record run { id = id; claimed_at = some 10; rescue_attempts = attempts }

abbrev runs : List Run
runs = stuck 1 0 ∷ stuck 2 3 ∷ []

abbrev works : ℕ → Bool
works id = false

rescue_stuck_runs-Rescues_example :
    Rescues runs (rescue_stuck_runs works 1000 3 true true 300 works runs)
    × (run_ids (rescue_stuck_runs works 1000 3 true true 300 works runs) ≡ 1 ∷ 2 ∷ [])
rescue_stuck_runs-Rescues_example = rescue_stuck_runs-Rescues works 1000 3 runs true true 300 works
