-- ===== src/Store/Instances/Counts.antt =====
-- GetInstanceActiveCounts and GetAllInstanceActiveCounts of driver/pgxv5/store.go. Each makes two queries,
-- either of which may fail: `none` is an error. A map is a list of its entries, and a GROUP BY gives one
-- row for each key.
pub mod Grouped
use agentpg.Base.{
  ℕ, suc, Bool, not, ◌&&◌, List, [], ◌∷◌, keep, length, Option, none, some, ◌==◌, if◌then◌else◌,
}
use agentpg.Store.Runs.{Run, run_is_terminal, ToolExecution}
use agentpg.Store.World.{World, is_running}
use agentpg.Store.Instances.{is_held}

abbrev pub active_runs : ℕ → List Run → ℕ
active_runs id runs =
    length
      (keep (λ run. is_held id run.claimed_by_instance_id && not (run_is_terminal run.state)) runs)

abbrev pub active_tools : ℕ → List ToolExecution → ℕ
active_tools id tools =
    length (keep (λ exec. is_held id exec.claimed_by_instance_id && is_running exec.state) tools)

unfoldable pub get_instance_active_counts : Bool → Bool → ℕ → World → Option (ℕ × ℕ)
get_instance_active_counts first second id world =
    if first
    then none
    else if second
    then none
    else some (active_runs id world.runs, active_tools id world.tools)

-- A row more for its key, in a GROUP BY with COUNT.
unfoldable pub tally : ℕ → List (ℕ × ℕ) → List (ℕ × ℕ)
tally key [] = (key, 1) ∷ []
tally key ((k, n) ∷ rows) = if k == key then (k, suc n) ∷ rows else (k, n) ∷ tally key rows

abbrev pub tally_claim : Option ℕ → List (ℕ × ℕ) → List (ℕ × ℕ)
tally_claim none rows = rows
tally_claim (some id) rows = tally id rows

unfoldable pub count_runs : List Run → List (ℕ × ℕ)
count_runs [] = []
count_runs (run ∷ runs) =
    let rows = count_runs runs in
    if run_is_terminal run.state then rows else tally_claim run.claimed_by_instance_id rows

unfoldable pub count_tools : List ToolExecution → List (ℕ × ℕ)
count_tools [] = []
count_tools (exec ∷ tools) =
    let rows = count_tools tools in
    if is_running exec.state then tally_claim exec.claimed_by_instance_id rows else rows

abbrev pub set_runs : ℕ → ℕ × ℕ → ℕ × ℕ
set_runs n (runs, tools) = (n, tools)

abbrev pub set_tools : ℕ → ℕ × ℕ → ℕ × ℕ
set_tools n (runs, tools) = (runs, n)

-- An entry that is not there counts as zeros.
unfoldable pub put_count : (ℕ → ℕ × ℕ → ℕ × ℕ) → ℕ → ℕ → List (ℕ × (ℕ × ℕ)) → List (ℕ × (ℕ × ℕ))
put_count change key n [] = (key, change n (0, 0)) ∷ []
put_count change key n ((k, counts) ∷ result) =
    if k == key then (k, change n counts) ∷ result else (k, counts) ∷ put_count change key n result

unfoldable pub put_counts :
    (ℕ → ℕ × ℕ → ℕ × ℕ) → List (ℕ × ℕ) → List (ℕ × (ℕ × ℕ)) → List (ℕ × (ℕ × ℕ))
put_counts change [] result = result
put_counts change ((key, n) ∷ rows) result = put_counts change rows (put_count change key n result)

unfoldable pub get_all_instance_active_counts : Bool → Bool → World → Option (List (ℕ × (ℕ × ℕ)))
get_all_instance_active_counts first second world =
    if first
    then none
    else if second
    then none
    else some (
        put_counts set_tools (count_tools world.tools)
          (put_counts set_runs (count_runs world.runs) []))
