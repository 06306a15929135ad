-- ===== src/Worker/Runs/Settled/Claims.antt =====
-- The runs that are claimed are in the table.
use mathlib.Core.List.Memᴰ
use agentpg.Base.{
  ℕ, ◌≡◌, refl, subst, ◌∙◌, inl, inr, Bool, true, List, [], ◌∷◌, map, keep, take, some, All,
  All-take, All-map, All-Memᴰ_intro, Memᴰ, Memᴰ_of_keep, ◌==◌, Bool-cases, arith,
}
use agentpg.Store.Runs.{Run, RunMode}
use agentpg.Store.World.{World, find_run, write_run}
use agentpg.Store.World.Rows.{find-here, find-next}
use agentpg.Worker.Runs.{is_claimable_run, claimed_run, claim_all, claim_runs_of}
use agentpg.Worker.Runs.Settled.Touching.{InState, AnyState, Touches-write, any-Touches}

self-test : (id : ℕ) → (id == id) ≡ true
self-test id = ground arith

member-found :
    (run : Run) (rows : List Run) → Memᴰ run rows → (row : Run) × (find_run run.id rows ≡ some row)
member-found run [] m = absurd (Memᴰ.not-nil m)
member-found run (row ∷ rows) (Memᴰ.head e) =
    (row, find-here run.id row rows (subst (λ r. (r.id == run.id) ≡ true) e (self-test run.id)))
member-found run (row ∷ rows) (Memᴰ.tail m) = elim (Bool-cases (row.id == run.id)) [
  | inl here ↦ (row, find-here run.id row rows here)
  | inr there ↦
      let (found, h) = member-found run rows m in (found, find-next run.id row rows there ∙ h)
]

claimable-found :
    (n : ℕ) (p : Run → Bool) (world : World)
    → All (λ run. InState AnyState world run.id) (take n (keep p world.runs))
claimable-found n p world =
    All-take (λ run. InState AnyState world run.id) n (keep p world.runs)
      (All-Memᴰ_intro (λ run. InState AnyState world run.id) (keep p world.runs)
        (λ run m.
          let (row, found) = member-found run world.runs (Memᴰ_of_keep p run world.runs m).0 in
          (row, found, tt)))

claim_all-keeps :
    (instance_id : ℕ) (runs : List Run) (world : World) (k : ℕ)
    → InState AnyState world k
    → InState AnyState (claim_all instance_id runs world) k
unfolding claim_all claimed_run
claim_all-keeps instance_id [] world k h = h
claim_all-keeps instance_id (run ∷ runs) world k h =
    claim_all-keeps instance_id runs (write_run run.id (claimed_run world.db.now instance_id) world)
      k
      (any-Touches run.id k world (write_run run.id (claimed_run world.db.now instance_id) world)
        (Touches-write run.id (claimed_run world.db.now instance_id) world (λ row. refl)) h)

All-claimed :
    (now instance_id : ℕ) (world : World) (runs : List Run)
    → All (λ run. InState AnyState world run.id) runs
    → All (λ run. InState AnyState world run.id) (map (claimed_run now instance_id) runs)
unfolding claimed_run
All-claimed now instance_id world [] h = tt
All-claimed now instance_id world (run ∷ runs) (h, hs) =
    (h, All-claimed now instance_id world runs hs)

-- The rows that are claimed are in the table afterwards.
pub claimed-found :
    (instance_id max : ℕ) (mode : RunMode) (capable : Run → Bool) (world : World)
    → let (claimed, runs) = claim_runs_of instance_id max mode capable world in
      All (λ run. InState AnyState claimed run.id) runs
unfolding claim_runs_of
claimed-found instance_id max mode capable world =
    let runs = take max (keep (is_claimable_run mode capable) world.runs) in
    All-claimed world.db.now instance_id (claim_all instance_id runs world) runs (
      All-map (λ run. InState AnyState world run.id)
        (λ run. InState AnyState (claim_all instance_id runs world) run.id) runs
        (λ run h. claim_all-keeps instance_id runs world run.id h)
        (claimable-found max (is_claimable_run mode capable) world))
