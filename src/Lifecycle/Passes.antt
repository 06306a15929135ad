-- ===== src/Lifecycle/Passes.antt =====
-- A worker's pass over the runs that it claims: every run moves along its life.
use agentpg.Base.{
  ℕ, zero, suc, ◌≡◌, refl, sym, subst, ◌∙◌, inl, inr, Bool, true, false, List, [], ◌∷◌, keep, take,
  map, All, All-map, All-take, All-both, Option, none, some, ◌==◌, Bool-cases, Option-cases, arith,
}
use agentpg.Driver.{Bytes}
use agentpg.Store.Runs.{Run, RunState, RunMode}
use agentpg.Store.World.{World, find_run}
use agentpg.Store.World.Rows.{find-here, find-next}
use agentpg.Worker.Runs.{
  RunCall, claim_runs, fail_run, Step, settle, claim_all, claimed_run, claimed_state, claim_runs_of,
  is_claimable_run, same_mode, process_each, process_runs,
}
use agentpg.Worker.Runs.Settled.{Settled, settle-settles}
use agentpg.Worker.Runs.Settled.Touching.{Processed}
use agentpg.Lifecycle.{Life}
use agentpg.Lifecycle.Moves.{Moves, Moves-refl, Moves-trans}
use agentpg.Lifecycle.Changes.{claim-found, claim-Touches, with_claim, work-Moves, claims-Moves}

-- No two rows have one identifier.
abbrev pub HasKeys : List Run → Type 0
HasKeys [] = Unit
HasKeys (run ∷ runs) = All (λ other. (other.id == run.id) ≡ false) runs × HasKeys runs

own_id : (id : ℕ) → (id == id) ≡ true
own_id id = ground arith

other_id : (a b : ℕ) → (a == b) ≡ false → (b == a) ≡ false
other_id a b h = ground arith

pub keys-found :
    (runs : List Run) → HasKeys runs → All (λ run. find_run run.id runs ≡ some run) runs
keys-found [] h = tt
keys-found (run ∷ runs) (apart, keys) = (
  find-here run.id run runs (own_id run.id),
  All-map (λ other. ((other.id == run.id) ≡ false) × (find_run other.id runs ≡ some other))
      (λ other. find_run other.id (run ∷ runs) ≡ some other) runs
      (λ other h. find-next other.id run runs (other_id other.id run.id h.0) ∙ h.1)
      (All-both _ _ runs apart (keys-found runs keys)),
)

All-kept : (P : Run → Type 0) (p : Run → Bool) (runs : List Run) → All P runs → All P (keep p runs)
All-kept P p [] h = tt
All-kept P p (run ∷ runs) (h, hs) = elim (Bool-cases (p run)) [
  | inl kept ↦ rw kept (h, All-kept P p runs hs)
  | inr dropped ↦ rw dropped (All-kept P p runs hs)
]

HasKeys-keep : (p : Run → Bool) (runs : List Run) → HasKeys runs → HasKeys (keep p runs)
HasKeys-keep p [] h = tt
HasKeys-keep p (run ∷ runs) (apart, keys) = elim (Bool-cases (p run)) [
  | inl kept ↦
      rw kept
        (All-kept (λ other. (other.id == run.id) ≡ false) p runs apart, HasKeys-keep p runs keys)
  | inr dropped ↦ rw dropped (HasKeys-keep p runs keys)
]

HasKeys-take : (n : ℕ) (runs : List Run) → HasKeys runs → HasKeys (take n runs)
HasKeys-take zero runs h = tt
HasKeys-take (suc n) [] h = tt
HasKeys-take (suc n) (run ∷ runs) (apart, keys) =
    (All-take (λ other. (other.id == run.id) ≡ false) n runs apart, HasKeys-take n runs keys)

-- The run is in the table in this state.
abbrev Waits : RunState → World → Run → Type 0
Waits state world run = (row : Run) × (find_run run.id world.runs ≡ some row) × (row.state ≡ state)

-- The run is in the table as it is, and a claim leads it to this state.
abbrev Picked : RunState → World → Run → Type 0
Picked state world run =
    (find_run run.id world.runs ≡ some run) × (claimed_state run.run_mode ≡ state)

module _ (instance_id : ℕ) (state : RunState) where
  claim_all-others :
      (runs : List Run) (world : World) (k : ℕ)
      → All (λ other. (other.id == k) ≡ false) runs
      → find_run k (claim_all instance_id runs world).runs ≡ find_run k world.runs
  unfolding claim_all
  claim_all-others [] world k h = refl
  claim_all-others (run ∷ runs) world k (h, hs) =
      claim_all-others runs (with_claim instance_id run world) k hs
      ∙ (claim-Touches instance_id run world).0 k (other_id run.id k h)

  claim_all-Waits :
      (runs : List Run) (world : World)
      → HasKeys runs
      → All (Picked state world) runs
      → All (Waits state (claim_all instance_id runs world)) runs
  unfolding claim_all claimed_run
  claim_all-Waits [] world keys h = tt
  claim_all-Waits (run ∷ runs) world (apart, keys) ((found, leads), hs) =
      let after = with_claim instance_id run world in
      (
        (
          claimed_run world.db.now instance_id run,
          claim_all-others runs after run.id apart ∙ claim-found instance_id run world run found,
          leads,
        ),
        claim_all-Waits runs after keys (
            All-map (λ other. ((other.id == run.id) ≡ false) × Picked state world other)
              (Picked state after) runs
              (λ other h. ((claim-Touches instance_id run world).0 other.id h.0 ∙ h.1.0, h.1.1))
              (All-both _ _ runs apart hs)),
      )

  claimed-Waits :
      (now : ℕ) (world : World) (runs : List Run)
      → All (Waits state world) runs
      → All (Waits state world) (map (claimed_run now instance_id) runs)
  unfolding claimed_run
  claimed-Waits now world [] h = tt
  claimed-Waits now world (run ∷ runs) (h, hs) = (h, claimed-Waits now world runs hs)

  apart-claimed :
      (now id : ℕ) (runs : List Run)
      → All (λ other. (other.id == id) ≡ false) runs
      → All (λ other. (other.id == id) ≡ false) (map (claimed_run now instance_id) runs)
  unfolding claimed_run
  apart-claimed now id [] h = tt
  apart-claimed now id (run ∷ runs) (h, hs) = (h, apart-claimed now id runs hs)

  HasKeys-claimed :
      (now : ℕ) (runs : List Run) → HasKeys runs → HasKeys (map (claimed_run now instance_id) runs)
  unfolding claimed_run
  HasKeys-claimed now [] h = tt
  HasKeys-claimed now (run ∷ runs) (apart, keys) =
      (apart-claimed now run.id runs apart, HasKeys-claimed now runs keys)

mode-state :
    (mode other : RunMode) → same_mode other mode ≡ true → claimed_state other ≡ claimed_state mode
mode-state RunMode.batch RunMode.batch h = refl
mode-state RunMode.streaming RunMode.streaming h = refl
mode-state RunMode.batch RunMode.streaming h = absurd cc
mode-state RunMode.streaming RunMode.batch h = absurd cc

claimable-state :
    (mode : RunMode) (capable : Run → Bool) (run : Run)
    → is_claimable_run mode capable run ≡ true
    → claimed_state run.run_mode ≡ claimed_state mode
unfolding is_claimable_run
claimable-state mode capable run h = mode-state mode run.run_mode (ground arith)

claimable-Picked :
    (mode : RunMode) (capable : Run → Bool) (world : World) (runs : List Run)
    → All (λ run. find_run run.id world.runs ≡ some run) runs
    → All (Picked (claimed_state mode) world) (keep (is_claimable_run mode capable) runs)
claimable-Picked mode capable world [] h = tt
claimable-Picked mode capable world (run ∷ runs) (h, hs) =
    elim (Bool-cases (is_claimable_run mode capable run)) [
      | inl can ↦
          rw can
            ((h, claimable-state mode capable run can), claimable-Picked mode capable world runs hs)
      | inr cannot ↦ rw cannot (claimable-Picked mode capable world runs hs)
    ]

module _ (breaks : ℕ → RunCall → Option Bytes) (error_type : Bytes)
    (process : Run → Step (Unit {0})) (Q : RunState → Type 0)
    (processed : (run : Run) (world : World) → Processed Q run.id world (process run world))
    (fails : (id : ℕ) → breaks id fail_run ≡ none) (mode : RunMode)
    (lives : (state : RunState) → Settled Q state → Life (claimed_state mode) state) where
  process_each-Moves :
      (runs : List Run) (world : World)
      → HasKeys runs
      → All (Waits (claimed_state mode) world) runs
      → Moves world (process_each breaks error_type process runs world)
  unfolding process_each
  process_each-Moves [] world keys h = Moves-refl world
  process_each-Moves (run ∷ runs) world (apart, keys) ((row, found, state), hs) =
      let next = settle breaks error_type run.id (process run world) in
      let (touched, _) =
        settle-settles breaks error_type process Q processed fails run.id world (process run world)
          (processed run world) in
      Moves-trans world next (process_each breaks error_type process runs next)
        (work-Moves breaks error_type process Q processed fails run row world found
          (λ s settled. subst (λ t. Life t s) (sym state) (lives s settled)))
        (process_each-Moves runs next keys (
          All-map (λ other. ((other.id == run.id) ≡ false) × Waits (claimed_state mode) world other)
            (Waits (claimed_state mode) next) runs
            (λ other h. (h.1.0, touched.0 other.id h.0 ∙ h.1.1, h.1.2))
            (All-both _ _ runs apart hs)))

  -- The pass of one instance, from its claim on.
  pub process_runs-Moves :
      (instance_id max : ℕ) (capable : Run → Bool) (world : World)
      → HasKeys world.runs
      → Moves world (process_runs breaks error_type process instance_id max mode capable world)
  unfolding process_runs claim_runs_of
  process_runs-Moves instance_id max capable world keys =
      elim (Option-cases (breaks instance_id claim_runs)) [
        | inl works ↦ rw works passed
        | inr (message, broken) ↦ rw broken (Moves-refl world)
      ]
    where
      runs : List Run
      runs = take max (keep (is_claimable_run mode capable) world.runs)

      after : World
      after = claim_all instance_id runs world

      runs-keys : HasKeys runs
      runs-keys =
          HasKeys-take max (keep (is_claimable_run mode capable) world.runs)
            (HasKeys-keep (is_claimable_run mode capable) world.runs keys)

      passed : Moves world (
          process_each breaks error_type process
            (map (claimed_run world.db.now instance_id) runs)
            after)
      passed =
          Moves-trans world after
            (process_each breaks error_type process
              (map (claimed_run world.db.now instance_id) runs) after)
            (claims-Moves instance_id max mode capable world (keys-found world.runs keys))
            (process_each-Moves (map (claimed_run world.db.now instance_id) runs) after
              (HasKeys-claimed instance_id (claimed_state mode) world.db.now runs runs-keys)
              (claimed-Waits instance_id (claimed_state mode) world.db.now after runs (
                claim_all-Waits instance_id (claimed_state mode) runs world runs-keys (
                  All-take (Picked (claimed_state mode) world) max
                    (keep (is_claimable_run mode capable) world.runs)
                    (claimable-Picked mode capable world world.runs
                      (keys-found world.runs keys))))))
