-- ===== src/Lifecycle/Changes.antt =====
-- What each turn of the workers and of the clean-up does to the runs: all of them move along their lives.
use mathlib.Core.Option
use agentpg.Base.{
  ℕ, ◌≡◌, refl, sym, ap, subst, ◌∙◌, inl, inr, ◌⊎◌, Bool, true, false, not, ◌&&◌, List, [], ◌∷◌,
  keep, take, All, All-map, All-take, Option, none, some, ◌==◌, Bool-cases, Option-cases, arith,
}
use agentpg.Driver.{Bytes, ContentBlock}
use agentpg.Store.Runs.{Run, RunState, RunMode, run_is_terminal}
use agentpg.Store.World.{
  World, find_run, write_run, is_waiting, continued_run, continue_found,
  complete_tools_and_continue_run,
}
use agentpg.Store.World.Rows.{find-update}
use agentpg.Store.Instances.{is_held, orphaned_run, cleanup_orphaned_work, orphan_all}
use agentpg.Worker.Runs.{
  RunCall, fail_run, Step, settle, claim_all, claimed_run, claimed_state, claim_runs_of,
  is_claimable_run, is_pending_run,
}
use agentpg.Worker.Runs.Settled.{Settled, settle-settles}
use agentpg.Worker.Runs.Settled.Touching.{
  Touches, Touches-update, Touches-write, state-update, same_of_test, Processed,
}
use agentpg.Worker.Runs.Settled.Batches.{IsSubmitted}
use agentpg.Worker.Runs.Settled.Streams.{IsAnswered}
use agentpg.Lifecycle.{
  Life, here, next, gives_up, tools_done, claimed_for_batch, claimed_for_stream, submitted,
  stream_uses_tools, stream_completes,
}
use agentpg.Lifecycle.Moves.{Moves, Moves-refl, Moves-trans, Moves-touch, Moves-map}

lost-Life :
    (text_of : ℕ → Bytes) (now id : ℕ) (run : Run)
    → ((orphaned_run text_of now id run).id ≡ run.id)
      × Life run.state (orphaned_run text_of now id run).state
unfolding orphaned_run
lost-Life text_of now id run =
    elim (Bool-cases (is_held id run.claimed_by_instance_id && not (run_is_terminal run.state))) [
      | inl lost ↦ rw lost (refl, next here (gives_up (ground arith)))
      | inr kept ↦ rw kept (refl, here)
    ]

-- The clean-up after an instance.
cleanup-Moves :
    (text_of : ℕ → Bytes) (id : ℕ) (world : World)
    → Moves world (cleanup_orphaned_work text_of id world)
unfolding cleanup_orphaned_work
cleanup-Moves text_of id world =
    Moves-map (orphaned_run text_of world.db.now id) world (cleanup_orphaned_work text_of id world)
      (λ run. (lost-Life text_of world.db.now id run).0)
      (λ run. (lost-Life text_of world.db.now id run).1) refl

pub orphan_all-Moves :
    (text_of : ℕ → Bytes) (ids : List ℕ) (world : World)
    → Moves world (orphan_all text_of ids world)
unfolding orphan_all
orphan_all-Moves text_of [] world = Moves-refl world
orphan_all-Moves text_of (id ∷ ids) world =
    let after = cleanup_orphaned_work text_of id world in
    Moves-trans world after (orphan_all text_of ids after) (cleanup-Moves text_of id world)
      (orphan_all-Moves text_of ids after)

waiting-Life : (state : RunState) → is_waiting state ≡ true → Life state RunState.pending
waiting-Life RunState.pending_tools h = next here tools_done
waiting-Life _ h = absurd cc

-- The end of an iteration's tools.
continued-Moves :
    (session id : ℕ) (blocks : List ContentBlock) (world : World) (run : Run)
    → find_run id world.runs ≡ some run
    → Moves world (continue_found session id blocks (some run) world).0
unfolding write_run continued_run
continued-Moves session id blocks world run found = elim (Bool-cases (is_waiting run.state)) [
  | inr not_ ↦ rw not_ (Moves-refl world)
  | inl waits ↦
      let after = (continue_found session id blocks (some run) world).0 in
      Moves-touch id world after run
        (Touches-update id continued_run world after (λ row. refl) (rw waits refl)) found
        (state-update (Life run.state) id continued_run world after (λ row. refl)
          (λ row. waiting-Life run.state waits) (rw waits refl) (run, found, tt))
]

-- A worker's turn on a run, where the states that it may leave are on a path from the run's.
module _ (breaks : ℕ → RunCall → Option Bytes) (error_type : Bytes)
    (process : Run → Step (Unit {0})) (Q : RunState → Type 0)
    (processed : (run : Run) (world : World) → Processed Q run.id world (process run world))
    (fails : (id : ℕ) → breaks id fail_run ≡ none) where
  pub work-Moves :
      (run row : Run) (world : World)
      → find_run run.id world.runs ≡ some row
      → ((state : RunState) → Settled Q state → Life row.state state)
      → Moves world (settle breaks error_type run.id (process run world))
  work-Moves run row world found lives =
      let after = settle breaks error_type run.id (process run world) in
      let (touched, settled) =
        settle-settles breaks error_type process Q processed fails run.id world (process run world)
          (processed run world) in
      let (row', found', q) = settled (row, found, tt) in
      Moves-touch run.id world after row touched found (row', found', lives row'.state q)

pub submitted-Life :
    (state : RunState) → Settled IsSubmitted state → Life RunState.batch_submitting state
unfolding run_is_terminal
submitted-Life state (inl e) = subst (Life RunState.batch_submitting) (sym e) (next here submitted)
submitted-Life state (inr e) =
    subst (Life RunState.batch_submitting) (sym e) (next here (gives_up refl))

pub answered-Life : (state : RunState) → Settled IsAnswered state → Life RunState.streaming state
unfolding run_is_terminal
answered-Life state (inl (inl e)) =
    subst (Life RunState.streaming) (sym e) (next here stream_completes)
answered-Life state (inl (inr e)) =
    subst (Life RunState.streaming) (sym e) (next here stream_uses_tools)
answered-Life state (inr e) = subst (Life RunState.streaming) (sym e) (next here (gives_up refl))

-- Claims: a run that is to be written waits, or has just been claimed.
abbrev IsOpen : Run → Type 0
IsOpen row = (row.state ≡ RunState.pending) ⊎ (row.state ≡ claimed_state row.run_mode)

abbrev Ready : World → Run → Type 0
Ready world run = (row : Run) × (find_run run.id world.runs ≡ some row) × IsOpen row

claimed-Life : (mode : RunMode) → Life RunState.pending (claimed_state mode)
claimed-Life RunMode.batch = next here claimed_for_batch
claimed-Life RunMode.streaming = next here claimed_for_stream

open-Life : (row : Run) → IsOpen row → Life row.state (claimed_state row.run_mode)
open-Life row (inl e) =
    subst (λ s. Life s (claimed_state row.run_mode)) (sym e) (claimed-Life row.run_mode)
open-Life row (inr e) = subst (λ s. Life s (claimed_state row.run_mode)) (sym e) here

module _ (instance_id : ℕ) where
  abbrev pub with_claim : Run → World → World
  with_claim run world = write_run run.id (claimed_run world.db.now instance_id) world

  pub claim-found :
      (run : Run) (world : World) (row : Run)
      → find_run run.id world.runs ≡ some row
      → find_run run.id (with_claim run world).runs
        ≡ some (claimed_run world.db.now instance_id row)
  unfolding write_run claimed_run
  claim-found run world row found =
      let f = claimed_run world.db.now instance_id in
      find-update run.id f world.runs (λ r. refl) ∙ ap (Option.map f) found

  pub claim-Touches : (run : Run) (world : World) → Touches run.id world (with_claim run world)
  unfolding claimed_run
  claim-Touches run world =
      Touches-write run.id (claimed_run world.db.now instance_id) world (λ row. refl)

  claim-Moves : (run : Run) (world : World) → Ready world run → Moves world (with_claim run world)
  unfolding claimed_run
  claim-Moves run world (row, found, open_) =
      Moves-touch run.id world (with_claim run world) row (claim-Touches run world) found (
        claimed_run world.db.now instance_id row,
        claim-found run world row found,
        open-Life row open_,
      )

  -- Another run is as ready as before, and a second row of the same identifier is claimed already.
  claim-Ready :
      (run other : Run) (world : World)
      → Ready world run
      → Ready world other
      → Ready (with_claim run world) other
  unfolding claimed_run
  claim-Ready run other world (row, found, open_) ready = elim (Bool-cases (other.id == run.id)) [
    | inl same ↦ (
      claimed_run world.db.now instance_id row,
      subst
          (λ (n : ℕ).
            find_run n (with_claim run world).runs
            ≡ some (claimed_run world.db.now instance_id row))
          (same_of_test other.id run.id same) (claim-found run world row found),
      inr refl,
    )
    | inr differs ↦ (ready.0, (claim-Touches run world).0 other.id differs ∙ ready.1, ready.2)
  ]

  claim_all-Moves :
      (runs : List Run) (world : World)
      → All (Ready world) runs
      → Moves world (claim_all instance_id runs world)
  unfolding claim_all
  claim_all-Moves [] world h = Moves-refl world
  claim_all-Moves (run ∷ runs) world (h, hs) =
      let after = with_claim run world in
      Moves-trans world after (claim_all instance_id runs after) (claim-Moves run world h) (
        claim_all-Moves runs after (
          All-map (Ready world) (Ready after) runs (λ other r. claim-Ready run other world h r) hs))

-- Each run of the table is found under its identifier.
abbrev pub IsKeyed : World → Type 0
IsKeyed world = All (λ run. find_run run.id world.runs ≡ some run) world.runs

pending_lem : (state : RunState) → is_pending_run state ≡ true → state ≡ RunState.pending
pending_lem RunState.pending h = refl
pending_lem _ h = absurd cc

pending-state :
    (mode : RunMode) (capable : Run → Bool) (run : Run)
    → is_claimable_run mode capable run ≡ true
    → run.state ≡ RunState.pending
unfolding is_claimable_run
pending-state mode capable run h = pending_lem run.state (ground arith)

claimable-Ready :
    (mode : RunMode) (capable : Run → Bool) (world : World) (runs : List Run)
    → All (λ run. find_run run.id world.runs ≡ some run) runs
    → All (Ready world) (keep (is_claimable_run mode capable) runs)
claimable-Ready mode capable world [] h = tt
claimable-Ready mode capable world (run ∷ runs) (h, hs) =
    elim (Bool-cases (is_claimable_run mode capable run)) [
      | inl can ↦ rw can (
        (run, h, inl (pending-state mode capable run can)),
        claimable-Ready mode capable world runs hs,
      )
      | inr cannot ↦ rw cannot (claimable-Ready mode capable world runs hs)
    ]

pub claims-Moves :
    (instance_id max : ℕ) (mode : RunMode) (capable : Run → Bool) (world : World)
    → IsKeyed world
    → Moves world (claim_runs_of instance_id max mode capable world).0
unfolding claim_runs_of
claims-Moves instance_id max mode capable world keyed =
    claim_all-Moves instance_id (take max (keep (is_claimable_run mode capable) world.runs)) world (
      All-take (Ready world) max (keep (is_claimable_run mode capable) world.runs)
        (claimable-Ready mode capable world world.runs keyed))

pub complete-Moves :
    (failing : Bool) (session id : ℕ) (blocks : List ContentBlock) (world : World)
    → Moves world (complete_tools_and_continue_run failing session id blocks world).0
unfolding complete_tools_and_continue_run
complete-Moves true session id blocks world = Moves-refl world
complete-Moves false session id blocks world = elim (Option-cases (find_run id world.runs)) [
  | inl gone ↦ rw gone (Moves-refl world)
  | inr (run, found) ↦ rw found (continued-Moves session id blocks world run found)
]
