-- ===== src/Worker/Runs/Settled.antt =====
-- What the loop over claimed runs leaves of them, for any processing that touches its own run only.
pub mod Touching
pub mod Claims
pub mod Steps
pub mod Batches
pub mod Streams
use mathlib.Core.List.Memᴰ
use mathlib.Core.Option
use agentpg.Base.{
  ℕ, ◌≡◌, refl, sym, ap, subst, ◌∙◌, inl, inr, ◌⊎◌, Bool, true, false, List, [], ◌∷◌, map, keep,
  take, Option, none, some, All, All-take, All-map, All-Memᴰ_intro, Memᴰ, Memᴰ_of_keep, ◌==◌,
  Bool-cases, arith,
}
use agentpg.Anthropic.{Sdk}
use agentpg.Driver.{Bytes}
use agentpg.Store.Messages.{Db, Faults, insert_message}
use agentpg.Store.Runs.{Run, RunState, RunMode, update_run}
use agentpg.Store.World.{World, find_run, write_run}
use agentpg.Store.World.Rows.{find-here, find-next, find-update, find-update_other}
use agentpg.Store.Context.{get_messages_for_run_context}
use agentpg.Worker.Messages.{build_messages}
use agentpg.Worker.Runs.{
  RunCall, create_iteration, get_messages, fail_run, claim_runs, Tried, ok, err, Step, and_then,
  ◌>>=◌, write, lift, with_db, prompt_of, prompt_params, create_prompt, insert_iteration,
  create_iteration_of, messages_or_error, messages_for, is_claimable_run, claimed_run, claim_all,
  claim_runs_of, failed_run, fail, settle, process_each, process_runs,
}
use agentpg.Worker.Runs.Settled.Touching.{
  InState, AnyState, Touches, Touches-refl, Touches-trans, Touches-same, Touches-update,
  state-update, Touches-write, state-write, same_of_test, any-Touches, Processed,
}
use agentpg.Worker.Runs.Settled.Claims.{claimed-found}

-- A run that is done with: its state is one that `Q` allows, or it has failed.
abbrev pub Settled : (RunState → Type 0) → RunState → Type 0
Settled Q state = Q state ⊎ (state ≡ RunState.failed)

-- The runs that are claimed, in the tables after the loop.
abbrev pub AllSettled :
    (RunState → Type 0)
    → (ℕ → RunCall → Option Bytes)
    → Bytes
    → (Run → Step (Unit {0}))
    → ℕ
    → ℕ
    → RunMode
    → (Run → Bool)
    → World
    → Type 0
AllSettled Q breaks error_type process instance_id max mode capable world =
    All
      (λ run.
        InState (Settled Q)
          (process_runs breaks error_type process instance_id max mode capable world) run.id)
      (claim_runs_of instance_id max mode capable world).1

module _ (breaks : ℕ → RunCall → Option Bytes) (error_type : Bytes)
    (process : Run → Step (Unit {0})) (Q : RunState → Type 0)
    (processed : (run : Run) (world : World) → Processed Q run.id world (process run world))
    (fails : (id : ℕ) → breaks id fail_run ≡ none) where
  fail-settles :
      (id : ℕ) (message : Bytes) (world : World)
      → Touches id world (fail breaks error_type id message world)
        × (InState AnyState world id
            → InState (Settled Q) (fail breaks error_type id message world) id)
  unfolding fail failed_run
  fail-settles id message world =
      rw (fail, fails id)
        (
          Touches-write id (failed_run world.db.now error_type message) world (λ row. refl),
          state-write (Settled Q) id (failed_run world.db.now error_type message) world
              (λ row. refl) (λ row. inr refl),
        )

  -- One turn of the loop.
  pub settle-settles :
      (id : ℕ) (world : World) (result : World × Tried (Unit {0}))
      → Processed Q id world result
      → Touches id world (settle breaks error_type id result)
        × (InState AnyState world id → InState (Settled Q) (settle breaks error_type id result) id)
  settle-settles id world (after, ok done) (touched, state) =
      (touched, λ h. let (row, found, q) = state h in (row, found, inl q))
  settle-settles id world (after, err message) touched =
      let (failed, state) = fail-settles id message after in
      (
        Touches-trans id world after (fail breaks error_type id message after) touched failed,
        λ h. state (touched.1 h),
      )

  abbrev Keeps : World → World → Type 0
  Keeps world after =
      ((k : ℕ) → InState AnyState world k → InState AnyState after k)
      × ((k : ℕ) → InState (Settled Q) world k → InState (Settled Q) after k)

  any_of : (world : World) (k : ℕ) → InState (Settled Q) world k → InState AnyState world k
  any_of world k (row, found, q) = (row, found, tt)

  turn-Keeps :
      (id : ℕ) (world after : World)
      → Touches id world after
      → (InState AnyState world id → InState (Settled Q) after id)
      → Keeps world after
  turn-Keeps id world after (others, held) state = (
    λ k h. any-Touches id k world after (others, held) h,
    λ k h. elim (Bool-cases (k == id)) [
      | inl same ↦
          subst (InState (Settled Q) after) (same_of_test k id same) (
            state
              (subst (InState AnyState world) (sym (same_of_test k id same)) (any_of world k h)))
      | inr differs ↦ (h.0, others k differs ∙ h.1, h.2)
    ],
  )

  pub process_each-settles :
      (runs : List Run) (world : World)
      → All (λ run. InState AnyState world run.id) runs
      → All
          (λ run. InState (Settled Q) (process_each breaks error_type process runs world) run.id)
          runs
        × Keeps world (process_each breaks error_type process runs world)
  unfolding process_each
  process_each-settles [] world h = (tt, (λ k g. g, λ k g. g))
  process_each-settles (run ∷ runs) world (h, hs) =
      let (touched, state) =
        settle-settles run.id world (process run world) (processed run world) in
      let next = settle breaks error_type run.id (process run world) in
      let keeps = turn-Keeps run.id world next touched state in
      let (all, still) = process_each-settles runs next (
        All-map (λ r. InState AnyState world r.id) (λ r. InState AnyState next r.id) runs
          (λ r g. keeps.0 r.id g) hs) in
      (
        (still.1 run.id (state h), all),
        (λ k g. still.0 k (keeps.0 k g), λ k g. still.1 k (keeps.1 k g)),
      )

  pub process_runs-settles :
      (instance_id max : ℕ) (mode : RunMode) (capable : Run → Bool) (world : World)
      → breaks instance_id claim_runs ≡ none
      → AllSettled Q breaks error_type process instance_id max mode capable world
  unfolding process_runs
  process_runs-settles instance_id max mode capable world claims =
      let (claimed, runs) = claim_runs_of instance_id max mode capable world in
      rw claims
        (process_each-settles runs claimed (claimed-found instance_id max mode capable world)).0
