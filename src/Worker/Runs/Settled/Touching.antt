-- ===== src/Worker/Runs/Settled/Touching.antt =====
-- Code that touches one run: the others are as before, and the run stays in the table.
use mathlib.Core.Option
use agentpg.Base.{
  ℕ, ◌≡◌, refl, sym, ap, subst, ◌∙◌, inl, inr, true, false, List, some, ◌==◌, Bool-cases, arith,
}
use agentpg.Store.Runs.{Run, Iteration, RunState, update_run}
use agentpg.Store.World.{World, find_run, write_run}
use agentpg.Store.World.Rows.{find-update, find-update_other}
use agentpg.Worker.Runs.{Tried, ok, err}

-- The run is in the table, in a state that `Q` allows.
abbrev pub InState : (RunState → Type 0) → World → ℕ → Type 0
InState Q world id = (row : Run) × (find_run id world.runs ≡ some row) × Q row.state

abbrev pub AnyState : RunState → Type 0
AnyState state = Unit

-- Other runs are as before, and the run is still there.
abbrev pub Touches : ℕ → World → World → Type 0
Touches id world after =
    ((k : ℕ) → (k == id) ≡ false → find_run k after.runs ≡ find_run k world.runs)
    × (InState AnyState world id → InState AnyState after id)

-- A processing of the run: where it succeeds, its state is one of `Q`.
abbrev pub Processed {ℓ} : {A : Type ℓ} → (RunState → Type 0) → ℕ → World → World × Tried A → Type 0
Processed Q id world (after, ok done) =
    Touches id world after × (InState AnyState world id → InState Q after id)
Processed Q id world (after, err message) = Touches id world after

pub Touches-refl : (id : ℕ) (world : World) → Touches id world world
Touches-refl id world = (λ k differs. refl, λ h. h)

pub Touches-trans : (id : ℕ) (a b c : World) → Touches id a b → Touches id b c → Touches id a c
Touches-trans id a b c (ab, hold) (bc, hold') =
    (λ k differs. bc k differs ∙ ab k differs, λ h. hold' (hold h))

-- Tables with the same runs.
pub Touches-same : (id : ℕ) (world after : World) → after.runs ≡ world.runs → Touches id world after
Touches-same id world after same = (
  λ k differs. ap (find_run k) same,
  λ (row, found, any). (row, ap (find_run id) same ∙ found, any),
)

pub Touches-iterations :
    (id : ℕ) (iterations : List Iteration) (world : World)
    → Touches id world (record world { iterations = iterations })
Touches-iterations id iterations world =
    Touches-same id world (record world { iterations = iterations }) refl

pub Touches-update :
    (id : ℕ) (f : Run → Run) (world after : World)
    → ((row : Run) → (f row).id ≡ row.id)
    → after.runs ≡ update_run id f world.runs
    → Touches id world after
Touches-update id f world after keeps same = (
  λ k differs. ap (find_run k) same ∙ find-update_other id k f world.runs keeps differs,
  λ (row, found, any). (
    f row,
    ap (find_run id) same ∙ find-update id f world.runs keeps ∙ ap (Option.map f) found,
    any,
  ),
)

pub state-update :
    (Q : RunState → Type 0) (id : ℕ) (f : Run → Run) (world after : World)
    → ((row : Run) → (f row).id ≡ row.id)
    → ((row : Run) → Q (f row).state)
    → after.runs ≡ update_run id f world.runs
    → InState AnyState world id
    → InState Q after id
state-update Q id f world after keeps states same (row, found, any) = (
  f row,
  ap (find_run id) same ∙ find-update id f world.runs keeps ∙ ap (Option.map f) found,
  states row,
)

pub Touches-write :
    (id : ℕ) (f : Run → Run) (world : World)
    → ((row : Run) → (f row).id ≡ row.id)
    → Touches id world (write_run id f world)
unfolding write_run
Touches-write id f world keeps = Touches-update id f world (write_run id f world) keeps refl

pub state-write :
    (Q : RunState → Type 0) (id : ℕ) (f : Run → Run) (world : World)
    → ((row : Run) → (f row).id ≡ row.id)
    → ((row : Run) → Q (f row).state)
    → InState AnyState world id
    → InState Q (write_run id f world) id
unfolding write_run
state-write Q id f world keeps states =
    state-update Q id f world (write_run id f world) keeps states refl

pub same_of_test : (k id : ℕ) → (k == id) ≡ true → id ≡ k
same_of_test k id h = ground arith

pub any-Touches :
    (id k : ℕ) (world after : World)
    → Touches id world after
    → InState AnyState world k
    → InState AnyState after k
any-Touches id k world after (others, held) h = elim (Bool-cases (k == id)) [
  | inl same ↦
      subst (InState AnyState after) (same_of_test k id same)
        (held (subst (InState AnyState world) (sym (same_of_test k id same)) h))
  | inr differs ↦ (h.0, others k differs ∙ h.1, tt)
]
