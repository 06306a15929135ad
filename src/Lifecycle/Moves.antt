-- ===== src/Lifecycle/Moves.antt =====
-- Tables before and after, of which each run has moved along a path of its life.
use mathlib.Core.Option
use agentpg.Base.{
  ℕ, ◌≡◌, refl, sym, ap, subst, ◌∙◌, inl, inr, List, [], ◌∷◌, map, some, ◌==◌, Bool-cases, arith,
}
use agentpg.Store.Runs.{Run, RunState}
use agentpg.Store.World.{World, find_run}
use agentpg.Worker.Runs.Settled.Touching.{InState, Touches, same_of_test}
use agentpg.Lifecycle.{Life, here, Life-trans}

abbrev pub Moved : RunState → World → ℕ → Type 0
Moved state after = InState (Life state) after

-- Every run that is found is found again, in a state that its life leads to.
abbrev pub Moves : World → World → Type 0
Moves world after = (k : ℕ) (row : Run) → find_run k world.runs ≡ some row → Moved row.state after k

pub Moves-refl : (world : World) → Moves world world
Moves-refl world k row found = (row, found, here)

pub Moves-trans : (a b c : World) → Moves a b → Moves b c → Moves a c
Moves-trans a b c ab bc k row found =
    let (row', found', life) = ab k row found in
    let (row'', found'', more) = bc k row' found' in (row'', found'', Life-trans life more)

-- One run is touched.
pub Moves-touch :
    (id : ℕ) (world after : World) (row : Run)
    → Touches id world after
    → find_run id world.runs ≡ some row
    → Moved row.state after id
    → Moves world after
Moves-touch id world after row (others, held) at_id moved k other found =
    elim (Bool-cases (k == id)) [
      | inl same ↦
          subst (λ (n : ℕ). (o : Run) → find_run n world.runs ≡ some o → Moved o.state after n)
            (same_of_test k id same)
            (λ o at_o.
              subst (λ (r : Run). Moved r.state after id)
                (Option.some-injective row o (sym at_id ∙ at_o)) moved)
            other found
      | inr differs ↦ (other, others k differs ∙ found, here)
    ]

pub find-map :
    (f : Run → Run) (k : ℕ) (runs : List Run)
    → ((row : Run) → (f row).id ≡ row.id)
    → find_run k (map f runs) ≡ Option.map f (find_run k runs)
unfolding find_run
find-map f k [] keeps = refl
find-map f k (row ∷ rows) keeps = ground (arith, keeps row, find-map f k rows keeps)

-- All rows are changed.
pub Moves-map :
    (f : Run → Run) (world after : World)
    → ((row : Run) → (f row).id ≡ row.id)
    → ((row : Run) → Life row.state (f row).state)
    → after.runs ≡ map f world.runs
    → Moves world after
Moves-map f world after keeps lives same k row found = (
  f row,
  ap (find_run k) same ∙ find-map f k world.runs keeps ∙ ap (Option.map f) found,
  lives row,
)
