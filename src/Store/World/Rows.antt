-- ===== src/Store/World/Rows.antt =====
-- Which rows an update of one run reaches.
use mathlib.Core.Option
use agentpg.Base.{
  ℕ, ◌≡◌, refl, sym, subst, ◌∙◌, inl, inr, true, false, List, [], ◌∷◌, ◌++◌, none, some, ◌==◌,
  Bool-cases, arith,
}
use agentpg.Store.Runs.{Run, update_run}
use agentpg.Store.World.{find_run}

pub find-here :
    (id : ℕ) (row : Run) (rows : List Run)
    → (row.id == id) ≡ true
    → find_run id (row ∷ rows) ≡ some row
unfolding find_run
find-here id row rows h = rw h refl

pub find-next :
    (id : ℕ) (row : Run) (rows : List Run)
    → (row.id == id) ≡ false
    → find_run id (row ∷ rows) ≡ find_run id rows
unfolding find_run
find-next id row rows h = rw h refl

pub find-append :
    (id : ℕ) (runs : List Run) (run : Run)
    → find_run id runs ≡ none
    → (run.id == id) ≡ true
    → find_run id (runs ++ run ∷ []) ≡ some run
unfolding find_run
find-append id [] run h same = rw same refl
find-append id (row ∷ rows) run h same = ground (arith, find-append id rows run)

pub find-id : (id : ℕ) (runs : List Run) (run : Run) → find_run id runs ≡ some run → id ≡ run.id
unfolding find_run
find-id id [] run found = absurd cc
find-id id (row ∷ rows) run found = elim (Bool-cases (row.id == id)) [
  | inl here ↦
      let e = Option.some-injective row run (sym (find-here id row rows here) ∙ found) in
      subst (λ r. id ≡ r.id) e (ground arith)
  | inr there ↦ find-id id rows run (sym (find-next id row rows there) ∙ found)
]

-- An update that leaves the identifiers reaches the row that is found under its own.
pub find-update :
    (id : ℕ) (f : Run → Run) (runs : List Run)
    → ((row : Run) → (f row).id ≡ row.id)
    → find_run id (update_run id f runs) ≡ Option.map f (find_run id runs)
unfolding find_run
find-update id f [] keeps = refl
find-update id f (row ∷ rows) keeps = elim (Bool-cases (row.id == id)) [
  | inl same ↦ rw (same, keeps row, same) refl
  | inr other ↦ rw (other, other) (find-update id f rows keeps)
]

pub find-update_other :
    (id other : ℕ) (f : Run → Run) (runs : List Run)
    → ((row : Run) → (f row).id ≡ row.id)
    → (other == id) ≡ false
    → find_run other (update_run id f runs) ≡ find_run other runs
unfolding find_run
find-update_other id other f [] keeps differ = refl
find-update_other id other f (row ∷ rows) keeps differ =
    ground (arith, keeps row, find-update_other id other f rows keeps differ)
