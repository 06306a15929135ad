-- ===== src/Store/Instances/Counts/Grouped.antt =====
-- The counts of all instances and those of one.
use mathlib.Core.Option
use agentpg.Base.{
  ℕ, suc, ◌≡◌, refl, ap, subst, ◌∙◌, inl, inr, Bool, true, false, ◌||◌, List, [], ◌∷◌, Option, none,
  some, ◌==◌, if◌then◌else◌, Bool-cases, arith,
}
use agentpg.Store.Runs.{Run, run_is_terminal, ToolExecution}
use agentpg.Store.World.{World, is_running}
use agentpg.Store.Instances.{is_held}
use agentpg.Store.Instances.Counts.{
  active_runs, active_tools, get_instance_active_counts, tally, tally_claim, count_runs,
  count_tools, set_runs, set_tools, put_count, put_counts, get_all_instance_active_counts,
}

-- The entry of an instance; without one it has none of either.
abbrev pub counts_at : ℕ → List (ℕ × (ℕ × ℕ)) → ℕ × ℕ
counts_at id [] = (0, 0)
counts_at id ((k, counts) ∷ result) = if k == id then counts else counts_at id result

abbrev count_at : ℕ → List (ℕ × ℕ) → ℕ
count_at id [] = 0
count_at id ((k, n) ∷ rows) = if k == id then n else count_at id rows

abbrev has_key : ℕ → List (ℕ × ℕ) → Bool
has_key id [] = false
has_key id ((k, n) ∷ rows) = k == id || has_key id rows

abbrev Keyed : List (ℕ × ℕ) → Type 0
Keyed [] = Unit
Keyed ((k, n) ∷ rows) = (has_key k rows ≡ false) × Keyed rows

has_key-tally :
    (id key : ℕ) (rows : List (ℕ × ℕ))
    → has_key id (tally key rows) ≡ (key == id || has_key id rows)
unfolding tally
has_key-tally id key [] = refl
has_key-tally id key ((k, n) ∷ rows) = ground (arith, has_key-tally id key rows)

tally-Keyed : (key : ℕ) (rows : List (ℕ × ℕ)) → Keyed rows → Keyed (tally key rows)
unfolding tally
tally-Keyed key [] h = (refl, tt)
tally-Keyed key ((k, n) ∷ rows) (h, hs) =
    ground (arith, has_key-tally k key rows, tally-Keyed key rows hs)

count_at-tally :
    (id key : ℕ) (rows : List (ℕ × ℕ))
    → count_at id (tally key rows)
      ≡ (if key == id then suc (count_at id rows) else count_at id rows)
unfolding tally
count_at-tally id key [] = ground arith
count_at-tally id key ((k, n) ∷ rows) = ground (arith, count_at-tally id key rows)

count_at-claim :
    (id : ℕ) (claim : Option ℕ) (rows : List (ℕ × ℕ))
    → count_at id (tally_claim claim rows)
      ≡ (if is_held id claim then suc (count_at id rows) else count_at id rows)
count_at-claim id none rows = refl
count_at-claim id (some key) rows = count_at-tally id key rows

claim-Keyed : (claim : Option ℕ) (rows : List (ℕ × ℕ)) → Keyed rows → Keyed (tally_claim claim rows)
claim-Keyed none rows h = h
claim-Keyed (some key) rows h = tally-Keyed key rows h

count_at-runs : (id : ℕ) (runs : List Run) → count_at id (count_runs runs) ≡ active_runs id runs
unfolding count_runs
count_at-runs id [] = refl
count_at-runs id (run ∷ runs) =
    ground
      (arith, count_at-runs id runs, count_at-claim id run.claimed_by_instance_id (count_runs runs))

runs-Keyed : (runs : List Run) → Keyed (count_runs runs)
unfolding count_runs
runs-Keyed [] = tt
runs-Keyed (run ∷ runs) = elim (Bool-cases (run_is_terminal run.state)) [
  | inl ended ↦ rw ended (runs-Keyed runs)
  | inr open_ ↦
      rw open_ (claim-Keyed run.claimed_by_instance_id (count_runs runs) (runs-Keyed runs))
]

count_at-tools :
    (id : ℕ) (tools : List ToolExecution) → count_at id (count_tools tools) ≡ active_tools id tools
unfolding count_tools
count_at-tools id [] = refl
count_at-tools id (exec ∷ tools) = ground (
  arith,
  count_at-tools id tools,
  count_at-claim id exec.claimed_by_instance_id (count_tools tools),
)

tools-Keyed : (tools : List ToolExecution) → Keyed (count_tools tools)
unfolding count_tools
tools-Keyed [] = tt
tools-Keyed (exec ∷ tools) = elim (Bool-cases (is_running exec.state)) [
  | inl runs ↦
      rw runs (claim-Keyed exec.claimed_by_instance_id (count_tools tools) (tools-Keyed tools))
  | inr ended ↦ rw ended (tools-Keyed tools)
]

module _ (change : ℕ → ℕ × ℕ → ℕ × ℕ) (id : ℕ) where
  put_lem :
      (key n : ℕ) (result : List (ℕ × (ℕ × ℕ)))
      → counts_at id (put_count change key n result)
        ≡ (if key == id then change n (counts_at id result) else counts_at id result)
  unfolding put_count
  put_lem key n [] = ground arith
  put_lem key n ((k, counts) ∷ result) = ground (arith, put_lem key n result)

  put_counts-absent :
      (rows : List (ℕ × ℕ)) (result : List (ℕ × (ℕ × ℕ)))
      → has_key id rows ≡ false
      → counts_at id (put_counts change rows result) ≡ counts_at id result
  unfolding put_counts
  put_counts-absent [] result h = refl
  put_counts-absent ((k, n) ∷ rows) result h =
      ground (arith, put_counts-absent rows (put_count change k n result), put_lem k n result)

  -- Rows with a key each are written once.
  put_counts_lem :
      (rows : List (ℕ × ℕ)) (result : List (ℕ × (ℕ × ℕ)))
      → Keyed rows
      → counts_at id (put_counts change rows result) ≡ (
          if has_key id rows
          then change (count_at id rows) (counts_at id result)
          else counts_at id result)
  unfolding put_counts
  put_counts_lem [] result h = refl
  put_counts_lem ((k, n) ∷ rows) result (h, hs) = elim (Bool-cases (k == id)) [
    | inl here ↦
        let e : k ≡ id = ground arith in
        let absent = subst (λ j. has_key j rows ≡ false) e h in
        put_counts-absent rows (put_count change k n result) absent
        ∙ put_lem k n result
        ∙ rw here refl
    | inr there ↦
        let same : counts_at id (put_count change k n result) ≡ counts_at id result =
          put_lem k n result ∙ rw there refl in
        put_counts_lem rows (put_count change k n result) hs ∙ rw (same, there) refl
  ]

count_at-absent : (id : ℕ) (rows : List (ℕ × ℕ)) → has_key id rows ≡ false → count_at id rows ≡ 0
count_at-absent id [] h = refl
count_at-absent id ((k, n) ∷ rows) h = ground (arith, count_at-absent id rows)

runs_only :
    (id : ℕ) (rows : List (ℕ × ℕ))
    → Keyed rows
    → counts_at id (put_counts set_runs rows []) ≡ (count_at id rows, 0)
runs_only id rows h = put_counts_lem set_runs id rows [] h ∙ elim (Bool-cases (has_key id rows)) [
  | inl there ↦ rw there refl
  | inr absent ↦ rw (absent, count_at-absent id rows absent) refl
]

tools_too :
    (id n : ℕ) (rows : List (ℕ × ℕ)) (result : List (ℕ × (ℕ × ℕ)))
    → Keyed rows
    → counts_at id result ≡ (n, 0)
    → counts_at id (put_counts set_tools rows result) ≡ (n, count_at id rows)
tools_too id n rows result h before =
    put_counts_lem set_tools id rows result h ∙ elim (Bool-cases (has_key id rows)) [
      | inl there ↦ rw (there, before) refl
      | inr absent ↦ rw (absent, before, count_at-absent id rows absent) refl
    ]

counted :
    (id : ℕ) (world : World)
    → counts_at id (
        put_counts set_tools
          (count_tools world.tools)
          (put_counts set_runs (count_runs world.runs) []))
      ≡ (active_runs id world.runs, active_tools id world.tools)
counted id world =
    let before =
      runs_only id (count_runs world.runs) (runs-Keyed world.runs)
      ∙ ap (λ (n : ℕ). (n, 0)) (count_at-runs id world.runs) in
    tools_too id (active_runs id world.runs) (count_tools world.tools)
      (put_counts set_runs (count_runs world.runs) []) (tools-Keyed world.tools) before
    ∙ ap (λ (n : ℕ). (active_runs id world.runs, n)) (count_at-tools id world.tools)

-- The entry of an instance in the counts of all instances is what the counts of that one say; and the
-- one call fails where the other does.
pub get_all-counts :
    (first second : Bool) (id : ℕ) (world : World)
    → Option.map (counts_at id) (get_all_instance_active_counts first second world)
      ≡ get_instance_active_counts first second id world
unfolding get_all_instance_active_counts get_instance_active_counts
get_all-counts true second id world = refl
get_all-counts false true id world = refl
get_all-counts false false id world = ap some (counted id world)
