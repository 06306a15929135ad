-- ===== src/Ui/Groups/Complete.antt =====
-- Each run of the session has its place in the tree.
use agentpg.Base.{
  ℕ, zero, suc, ◌+◌, ◌≤◌, ◌≡◌, refl, sym, subst, ◌∙◌, inl, inr, Bool, ◌&&◌, List, [], ◌∷◌, All,
  All-map, total, total-ext, total-ext-All, total-add, total-zero, total-one, total-swap, Option,
  none, some, ltb, ◌==◌, if◌then◌else◌, Bool-cases, arith,
}
use agentpg.Driver.{Bytes}
use agentpg.Store.Runs.{Run}
use agentpg.Ui.Summaries.{RunSummary, ToolExecutionSummary, run_to_summary}
use agentpg.Ui.Groups.{
  MessageWithBlocks, RunMessageGroups, no_groups, group, has_parent, is_root_of, belongs, max_depth,
  group_each, build_run_message_groups,
}

-- A sum over the groups of a tree.
abbrev pub weigh : (RunSummary → List MessageWithBlocks → ℕ) → RunMessageGroups → ℕ
weigh w no_groups = 0
weigh w (group run messages depth execs children rest) =
    w run messages + weigh w children + weigh w rest

-- A run at depth 0 has no parent, and any other has one, a single run of the list, one level above.
abbrev pub IsNested : List Run → ℕ → Option ℕ → Type 0
IsNested runs zero none = Unit
IsNested runs zero (some parent) = ⊥
IsNested runs (suc depth) none = ⊥
IsNested runs (suc depth) (some parent) =
    total (λ row. if row.depth == depth && row.id == parent then 1 else 0) runs ≡ 1

root_test :
    (runs : List Run) (d : ℕ) (parent : Option ℕ)
    → IsNested runs d parent
    → (d == 0 && is_root_of parent) ≡ (d == 0)
root_test runs zero none nested = refl
root_test runs zero (some parent) nested = absurd nested
root_test runs (suc d) parent nested = ground arith

pub bounded :
    (runs : List Run) (bound : ℕ) → max_depth runs ≤ bound → All (λ run. run.depth ≤ bound) runs
unfolding max_depth
bounded [] bound h = tt
bounded (run ∷ runs) bound h = (ground arith, bounded runs bound (ground arith))

module _ (name_of : ℕ → Bytes) (messages : ℕ → List MessageWithBlocks)
    (execs : ℕ → List ToolExecutionSummary) (w : RunSummary → List MessageWithBlocks → ℕ)
    (runs : List Run) where
  abbrev build : ℕ → ℕ → Option ℕ → RunMessageGroups
  build fuel depth parent = build_run_message_groups name_of messages execs fuel runs depth parent

  abbrev term : Run → ℕ
  term run = w (run_to_summary name_of run) (messages run.id)

  weigh-each :
      (children : ℕ → RunMessageGroups) (depth : ℕ) (parent : Option ℕ) (rows : List Run)
      → weigh w (group_each name_of messages execs children depth parent rows)
        ≡ total
            (λ run. if belongs depth parent run then term run + weigh w (children run.id) else 0)
            rows
  unfolding group_each
  weigh-each children depth parent [] = refl
  weigh-each children depth parent (run ∷ rows) = elim (Bool-cases (belongs depth parent run)) [
    | inl here ↦ rw here (omega (arith, weigh-each children depth parent rows))
    | inr other ↦ rw other (omega (arith, weigh-each children depth parent rows))
  ]

  -- What stands below the runs of one depth.
  abbrev below : ℕ → ℕ → ℕ
  below fuel depth =
      total
        (λ run. if run.depth == depth then weigh w (build fuel (suc depth) (some run.id)) else 0)
        runs

  abbrev deeper : ℕ → ℕ
  deeper depth = total (λ run. if ltb depth run.depth then term run else 0) runs

  abbrev with_children : ℕ → ℕ → Run → ℕ
  with_children fuel depth run = term run + weigh w (build fuel (suc depth) (some run.id))

  -- Each run one level down is counted under its parent.
  abbrev under : ℕ → ℕ → Option ℕ → Run → Bool
  under depth d parent run =
      run.depth == depth && (d == suc depth && has_parent (some run.id) parent)

  one_above :
      (depth : ℕ) (parent : Option ℕ) (v : ℕ)
      → IsNested runs (suc depth) parent
      → total (λ run. if under depth (suc depth) parent run then v else 0) runs ≡ v
  one_above depth none v nested = absurd nested
  one_above depth (some parent) v nested =
      total-ext (λ run. if under depth (suc depth) (some parent) run then v else 0)
        (λ run. if run.depth == depth && run.id == parent then v else 0) runs (λ run. ground arith)
      ∙ total-one (λ run. run.depth == depth && run.id == parent) v runs nested

  one_parent :
      (depth d : ℕ) (parent : Option ℕ) (v : ℕ)
      → IsNested runs d parent
      → total (λ run. if under depth d parent run then v else 0) runs
        ≡ (if d == suc depth then v else 0)
  one_parent depth d parent v nested = elim (Bool-cases (d == suc depth)) [
    | inl down ↦
        let e : suc depth ≡ d = ground arith in
        subst
          (λ n.
            total (λ run. if under depth n parent run then v else 0) runs
            ≡ (if n == suc depth then v else 0))
          e
          (one_above depth parent v (subst (λ n. IsNested runs n parent) (sym e) nested)
            ∙ ground arith)
    | inr elsewhere ↦
        total-ext (λ run. if under depth d parent run then v else 0) (λ run. 0) runs
          (λ run. ground arith)
        ∙ total-zero runs
        ∙ rw elsewhere refl
  ]

  abbrev Nested : Run → Type 0
  Nested run = IsNested runs run.depth run.parent_run_id

  -- The children of one run, as a sum over all runs.
  below-row :
      (fuel depth : ℕ) (run : Run)
      → (if run.depth == depth then weigh w (build (suc fuel) (suc depth) (some run.id)) else 0)
        ≡ total
            (λ child.
              if under depth child.depth child.parent_run_id run
              then with_children fuel (suc depth) child
              else 0)
            runs
  unfolding build_run_message_groups
  below-row fuel depth run = elim (Bool-cases (run.depth == depth)) [
    | inl here ↦ rw here (
        weigh-each (λ id. build fuel (suc (suc depth)) (some id)) (suc depth) (some run.id) runs
        ∙ total-ext _ _ runs (λ child. refl))
    | inr other ↦ rw other (sym (total-ext _ (λ child. 0) runs (λ child. refl) ∙ total-zero runs))
  ]

  level :
      (fuel depth : ℕ)
      → All Nested runs
      → below (suc fuel) depth
        ≡ total
            (λ run. if run.depth == suc depth then with_children fuel (suc depth) run else 0)
            runs
  level fuel depth nested =
      let cell : Run → Run → ℕ = λ run child.
        if under depth child.depth child.parent_run_id run
        then with_children fuel (suc depth) child
        else 0 in
      total-ext
        (λ run.
          if run.depth == depth then weigh w (build (suc fuel) (suc depth) (some run.id)) else 0)
        (λ run. total (cell run) runs) runs (λ run. below-row fuel depth run)
      ∙ total-swap cell runs runs
      ∙ total-ext-All (λ child. total (λ run. cell run child) runs)
          (λ child. if child.depth == suc depth then with_children fuel (suc depth) child else 0)
          runs
          (All-map Nested _ runs
            (λ child h.
              one_parent depth child.depth child.parent_run_id
                (with_children fuel (suc depth) child) h)
            nested)

  at_depth-split :
      (fuel depth : ℕ)
      → total (λ run. if run.depth == depth then with_children fuel depth run else 0) runs
        ≡ total (λ run. if run.depth == depth then term run else 0) runs + below fuel depth
  at_depth-split fuel depth =
      total-ext (λ run. if run.depth == depth then with_children fuel depth run else 0)
        (λ run.
          (if run.depth == depth then term run else 0)
          + (if run.depth == depth then weigh w (build fuel (suc depth) (some run.id)) else 0))
        runs
        (λ run. elim (Bool-cases (run.depth == depth)) [
          | inl here ↦ rw here refl
          | inr other ↦ rw other (omega arith)
        ])
      ∙ total-add _ _ runs

  deeper-split :
      (depth : ℕ)
      → total (λ run. if run.depth == suc depth then term run else 0) runs + deeper (suc depth)
        ≡ deeper depth
  deeper-split depth =
      sym (
        total-add (λ run. if run.depth == suc depth then term run else 0)
          (λ run. if ltb (suc depth) run.depth then term run else 0) runs)
      ∙ total-ext _ _ runs (λ run. ground arith)

  -- All runs below a depth, where the fuel reaches the deepest.
  below-deeper :
      (fuel depth : ℕ)
      → All Nested runs
      → max_depth runs ≤ depth + fuel
      → below fuel depth ≡ deeper depth
  unfolding build_run_message_groups
  below-deeper zero depth nested enough =
      total-ext _ (λ run. 0) runs (λ run. ground arith)
      ∙ total-zero runs
      ∙ sym (
          total-ext-All (λ run. if ltb depth run.depth then term run else 0) (λ run. 0) runs
            (All-map (λ run. run.depth ≤ depth) _ runs (λ run low. ground arith)
              (bounded runs depth (omega arith)))
          ∙ total-zero runs)
  below-deeper (suc fuel) depth nested enough =
      level fuel depth nested
      ∙ at_depth-split fuel (suc depth)
      ∙ omega (arith, below-deeper fuel (suc depth) nested (omega arith), deeper-split depth)

  -- Every run has its place in the tree, once, with its own messages: a sum over the tree is the sum over
  -- the runs. The fuel is more than the greatest depth.
  pub build-weigh :
      (fuel : ℕ)
      → All Nested runs
      → max_depth runs ≤ fuel
      → weigh w (build (suc fuel) 0 none) ≡ total term runs
  unfolding build_run_message_groups
  build-weigh fuel nested enough =
      weigh-each (λ id. build fuel 1 (some id)) 0 none runs
      ∙ total-ext-All _ (λ run. if run.depth == 0 then with_children fuel 0 run else 0) runs
          (All-map Nested _ runs (λ run h. rw (root_test runs run.depth run.parent_run_id h) refl)
            nested)
      ∙ at_depth-split fuel 0
      ∙ omega (arith, below-deeper fuel 0 nested (omega arith), whole)
    where
      whole :
          total (λ run. if run.depth == 0 then term run else 0) runs + deeper 0 ≡ total term runs
      whole =
          sym (
            total-add (λ run. if run.depth == 0 then term run else 0)
              (λ run. if ltb 0 run.depth then term run else 0) runs)
          ∙ total-ext _ term runs (λ run. ground arith)
