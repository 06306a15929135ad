-- ===== src/Ui/Groups/Enough.antt =====
-- The depth of the recursion: more fuel than the greatest depth changes nothing.
use agentpg.Base.{
  ℕ, zero, suc, ◌+◌, ◌≤◌, ◌≡◌, refl, ap, ◌∙◌, false, List, [], ◌∷◌, All, All-map, Option, none,
  some, arith,
}
use agentpg.Driver.{Bytes}
use agentpg.Store.Runs.{Run}
use agentpg.Ui.Summaries.{ToolExecutionSummary}
use agentpg.Ui.Groups.{
  MessageWithBlocks, RunMessageGroups, no_groups, belongs, max_depth, group_each,
  build_run_message_groups,
}
use agentpg.Ui.Groups.Complete.{bounded}
use mathlib.Core.Path.{fun_ext}

module _ (name_of : ℕ → Bytes) (messages : ℕ → List MessageWithBlocks)
    (execs : ℕ → List ToolExecutionSummary) (runs : List Run) where
  abbrev build : ℕ → ℕ → Option ℕ → RunMessageGroups
  build fuel depth parent = build_run_message_groups name_of messages execs fuel runs depth parent

  each-none :
      (children : ℕ → RunMessageGroups) (depth : ℕ) (parent : Option ℕ) (rows : List Run)
      → All (λ run. belongs depth parent run ≡ false) rows
      → group_each name_of messages execs children depth parent rows ≡ no_groups
  unfolding group_each
  each-none children depth parent [] h = refl
  each-none children depth parent (run ∷ rows) (h, hs) =
      rw h (each-none children depth parent rows hs)

  -- One level more makes no difference below the deepest run.
  build-suc :
      (fuel depth : ℕ) (parent : Option ℕ)
      → max_depth runs ≤ depth + fuel
      → build (suc fuel) (suc depth) parent ≡ build fuel (suc depth) parent
  unfolding build_run_message_groups
  build-suc zero depth parent enough =
      each-none (λ id. no_groups) (suc depth) parent runs
        (All-map (λ run. run.depth ≤ depth) _ runs (λ run low. ground arith)
          (bounded runs depth (omega arith)))
  build-suc (suc fuel) depth parent enough =
      ap (λ children. group_each name_of messages execs children (suc depth) parent runs)
        (fun_ext (λ id. build-suc fuel (suc depth) (some id) (omega arith)))

  -- Any fuel from the greatest depth on builds the same tree.
  pub build-enough :
      (more fuel : ℕ)
      → max_depth runs ≤ fuel
      → build (suc (more + fuel)) 0 none ≡ build (suc fuel) 0 none
  unfolding build_run_message_groups
  build-enough zero fuel enough = ap (λ n. build (suc n) 0 none) (omega arith)
  build-enough (suc more) fuel enough =
      let next : suc more + fuel ≡ suc (more + fuel) = omega arith in
      ap (λ n. build (suc n) 0 none) next
      ∙ ap (λ children. group_each name_of messages execs children 0 none runs)
          (fun_ext (λ id. build-suc (more + fuel) 0 (some id) (omega arith)))
      ∙ build-enough more fuel enough
