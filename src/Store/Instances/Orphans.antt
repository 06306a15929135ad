-- ===== src/Store/Instances/Orphans.antt =====
-- What the clean-up after one instance does to its runs and executions.
use agentpg.Base.{
  ℕ, ◌≡◌, refl, subst, inl, inr, ◌⊎◌, Bool, true, false, not, ◌&&◌, ◌||◌, List, [], ◌∷◌, map, All,
  Option, none, some, ◌==◌, Bool-cases, arith,
}
use agentpg.Driver.{Bytes}
use agentpg.Store.Runs.{Run, run_is_terminal, ToolExecution}
use agentpg.Store.World.{
  World, child_completed, complete_parent, handle_child_run_complete, is_running, update_tool,
}
use agentpg.Store.Instances.{
  is_held, orphaned_run, orphaned_tool, fire_each, cleanup_orphaned_work, orphan_all,
}

-- One of the instances holds it.
abbrev pub any_holds : List ℕ → Option ℕ → Bool
any_holds [] claim = false
any_holds (id ∷ ids) claim = is_held id claim || any_holds ids claim

-- No execution runs of those that `q` picks by identifier and holder.
abbrev pub Idle : (ℕ → Option ℕ → Bool) → List ToolExecution → Type 0
Idle q = All (λ exec. (is_running exec.state && q exec.id exec.claimed_by_instance_id) ≡ false)

abbrev pub ParentIdle : Option ℕ → List ToolExecution → Type 0
ParentIdle none tools = Unit
ParentIdle (some id) tools = Idle (λ k claim. k == id) tools

-- A change of executions that starts none.
abbrev StartsNone : (List ToolExecution → List ToolExecution) → Type 0
StartsNone change =
    (q : ℕ → Option ℕ → Bool) (tools : List ToolExecution) → Idle q tools → Idle q (change tools)

pub parent-StartsNone :
    (change : List ToolExecution → List ToolExecution) (parent : Option ℕ)
    (tools : List ToolExecution)
    → StartsNone change
    → ParentIdle parent tools
    → ParentIdle parent (change tools)
parent-StartsNone change none tools starts h = tt
parent-StartsNone change (some id) tools starts h = starts (λ k claim. k == id) tools h

completed-StartsNone :
    (now : ℕ) (run : Run) (id : ℕ) → StartsNone (update_tool id (child_completed now run))
unfolding child_completed
completed-StartsNone now run id q [] h = tt
completed-StartsNone now run id q (exec ∷ tools) (h, hs) =
    (ground arith, completed-StartsNone now run id q tools hs)

child-StartsNone : (now : ℕ) (old new : Run) → StartsNone (handle_child_run_complete now old new)
unfolding handle_child_run_complete
child-StartsNone now old new q tools h =
    elim (Bool-cases (run_is_terminal new.state && not (run_is_terminal old.state))) [
      | inl ends ↦ rw ends (at_parent new.parent_tool_execution_id)
      | inr goes_on ↦ rw goes_on h
    ]
  where
    at_parent : (parent : Option ℕ) → Idle q (complete_parent now new parent tools)
    at_parent none = h
    at_parent (some id) = completed-StartsNone now new id q tools h

fire-StartsNone : (now : ℕ) (f : Run → Run) (runs : List Run) → StartsNone (fire_each now f runs)
unfolding fire_each
fire-StartsNone now f [] q tools h = h
fire-StartsNone now f (run ∷ runs) q tools h =
    fire-StartsNone now f runs q (handle_child_run_complete now run (f run) tools)
      (child-StartsNone now run (f run) q tools h)

-- The execution that the run was made for has ended with the run.
completed-Idle :
    (now : ℕ) (run : Run) (id : ℕ) (tools : List ToolExecution)
    → Idle (λ k claim. k == id) (update_tool id (child_completed now run) tools)
unfolding child_completed
completed-Idle now run id [] = tt
completed-Idle now run id (exec ∷ tools) = (ground arith, completed-Idle now run id tools)

child-Idle :
    (now : ℕ) (old new : Run) (tools : List ToolExecution)
    → run_is_terminal new.state ≡ true
    → run_is_terminal old.state ≡ false
    → ParentIdle new.parent_tool_execution_id (handle_child_run_complete now old new tools)
unfolding handle_child_run_complete
child-Idle now old new tools ended open_ =
    rw (ended, open_) (at_parent new.parent_tool_execution_id)
  where
    at_parent : (parent : Option ℕ) → ParentIdle parent (complete_parent now new parent tools)
    at_parent none = tt
    at_parent (some id) = completed-Idle now new id tools

abbrev pub loses : ℕ → Run → Bool
loses id run = is_held id run.claimed_by_instance_id && not (run_is_terminal run.state)

module _ (text_of : ℕ → Bytes) (now : ℕ) where
  pub tool-StartsNone : (id : ℕ) → StartsNone (map (orphaned_tool text_of now id))
  unfolding orphaned_tool
  tool-StartsNone id q [] h = tt
  tool-StartsNone id q (exec ∷ tools) (h, hs) = (ground arith, tool-StartsNone id q tools hs)

  -- No execution of the instance runs on.
  tool-Idle :
      (id : ℕ) (tools : List ToolExecution)
      → Idle (λ k claim. is_held id claim) (map (orphaned_tool text_of now id) tools)
  unfolding orphaned_tool
  tool-Idle id [] = tt
  tool-Idle id (exec ∷ tools) = (ground arith, tool-Idle id tools)

  orphaned-parent :
      (id : ℕ) (run : Run)
      → (orphaned_run text_of now id run).parent_tool_execution_id ≡ run.parent_tool_execution_id
  unfolding orphaned_run
  orphaned-parent id run = elim (Bool-cases (loses id run)) [
    | inl lost ↦ rw (orphaned_run, lost) refl
    | inr kept ↦ rw (orphaned_run, kept) refl
  ]

  pub orphaned-same :
      (id : ℕ) (run : Run) → loses id run ≡ false → orphaned_run text_of now id run ≡ run
  unfolding orphaned_run
  orphaned-same id run kept = rw kept refl

  lost-told :
      (id : ℕ) (run : Run) (tools : List ToolExecution)
      → loses id run ≡ true
      → ParentIdle run.parent_tool_execution_id
          (handle_child_run_complete now run (orphaned_run text_of now id run) tools)
  unfolding orphaned_run run_is_terminal
  lost-told id run tools lost =
      let new = orphaned_run text_of now id run in
      let ended : run_is_terminal new.state ≡ true = rw (orphaned_run, lost) refl in
      let open_ : run_is_terminal run.state ≡ false = ground arith in
      subst (λ parent. ParentIdle parent (handle_child_run_complete now run new tools))
        (orphaned-parent id run) (child-Idle now run new tools ended open_)

  -- Where the run is lost, its parent is told.
  pub fire-Idle :
      (id : ℕ) (runs : List Run) (tools : List ToolExecution)
      → All
          (λ run.
            (loses id run ≡ false)
            ⊎ ParentIdle run.parent_tool_execution_id
                (fire_each now (orphaned_run text_of now id) runs tools))
          runs
  unfolding fire_each
  fire-Idle id [] tools = tt
  fire-Idle id (run ∷ runs) tools =
      let next = handle_child_run_complete now run (orphaned_run text_of now id run) tools in
      (
        elim (Bool-cases (loses id run)) [
          | inl lost ↦ inr (
              parent-StartsNone (fire_each now (orphaned_run text_of now id) runs)
                run.parent_tool_execution_id next
                (fire-StartsNone now (orphaned_run text_of now id) runs)
                (lost-told id run tools lost))
          | inr kept ↦ inl kept
        ],
        fire-Idle id runs next,
      )

module _ (text_of : ℕ → Bytes) where
  pub orphan-StartsNone :
      (ids : List ℕ) (world : World) (q : ℕ → Option ℕ → Bool)
      → Idle q world.tools
      → Idle q (orphan_all text_of ids world).tools
  unfolding orphan_all cleanup_orphaned_work
  orphan-StartsNone [] world q h = h
  orphan-StartsNone (id ∷ ids) world q h =
      let now = world.db.now in
      let f = orphaned_run text_of now id in
      orphan-StartsNone ids (cleanup_orphaned_work text_of id world) q (
        tool-StartsNone text_of now id q (fire_each now f world.runs world.tools)
          (fire-StartsNone now f world.runs q world.tools h))

  Idle-or :
      (p q : ℕ → Option ℕ → Bool) (tools : List ToolExecution)
      → Idle p tools
      → Idle q tools
      → Idle (λ k claim. p k claim || q k claim) tools
  Idle-or p q [] hp hq = tt
  Idle-or p q (exec ∷ tools) (hp, hps) (hq, hqs) = (ground arith, Idle-or p q tools hps hqs)

  none-held : (tools : List ToolExecution) → Idle (λ k claim. false) tools
  none-held [] = tt
  none-held (exec ∷ tools) = (ground arith, none-held tools)

  -- No execution of the instances runs on.
  pub orphan-Idle :
      (ids : List ℕ) (world : World)
      → Idle (λ k claim. any_holds ids claim) (orphan_all text_of ids world).tools
  unfolding orphan_all cleanup_orphaned_work
  orphan-Idle [] world = none-held world.tools
  orphan-Idle (id ∷ ids) world =
      let now = world.db.now in
      let f = orphaned_run text_of now id in
      let next = cleanup_orphaned_work text_of id world in
      Idle-or (λ k claim. is_held id claim) (λ k claim. any_holds ids claim)
        (orphan_all text_of ids next).tools
        (orphan-StartsNone ids next (λ k claim. is_held id claim)
          (tool-Idle text_of now id (fire_each now f world.runs world.tools)))
        (orphan-Idle ids next)
