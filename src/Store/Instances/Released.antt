-- ===== src/Store/Instances/Released.antt =====
-- What the clean-up does to the work of the instances that it deletes.
use mathlib.Core.List.{map-id, map-map}
use agentpg.Base.{
  ℕ, ◌≡◌, refl, sym, subst, ◌∙◌, inl, inr, ◌⊎◌, Bool, true, false, not, ◌&&◌, List, [], ◌∷◌, map,
  keep, All, Pairs, Pairs-map, All-of_map, All-both, All-map, All-Memᴰ_intro, some, codes,
  Bool-cases, arith,
}
use agentpg.Driver.{Bytes}
use agentpg.Store.Runs.{Run, RunState, run_is_terminal, ToolExecution}
use agentpg.Store.World.{World}
use agentpg.Store.Instances.{
  Fleet, orphaned_run, orphaned_tool, fire_each, cleanup_orphaned_work, orphan_all, cascade_all,
  cascade, delete_instances, delete_stale_instances, is_stale, run_cleanup_jobs,
}
use agentpg.Store.Instances.Orphans.{
  any_holds, Idle, ParentIdle, parent-StartsNone, loses, tool-StartsNone, orphaned-same, fire-Idle,
  orphan-StartsNone, orphan-Idle,
}

-- An unfinished run of one of the instances has failed, and the execution that it was made for is not
-- left running; any other run is as before.
abbrev lost : List ℕ → Run → Bool
lost ids run = any_holds ids run.claimed_by_instance_id && not (run_is_terminal run.state)

abbrev Failed : ℕ → Run → Run → Type 0
Failed now old new =
    (new.id ≡ old.id)
    × (new.state ≡ RunState.failed)
    × (new.previous_state ≡ some old.state)
    × (new.finalized_at ≡ some now)
    × (new.error_type ≡ some (codes "instance_disconnected"))

abbrev pub Released : List ℕ → World → List ToolExecution → Run → Run → Type 0
Released ids world tools old new =
    ((lost ids old ≡ true)
      × Failed world.db.now old new
      × ParentIdle old.parent_tool_execution_id tools)
    ⊎ ((lost ids old ≡ false) × (new ≡ old))

abbrev Told : List ℕ → List ToolExecution → Run → Type 0
Told ids tools run = (lost ids run ≡ false) ⊎ ParentIdle run.parent_tool_execution_id tools

module _ (text_of : ℕ → Bytes) where
  abbrev after_all : ℕ → List ℕ → Run → Run
  after_all now [] run = run
  after_all now (id ∷ ids) run = after_all now ids (orphaned_run text_of now id run)

  ended-stays :
      (now : ℕ) (ids : List ℕ) (run : Run)
      → run_is_terminal run.state ≡ true
      → after_all now ids run ≡ run
  ended-stays now [] run ended = refl
  ended-stays now (id ∷ ids) run ended =
      let kept : loses id run ≡ false = ground arith in
      rw (orphaned-same text_of now id run kept) (ended-stays now ids run ended)

  orphan-runs :
      (ids : List ℕ) (world : World)
      → (orphan_all text_of ids world).runs ≡ map (after_all world.db.now ids) world.runs
  unfolding orphan_all cleanup_orphaned_work
  orphan-runs [] world = sym (map-id world.runs)
  orphan-runs (id ∷ ids) world =
      let now = world.db.now in
      orphan-runs ids (cleanup_orphaned_work text_of id world)
      ∙ map-map (after_all now ids) (orphaned_run text_of now id) world.runs

  orphaned-Failed :
      (now id : ℕ) (run : Run)
      → loses id run ≡ true
      → Failed now run (orphaned_run text_of now id run)
        × (run_is_terminal (orphaned_run text_of now id run).state ≡ true)
  unfolding orphaned_run run_is_terminal
  orphaned-Failed now id run h = rw h ((refl, refl, refl, refl, refl), refl)

  after_all-Failed :
      (now : ℕ) (ids : List ℕ) (run : Run)
      → ((lost ids run ≡ true) × Failed now run (after_all now ids run))
        ⊎ ((lost ids run ≡ false) × (after_all now ids run ≡ run))
  after_all-Failed now [] run = inr (refl, refl)
  after_all-Failed now (id ∷ ids) run = elim (Bool-cases (loses id run)) [
    | inl here ↦
        let next = orphaned_run text_of now id run in
        let failed = orphaned-Failed now id run here in
        inl
          (ground arith, subst (Failed now run) (sym (ended-stays now ids next failed.1)) failed.0)
    | inr kept ↦
        subst (λ next. Lost id ids run (after_all now ids next))
          (sym (orphaned-same text_of now id run kept))
          (elim (after_all-Failed now ids run) [
            | inl (later, failed) ↦ inl (ground arith, failed)
            | inr (never, same) ↦ inr (ground arith, same)
          ])
  ]
    where
      Lost : ℕ → List ℕ → Run → Run → Type 0
      Lost id ids run new =
          ((lost (id ∷ ids) run ≡ true) × Failed now run new)
          ⊎ ((lost (id ∷ ids) run ≡ false) × (new ≡ run))

  fire-Told :
      (id : ℕ) (world : World)
      → All
          (Told
            (id ∷ [])
            (fire_each world.db.now (orphaned_run text_of world.db.now id) world.runs world.tools))
          world.runs
  fire-Told id world =
      let now = world.db.now in
      let fired = fire_each now (orphaned_run text_of now id) world.runs world.tools in
      All-map (λ run. (loses id run ≡ false) ⊎ ParentIdle run.parent_tool_execution_id fired)
        (Told (id ∷ []) fired) world.runs
        (λ run told. elim told [ inl kept ↦ inl (ground arith) | inr idle ↦ inr idle ])
        (fire-Idle text_of now id world.runs world.tools)

  -- What the first instance's clean-up says of a run, and what the others' say of it afterwards.
  Told-next :
      (id : ℕ) (ids : List ℕ) (world : World) (run : Run)
      → Told
          (id ∷ [])
          (fire_each world.db.now (orphaned_run text_of world.db.now id) world.runs world.tools)
          run
      → Told ids
          (orphan_all text_of (id ∷ ids) world).tools
          (orphaned_run text_of world.db.now id run)
      → Told (id ∷ ids) (orphan_all text_of (id ∷ ids) world).tools run
  unfolding orphan_all cleanup_orphaned_work
  Told-next id ids world run (inr told) later =
      let now = world.db.now in
      let f = orphaned_run text_of now id in
      let next = cleanup_orphaned_work text_of id world in
      inr (
        parent-StartsNone (λ tools. (orphan_all text_of ids (record next { tools = tools })).tools)
          run.parent_tool_execution_id next.tools
          (λ q tools h. orphan-StartsNone text_of ids (record next { tools = tools }) q h)
          (parent-StartsNone (map (orphaned_tool text_of now id)) run.parent_tool_execution_id
            (fire_each now f world.runs world.tools) (tool-StartsNone text_of now id) told))
  Told-next id ids world run (inl kept) later =
      let now = world.db.now in
      let next = cleanup_orphaned_work text_of id world in
      let same = orphaned-same text_of now id run (ground arith) in
      elim (subst (Told ids (orphan_all text_of ids next).tools) same later) [
        | inl never ↦ inl (ground arith)
        | inr told ↦ inr told
      ]

  -- The execution that each lost run was made for is not left running.
  orphan-Told :
      (ids : List ℕ) (world : World)
      → All (Told ids (orphan_all text_of ids world).tools) world.runs
  unfolding orphan_all cleanup_orphaned_work
  orphan-Told [] world = All-Memᴰ_intro (Told [] world.tools) world.runs (λ run m. inl refl)
  orphan-Told (id ∷ ids) world =
      let now = world.db.now in
      let f = orphaned_run text_of now id in
      let fired = fire_each now f world.runs world.tools in
      let next = cleanup_orphaned_work text_of id world in
      let after = (orphan_all text_of ids next).tools in
      All-map (λ run. Told (id ∷ []) fired run × Told ids after (f run)) (Told (id ∷ ids) after)
        world.runs (λ run told. Told-next id ids world run told.0 told.1)
        (All-both (Told (id ∷ []) fired) (λ run. Told ids after (f run)) world.runs
          (fire-Told id world) (All-of_map (Told ids after) f world.runs (orphan-Told ids next)))

  both-Released :
      (ids : List ℕ) (world : World) (tools : List ToolExecution) (run : Run)
      → Told ids tools run
      → Released ids world tools run (after_all world.db.now ids run)
  both-Released ids world tools run told = elim (after_all-Failed world.db.now ids run) [
    | inr kept ↦ inr kept
    | inl (gone, failed) ↦ elim told [
      | inl never ↦ absurd (ground arith)
      | inr idle ↦ inl (gone, failed, idle)
    ]
  ]

  orphan-Released :
      (ids : List ℕ) (world : World)
      → let after = orphan_all text_of ids world in
        Pairs (Released ids world after.tools) world.runs after.runs
  orphan-Released ids world =
      let after = orphan_all text_of ids world in
      subst (Pairs (Released ids world after.tools) world.runs) (sym (orphan-runs ids world)) (
        Pairs-map (Released ids world after.tools) (after_all world.db.now ids) world.runs (
          All-map (Told ids after.tools)
            (λ run. Released ids world after.tools run (after_all world.db.now ids run)) world.runs
            (λ run told. both-Released ids world after.tools run told) (orphan-Told ids world)))

  cascade-instances :
      (ids : List ℕ) (world : World) (fleet : Fleet)
      → (cascade_all ids world fleet).instances ≡ fleet.instances
  unfolding cascade_all cascade
  cascade-instances [] world fleet = refl
  cascade-instances (id ∷ ids) world fleet = cascade-instances ids world (cascade id world fleet)

-- The identifiers of the instances without a heartbeat in the time to live.
abbrev pub stale_ids : ℕ → ℕ → Fleet → List ℕ
stale_ids now ttl fleet = map (λ row. row.id) (keep (is_stale now ttl) fleet.instances)

-- The clean-up by the leader, where its call does not fail: the instances with a heartbeat in the time
-- to live stay, and no others. Of the runs, place by place, each one that was unfinished and held by an
-- instance that is gone has failed, and the execution in its parent that waited for it does not run on;
-- every other run is as before. No execution that an instance held which is gone runs on.
pub run_cleanup_jobs-Releases :
    (text_of : ℕ → Bytes) (ttl : ℕ) (fleet : Fleet) (world : World)
    → let gone = stale_ids world.db.now ttl fleet in
      let (fleet', world') = run_cleanup_jobs text_of true false ttl (fleet, world) in
      (fleet'.instances ≡ keep (λ row. not (is_stale world.db.now ttl row)) fleet.instances)
      × Pairs (Released gone world world'.tools) world.runs world'.runs
      × Idle (λ k claim. any_holds gone claim) world'.tools
unfolding run_cleanup_jobs delete_stale_instances delete_instances
run_cleanup_jobs-Releases text_of ttl fleet world =
    let gone = stale_ids world.db.now ttl fleet in
    let kept = keep (λ row. not (is_stale world.db.now ttl row)) fleet.instances in
    (
      cascade-instances text_of gone (orphan_all text_of gone world)
          (record fleet { instances = kept }),
      orphan-Released text_of gone world,
      orphan-Idle text_of gone world,
    )
