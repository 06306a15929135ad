-- ===== src/Tests/Fleet.antt =====
-- Runs of the theorems on instances: instance 3 has had no heartbeat for long and holds the run of an agent that
-- runs for the execution of instance 4.
use agentpg.Base.{ℕ, ◌≡◌, refl, true, false, not, [], ◌∷◌, codes, keep, map, some, Pairs}
use agentpg.Base.Int.{pos}
use mathlib.Core.Option
use agentpg.Store.Runs.{RunState, run_is_terminal, ToolExecution, ToolState}
use agentpg.Store.Tools.{new_tool_execution}
use agentpg.Store.World.{World, handle_child_run_complete, child_completed}
use agentpg.Store.Instances.{
  Instance, Fleet, orphaned_run, orphaned_tool, fire_each, cleanup_orphaned_work, orphan_all,
  delete_instances, delete_stale_instances, run_cleanup_jobs, is_stale,
}
use agentpg.Store.Instances.Orphans.{Idle, any_holds}
use agentpg.Store.Instances.Released.{Released, stale_ids, run_cleanup_jobs-Releases}
use agentpg.Store.Instances.Counts.{get_instance_active_counts, get_all_instance_active_counts}
use agentpg.Store.Instances.Counts.Grouped.{counts_at, get_all-counts}
use agentpg.Tests.Rows.{run, iteration, params, empty_store}

abbrev instance_at : ℕ → ℕ → Instance
instance_at id heartbeat = record {
  id = id;
  name = codes "worker";
  hostname = [];
  pid = 1;
  version = codes "1.0.0";
  max_concurrent_runs = pos 10;
  max_concurrent_tools = pos 50;
  created_at = 0;
  last_heartbeat_at = heartbeat;
}

abbrev fleet : Fleet
fleet = record {
  instances = instance_at 3 1 ∷ instance_at 4 8 ∷ [];
  instance_tools =
      record { instance_id = 3; tool_name = codes "old" }
      ∷ record { instance_id = 4; tool_name = codes "search" }
      ∷ [];
  definitions =
      record {
        name = codes "old";
        description = [];
        input_schema = [];
        is_agent_tool = false;
        updated_at = 0;
      }
      ∷ [];
}

abbrev exec : ToolExecution
exec = record (new_tool_execution 5 0 params) {
  state = ToolState.running;
  claimed_by_instance_id = some 4;
}

abbrev world : World
world = record {
  db = empty_store;
  runs =
      record run { parent_tool_execution_id = some 5 }
      ∷ record run { id = 7; claimed_by_instance_id = some 4 }
      ∷ [];
  iterations = iteration ∷ [];
  tools = exec ∷ [];
}

run_cleanup_jobs-Releases_example :
    let gone = stale_ids 9 5 fleet in
    let (fleet', world') = run_cleanup_jobs (λ id. id ∷ []) true false 5 (fleet, world) in
    (fleet'.instances ≡ keep (λ row. not (is_stale 9 5 row)) fleet.instances)
    × Pairs (Released gone world world'.tools) world.runs world'.runs
    × Idle (λ k claim. any_holds gone claim) world'.tools
run_cleanup_jobs-Releases_example = run_cleanup_jobs-Releases (λ id. id ∷ []) 5 fleet world

cleaned :
    let (fleet', world') = run_cleanup_jobs (λ id. id ∷ []) true false 5 (fleet, world) in
    (map (λ run. run.state) world'.runs ≡ RunState.failed ∷ RunState.streaming ∷ [])
    × (map (λ tool. tool.state) world'.tools ≡ ToolState.failed ∷ [])
unfolding run_cleanup_jobs delete_stale_instances delete_instances orphan_all cleanup_orphaned_work
    fire_each orphaned_run orphaned_tool handle_child_run_complete child_completed run_is_terminal
    new_tool_execution
cleaned = (refl, refl)

get_all-counts_example :
    Option.map (counts_at 4) (get_all_instance_active_counts false false world)
    ≡ get_instance_active_counts false false 4 world
get_all-counts_example = get_all-counts false false 4 world

counted : get_instance_active_counts false false 4 world ≡ some (1, 1)
unfolding get_instance_active_counts run_is_terminal
counted = refl
