-- ===== src/Store/Instances.antt =====
-- The instances of workers and the tools that they offer: the calls of driver/pgxv5/store.go, the clean-up
-- of client.go, and the triggers agentpg_cleanup_orphaned_work and agentpg_cleanup_orphaned_tools of
-- storage/migrations/001_agentpg_migration.up.sql. `text_of` is the text of an identifier. Of the
-- definition of a tool the columns that the calls do not interpret are one text.
pub mod Orphans
pub mod Released
pub mod Counts
use agentpg.Base.{
  ℕ, suc, ◌+◌, Bool, true, false, not, ◌&&◌, ◌||◌, List, [], ◌∷◌, ◌++◌, map, keep, length, codes,
  bytes_eq, Option, none, some, ltb, ◌==◌, if◌then◌else◌,
}
use agentpg.Base.Int.{ℤ}
use agentpg.Driver.{Bytes}
use agentpg.Store.Runs.{Run, RunState, run_is_terminal, ToolExecution, ToolState}
use agentpg.Store.World.{World, handle_child_run_complete, is_running}

pub record Instance : Type 0 where
  pub id : ℕ
  pub name : Bytes
  pub hostname : Bytes
  pub pid : ℕ
  pub version : Bytes
  pub max_concurrent_runs : ℤ
  pub max_concurrent_tools : ℤ
  pub created_at : ℕ
  pub last_heartbeat_at : ℕ

pub record InstanceTool : Type 0 where
  pub instance_id : ℕ
  pub tool_name : Bytes

pub record ToolDefinition : Type 0 where
  pub name : Bytes
  pub description : Bytes
  pub input_schema : Bytes
  pub is_agent_tool : Bool
  pub updated_at : ℕ

pub record Fleet : Type 0 where
  pub instances : List Instance
  pub instance_tools : List InstanceTool
  pub definitions : List ToolDefinition

-- `RegisterInstance`: a row of the same identifier is written over, but for its `created_at`.
unfoldable pub register_instance : ℕ → Instance → List Instance → List Instance
register_instance now params [] = record params { created_at = now; last_heartbeat_at = now } ∷ []
register_instance now params (row ∷ rows) =
    if row.id == params.id
    then record params { created_at = row.created_at; last_heartbeat_at = now } ∷ rows
    else row ∷ register_instance now params rows

-- `UpdateHeartbeat`, `none` where no row has the identifier.
unfoldable pub update_heartbeat : ℕ → ℕ → List Instance → Option (List Instance)
update_heartbeat now id [] = none
update_heartbeat now id (row ∷ rows) =
    let rest = update_heartbeat now id rows in
    if row.id == id
    then some (record row { last_heartbeat_at = now } ∷ rows)
    else elim rest [ none ↦ none | some later ↦ some (row ∷ later) ]

-- `UpsertTool`
unfoldable pub upsert_tool : ToolDefinition → List ToolDefinition → List ToolDefinition
upsert_tool tool [] = tool ∷ []
upsert_tool tool (row ∷ rows) =
    if bytes_eq row.name tool.name then tool ∷ rows else row ∷ upsert_tool tool rows

-- `RegisterInstanceTool`
unfoldable pub register_instance_tool : InstanceTool → List InstanceTool → List InstanceTool
register_instance_tool offer [] = offer ∷ []
register_instance_tool offer (row ∷ rows) =
    if row.instance_id == offer.instance_id && bytes_eq row.tool_name offer.tool_name
    then row ∷ rows
    else row ∷ register_instance_tool offer rows

-- `claimed_by_instance_id = $1`
abbrev pub is_held : ℕ → Option ℕ → Bool
is_held id none = false
is_held id (some holder) = holder == id

unfoldable pub offers : Bytes → List InstanceTool → Bool
offers name [] = false
offers name (row ∷ rows) = bytes_eq row.tool_name name || offers name rows

unfoldable pub executes : Bytes → List ToolExecution → Bool
executes name [] = false
executes name (row ∷ rows) = bytes_eq row.tool_name name || executes name rows

-- The trigger of an update of many runs, row by row. For a row that the update leaves it does
-- nothing, since the state of the row does not become final.
unfoldable pub fire_each : ℕ → (Run → Run) → List Run → List ToolExecution → List ToolExecution
fire_each now f [] tools = tools
fire_each now f (run ∷ runs) tools =
    fire_each now f runs (handle_child_run_complete now run (f run) tools)

-- The definition of a tool goes with the last row that refers to it.
unfoldable pub cleanup_orphaned_tool :
    InstanceTool → List InstanceTool → World → List ToolDefinition → List ToolDefinition
cleanup_orphaned_tool old offered world definitions =
    keep
      (λ tool. not (
        bytes_eq tool.name old.tool_name
        && (not (offers old.tool_name offered) && not (executes old.tool_name world.tools))))
      definitions

unfoldable pub cleanup_each :
    List InstanceTool → List InstanceTool → World → List ToolDefinition → List ToolDefinition
cleanup_each [] offered world definitions = definitions
cleanup_each (old ∷ rows) offered world definitions =
    cleanup_each rows offered world (cleanup_orphaned_tool old offered world definitions)

-- The rows of agentpg_instance_tools go with their instance.
unfoldable pub cascade : ℕ → World → Fleet → Fleet
cascade id world fleet =
    let offered = keep (λ row. not (row.instance_id == id)) fleet.instance_tools in
    let gone = keep (λ row. row.instance_id == id) fleet.instance_tools in
    record fleet {
      instance_tools = offered;
      definitions = cleanup_each gone offered world fleet.definitions;
    }

unfoldable pub cascade_all : List ℕ → World → Fleet → Fleet
cascade_all [] world fleet = fleet
cascade_all (id ∷ ids) world fleet = cascade_all ids world (cascade id world fleet)

abbrev pub is_stale : ℕ → ℕ → Instance → Bool
is_stale now ttl row = ltb (row.last_heartbeat_at + ttl) now

module _ (text_of : ℕ → Bytes) where
  abbrev disconnected : ℕ → Bytes
  disconnected id = codes "Instance disconnected: " ++ text_of id

  unfoldable pub orphaned_run : ℕ → ℕ → Run → Run
  orphaned_run now id run =
      if is_held id run.claimed_by_instance_id && not (run_is_terminal run.state)
      then record run {
        state = RunState.failed;
        previous_state = some run.state;
        finalized_at = some now;
        error_message = some (disconnected id);
        error_type = some (codes "instance_disconnected");
      }
      else run

  unfoldable pub orphaned_tool : ℕ → ℕ → ToolExecution → ToolExecution
  orphaned_tool now id exec =
      if is_held id exec.claimed_by_instance_id && is_running exec.state
      then record exec {
        state = ToolState.failed;
        completed_at = some now;
        error_message = some (disconnected id);
      }
      else exec

  unfoldable pub cleanup_orphaned_work : ℕ → World → World
  cleanup_orphaned_work id world =
      let now = world.db.now in
      record world {
        runs = map (orphaned_run now id) world.runs;
        tools =
            map (orphaned_tool now id) (fire_each now (orphaned_run now id) world.runs world.tools);
      }

  unfoldable pub orphan_all : List ℕ → World → World
  orphan_all [] world = world
  orphan_all (id ∷ ids) world = orphan_all ids (cleanup_orphaned_work id world)

  -- `DELETE FROM agentpg_instances` of the rows that `goes` picks: the triggers before the deletions,
  -- the deletions, and what follows from them.
  unfoldable pub delete_instances : (Instance → Bool) → Fleet × World → Fleet × World
  delete_instances goes (fleet, world) =
      let ids = map (λ row. row.id) (keep goes fleet.instances) in
      let after = orphan_all ids world in
      (
        cascade_all ids after
            (record fleet { instances = keep (λ row. not (goes row)) fleet.instances }),
        after,
      )

  -- `UnregisterInstance`
  unfoldable pub unregister_instance : ℕ → Fleet × World → Fleet × World
  unregister_instance id = delete_instances (λ row. row.id == id)

  -- `DeleteStaleInstances`, with the number of rows.
  unfoldable pub delete_stale_instances : ℕ → Fleet × World → (Fleet × World) × ℕ
  delete_stale_instances ttl (fleet, world) = (
    delete_instances (is_stale world.db.now ttl) (fleet, world),
    length (keep (is_stale world.db.now ttl) fleet.instances),
  )

  -- A turn of `cleanupLoop` with `runCleanupJobs`: whether the instance leads, whether the call fails.
  unfoldable pub run_cleanup_jobs : Bool → Bool → ℕ → Fleet × World → Fleet × World
  run_cleanup_jobs leads breaks ttl state =
      if leads && not breaks then (delete_stale_instances ttl state).0 else state
