-- ===== src/Client/Runs.antt =====
-- Run, RunFast, RunSync and RunFastSync of client.go. `breaks` says whether CreateRun fails: the
-- database does, or there is no such session or agent.
pub mod Synced
use agentpg.Base.{ℕ, Bool, true, false, List, Option, none, some, if◌then◌else◌}
use agentpg.Driver.{Bytes}
use agentpg.Store.Runs.{RunMode}
use agentpg.Store.World.{World}
use agentpg.Worker.Tools.Agents.{CreateRunParams, create_run}
use agentpg.Client.Wait.{ReadCall, WaitEvent, Waited, wait_for_run}

-- What the calls take.
pub record RunRequest : Type 0 where
  pub session_id : ℕ
  pub agent_id : ℕ
  pub prompt : Bytes
  pub variables : Bytes

pub data RunAnswer : Type 0 where
  client_not_started create_fails : RunAnswer
  run_id_of : ℕ → RunAnswer

pub data SyncAnswer : Type 0 where
  not_created : RunAnswer → SyncAnswer
  waited : Waited → SyncAnswer

abbrev pub run_params : Option RunMode → ℕ → RunRequest → CreateRunParams
run_params mode instance_id request = record {
  session_id = request.session_id;
  agent_id = request.agent_id;
  prompt = request.prompt;
  run_mode = mode;
  parent_run_id = none;
  parent_tool_execution_id = none;
  depth = 0;
  created_by_instance_id = instance_id;
  metadata = request.variables;
}

module _ (instance_id : ℕ) where
  abbrev pub run_in : Option RunMode → Bool → Bool → RunRequest → World → World × RunAnswer
  run_in mode false breaks request world = (world, client_not_started)
  run_in mode true true request world = (world, create_fails)
  run_in mode true false request world =
      (create_run (run_params mode instance_id request) world, run_id_of world.db.next_id)

  -- `Run`: the store takes an empty mode for batch.
  unfoldable pub run_async : Bool → Bool → RunRequest → World → World × RunAnswer
  run_async started breaks request world = run_in none started breaks request world

  unfoldable pub run_fast : Bool → Bool → RunRequest → World → World × RunAnswer
  run_fast started breaks request world =
      run_in (some RunMode.streaming) started breaks request world

-- The wait looks first at the tables as the call left them; `broken` is the error of that look.
abbrev pub wait_after :
    (ReadCall → Bool) → Option Bytes → List WaitEvent → World × RunAnswer → SyncAnswer
wait_after fails broken events (world, client_not_started) = not_created client_not_started
wait_after fails broken events (world, create_fails) = not_created create_fails
wait_after fails broken events (world, run_id_of id) =
    waited (wait_for_run fails id broken world events)

module _ (fails : ReadCall → Bool) (instance_id : ℕ) where
  unfoldable pub run_sync :
      Bool → Bool → RunRequest → Option Bytes → World → List WaitEvent → SyncAnswer
  run_sync started breaks request broken world events =
      wait_after fails broken events (run_async instance_id started breaks request world)

  unfoldable pub run_fast_sync :
      Bool → Bool → RunRequest → Option Bytes → World → List WaitEvent → SyncAnswer
  run_fast_sync started breaks request broken world events =
      wait_after fails broken events (run_fast instance_id started breaks request world)
