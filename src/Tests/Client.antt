-- ===== src/Tests/Client.antt =====
-- Runs of the theorems on the client: an empty configuration with a key in the environment, and a wait
-- of three looks.
use agentpg.Base.{some, ◌≡◌, refl, Bool, true, false, [], ◌∷◌, ◌++◌, codes, none}
use agentpg.Base.Int.{pos, negsuc}
use agentpg.Store.Runs.{Run, RunState, RunMode, run_is_terminal}
use agentpg.Store.World.{World, find_run}
use agentpg.Client.Config.{ClientConfig, validate, with_defaults}
use agentpg.Client.Config.Valid.{IsValid, validate-IsValid}
use agentpg.Client.Wait.{ReadCall, Answered, notified, context_done, returned}
use agentpg.Client.Runs.{
  run_async, RunRequest, waited, client_not_started, run_fast, run_sync, run_fast_sync,
}
use agentpg.Client.Runs.Synced.{CameTo, Created, run_sync-returns}
use agentpg.Client.Wait.Returns.{ticks}
use agentpg.Tests.Rows.{run, iteration, empty_store}

abbrev unset : ClientConfig
unset = record {
  api_key = [];
  name = [];
  id = [];
  max_concurrent_runs = pos 0;
  max_concurrent_streaming_runs = negsuc 0;
  max_concurrent_tools = pos 7;
  batch_poll_interval = pos 0;
  run_poll_interval = pos 0;
  tool_poll_interval = pos 0;
  heartbeat_interval = pos 0;
  leader_ttl = pos 0;
  stuck_run_timeout = pos 0;
  instance_ttl = pos 0;
  cleanup_interval = pos 0;
}

abbrev set : ClientConfig
set = with_defaults none (codes "uuid") (record unset { api_key = codes "key" })

validate-IsValid_example : IsValid none 117 (codes "uid") set
unfolding validate
validate-IsValid_example = validate-IsValid none 117 (codes "uid") (codes "key") unset set refl

abbrev in_state : RunState → World
in_state state = record {
  db = empty_store;
  runs = record run { state = state } ∷ [];
  iterations = iteration ∷ [];
  tools = [];
}

-- The run that the call creates, under the next identifier, and the table with it.
abbrev turn : RunState → Run
turn state = record run { id = 9; state = state }

abbrev in_turn : RunState → World
in_turn state = record (in_state RunState.pending) {
  runs = record run { state = RunState.pending } ∷ turn state ∷ [];
}

abbrev no_fault : ReadCall → Bool
no_fault call = false

abbrev asked : RunRequest
asked = record { session_id = 1; agent_id = 4; prompt = codes "hi"; variables = [] }

-- A notification brings the run before any tick does.
run_sync-returns_example :
    let world = in_state RunState.pending in
    let events =
      ticks (in_turn RunState.streaming ∷ [])
      ++ notified (some (turn RunState.failed)) world ∷ context_done [] ∷ [] in
    Created RunMode.batch asked 9 (run_async 3 true false asked world).0
    × Created RunMode.streaming asked 9 (run_fast 3 true false asked world).0
    × ((answer : Answered) × CameTo (turn RunState.failed) answer
        × (run_sync no_fault 3 true false asked none world events ≡ waited (returned answer))
        × (run_fast_sync no_fault 3 true false asked none world events ≡ waited (returned answer)))
unfolding find_run run_is_terminal
run_sync-returns_example =
    run_sync-returns no_fault 3 asked (in_state RunState.pending) (in_turn RunState.streaming ∷ [])
      (notified (some (turn RunState.failed)) (in_state RunState.pending)) (turn RunState.failed)
      (context_done [] ∷ []) refl ((turn RunState.streaming, refl, refl), tt) refl refl

-- A client that is not started creates nothing.
unstarted :
    run_fast 3 false false asked (in_state RunState.pending)
    ≡ (in_state RunState.pending, client_not_started)
unfolding run_fast
unstarted = refl
