-- ===== src/Store/Context.antt =====
-- The messages that a run's request holds: GetMessagesForRunContext of driver/pgxv5/store.go.
pub mod Isolation
use agentpg.Base.{
  ℕ, Bool, true, false, ◌&&◌, ◌||◌, List, [], ◌∷◌, keep, Option, none, some, ltb, ◌==◌,
  if◌then◌else◌,
}
use agentpg.Driver.{Message}
use agentpg.Store.Messages.{Db, in_session}
use agentpg.Store.Runs.{Run}
use agentpg.Store.World.{World, find_run}

abbrev pub is_id : ℕ → Option ℕ → Bool
is_id id none = false
is_id id (some run) = run == id

abbrev pub of_run : ℕ → Message → Bool
of_run id msg = is_id id msg.run_id

-- `m.run_id IN (SELECT r.id FROM agentpg_runs r WHERE r.session_id = $1 AND r.depth = 0)`
unfoldable pub is_root_run : ℕ → ℕ → List Run → Bool
is_root_run session id [] = false
is_root_run session id (run ∷ runs) =
    (run.id == id && (run.session_id == session && run.depth == 0)) || is_root_run session id runs

abbrev pub is_root : ℕ → List Run → Option ℕ → Bool
is_root session runs none = true
is_root session runs (some id) = is_root_run session id runs

abbrev context_of : Option Run → World → Option (List Message)
context_of none world = none
context_of (some run) world =
    if ltb 0 run.depth
    then some (keep (of_run run.id) world.db.messages)
    else some (
        keep (λ msg. in_session run.session_id msg && is_root run.session_id world.runs msg.run_id)
          world.db.messages)

-- `none` is an error: a call that fails, or a run that is not there.
unfoldable pub get_messages_for_run_context : Bool → ℕ → World → Option (List Message)
get_messages_for_run_context breaks id world =
    if breaks then none else context_of (find_run id world.runs) world
