-- ===== src/Store/Agents.antt =====
-- The agents of driver/pgxv5/store.go. Metadata is a JSON document: `has_entries` says whether a map has any,
-- `holds` is PostgreSQL's `@>` and `before` its order of names. A query without an order may give any
-- of its rows first: `pick` says which one of those that match. An agent that a run refers to cannot be deleted.
use agentpg.Base.{
  ℕ, Bool, false, not, ◌&&◌, ◌||◌, List, [], ◌∷◌, ◌++◌, map, keep, length, Option, none, some,
  bytes_eq, ltb, ◌==◌, if◌then◌else◌,
}
use agentpg.Driver.{Bytes}
use agentpg.Store.Runs.{Run}
use agentpg.Worker.Request.{AgentDefinition}

pub data AgentStoreCall : Type 0 where
  create_agent get_agent get_agent_by_name update_agent delete_agent list_agents : AgentStoreCall

-- `agent_unique_name_metadata`
abbrev pub same_agent : AgentDefinition → AgentDefinition → Bool
same_agent a b = bytes_eq a.name b.name && bytes_eq a.metadata b.metadata

unfoldable pub is_taken : AgentDefinition → List AgentDefinition → Bool
is_taken def [] = false
is_taken def (row ∷ rows) = same_agent row def || is_taken def rows

-- A byte of UTF-8 that a character begins with.
abbrev begins_char : ℕ → Bool
begins_char byte = ltb byte 128 || not (ltb byte 192)

-- `char_length`
abbrev char_length : Bytes → ℕ
char_length bytes = length (keep begins_char bytes)

-- `agent_name_valid`
abbrev pub is_name : Bytes → Bool
is_name name = ltb 0 (char_length name) && ltb (char_length name) 256

unfoldable pub insert_agent :
    ℕ → AgentDefinition → List AgentDefinition → Option (List AgentDefinition × AgentDefinition)
insert_agent id def agents =
    let row = record def { id = id } in
    if is_name def.name && not (is_taken def agents) then some (agents ++ row ∷ [], row) else none

unfoldable pub find_agent : ℕ → List AgentDefinition → Option AgentDefinition
find_agent id [] = none
find_agent id (row ∷ rows) =
    let rest = find_agent id rows in if row.id == id then some row else rest

abbrev pub Pick : Type 0
Pick = AgentDefinition → List AgentDefinition → AgentDefinition

-- The row that `QueryRow` reads of those that the query gives.
abbrev pub picked : Pick → List AgentDefinition → Option AgentDefinition
picked pick [] = none
picked pick (row ∷ rows) = some (pick row rows)

unfoldable pub refers : ℕ → List Run → Bool
refers id [] = false
refers id (run ∷ runs) = run.agent_id == id || refers id runs

-- `DeleteAgent`
unfoldable pub remove_agent : ℕ → List Run → List AgentDefinition → Option (List AgentDefinition)
remove_agent id runs agents =
    if refers id runs then none else some (keep (λ row. not (row.id == id)) agents)

-- The other rows, which an update must not collide with.
abbrev others : ℕ → List AgentDefinition → List AgentDefinition
others id agents = keep (λ row. not (row.id == id)) agents

abbrev written_agent :
    Option AgentDefinition → AgentDefinition → List AgentDefinition → Option (List AgentDefinition)
written_agent none def agents = some agents
written_agent (some old) def agents =
    if is_name def.name && not (is_taken def (others def.id agents))
    then some (map (λ row. if row.id == def.id then def else row) agents)
    else none

-- `UpdateAgent`, which is not an error where there is no such row.
unfoldable pub write_agent : AgentDefinition → List AgentDefinition → Option (List AgentDefinition)
write_agent def agents = written_agent (find_agent def.id agents) def agents

module _ (has_entries : Bytes → Bool) (holds : Bytes → Bytes → Bool) where
  abbrev pub is_named : Bytes → Bytes → AgentDefinition → Bool
  is_named name metadata row =
      bytes_eq row.name name && (not (has_entries metadata) || holds row.metadata metadata)

  -- `GetAgentByName`
  unfoldable pub find_agent_by_name :
      Pick → Bytes → Bytes → List AgentDefinition → Option AgentDefinition
  find_agent_by_name pick name metadata agents = picked pick (keep (is_named name metadata) agents)
