-- ===== src/Client/Agents.antt =====
-- The agents of client.go. `breaks` says which calls of the store fail, `next_id` is the identifier of a new row.
pub mod Again
use agentpg.Base.{ℕ, Bool, true, false, List, [], ◌∷◌, Option, none, some, ◌==◌, if◌then◌else◌}
use agentpg.Driver.{Bytes}
use agentpg.Store.Runs.{Run}
use agentpg.Store.Agents.{
  AgentStoreCall, Pick, create_agent, get_agent, get_agent_by_name, update_agent, delete_agent,
  insert_agent, find_agent, find_agent_by_name, write_agent, remove_agent,
}
use agentpg.Worker.Request.{AgentDefinition}

pub data AgentProblem : Type 0 where
  no_name no_model no_id store_fails agent_not_found : AgentProblem

pub data AgentAnswer {ℓ} (A : Type ℓ) : Type ℓ where
  given : A → AgentAnswer A
  refused : AgentProblem → AgentAnswer A

abbrev pub created_agent :
    Option (List AgentDefinition × AgentDefinition)
    → List AgentDefinition
    → List AgentDefinition × AgentAnswer AgentDefinition
created_agent none agents = (agents, refused store_fails)
created_agent (some (after, row)) agents = (after, given row)

abbrev pub found_or_not : Option AgentDefinition → AgentAnswer AgentDefinition
found_or_not none = refused agent_not_found
found_or_not (some row) = given row

abbrev pub changed :
    Option (List AgentDefinition)
    → List AgentDefinition
    → List AgentDefinition × AgentAnswer (Unit {0})
changed none agents = (agents, refused store_fails)
changed (some after) agents = (after, given tt)

module _ (breaks : AgentStoreCall → Bool) (next_id : ℕ) where
  abbrev pub create_valid :
      Bytes
      → Bytes
      → AgentDefinition
      → List AgentDefinition
      → List AgentDefinition × AgentAnswer AgentDefinition
  create_valid [] model def agents = (agents, refused no_name)
  create_valid (n ∷ ns) [] def agents = (agents, refused no_model)
  create_valid (n ∷ ns) (m ∷ ms) def agents =
      if breaks create_agent
      then (agents, refused store_fails)
      else created_agent (insert_agent next_id def agents) agents

  -- `CreateAgent`
  unfoldable pub create_agent_of :
      AgentDefinition → List AgentDefinition → List AgentDefinition × AgentAnswer AgentDefinition
  create_agent_of def agents = create_valid def.name def.model def agents

  -- `UpdateAgent`, where 0 is the identifier that is not set.
  unfoldable pub update_agent_of :
      AgentDefinition → List AgentDefinition → List AgentDefinition × AgentAnswer (Unit {0})
  update_agent_of def agents =
      if def.id == 0
      then (agents, refused no_id)
      else if breaks update_agent
      then (agents, refused store_fails)
      else changed (write_agent def agents) agents

  -- `DeleteAgent`
  unfoldable pub delete_agent_of :
      ℕ → List Run → List AgentDefinition → List AgentDefinition × AgentAnswer (Unit {0})
  delete_agent_of id runs agents =
      if breaks delete_agent
      then (agents, refused store_fails)
      else changed (remove_agent id runs agents) agents

  -- `GetAgentByID`
  unfoldable pub get_agent_by_id : ℕ → List AgentDefinition → AgentAnswer AgentDefinition
  get_agent_by_id id agents =
      if breaks get_agent then refused store_fails else found_or_not (find_agent id agents)

  module _ (has_entries : Bytes → Bool) (holds : Bytes → Bytes → Bool) (pick : Pick) where
    -- `GetAgentByName`
    unfoldable pub get_agent_of_name :
        Bytes → Bytes → List AgentDefinition → AgentAnswer AgentDefinition
    get_agent_of_name name metadata agents =
        if breaks get_agent_by_name
        then refused store_fails
        else found_or_not (find_agent_by_name has_entries holds pick name metadata agents)

    abbrev pub found_or_create :
        Option AgentDefinition
        → AgentDefinition
        → List AgentDefinition
        → List AgentDefinition × AgentAnswer AgentDefinition
    found_or_create (some row) def agents = (agents, given row)
    found_or_create none def agents = create_agent_of def agents

    abbrev pub get_or_create_named :
        Bytes
        → AgentDefinition
        → List AgentDefinition
        → List AgentDefinition × AgentAnswer AgentDefinition
    get_or_create_named [] def agents = (agents, refused no_name)
    get_or_create_named (n ∷ ns) def agents =
        if breaks get_agent_by_name
        then (agents, refused store_fails)
        else found_or_create
            (find_agent_by_name has_entries holds pick def.name def.metadata agents) def agents

    -- `GetOrCreateAgent`
    unfoldable pub get_or_create_agent :
        AgentDefinition → List AgentDefinition → List AgentDefinition × AgentAnswer AgentDefinition
    get_or_create_agent def agents = get_or_create_named def.name def agents
