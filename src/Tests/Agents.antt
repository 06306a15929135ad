-- ===== src/Tests/Agents.antt =====
-- Runs of the theorem on the agents of a client, where none is there yet.
use agentpg.Base.{
  ◌≡◌, refl, Memᴰ, Bool, false, [], ◌∷◌, codes, length, ltb, none, bytes_eq, bytes_eq_refl,
}
use agentpg.Driver.{Bytes}
use agentpg.Store.Agents.{AgentStoreCall, insert_agent, Pick, is_taken, find_agent_by_name}
use agentpg.Worker.Request.{AgentDefinition}
use agentpg.Client.Agents.{given, create_agent_of, get_or_create_agent}
use agentpg.Client.Agents.Again.{Kept, Matching, IsOnly, IsPick, get_or_create-again}

abbrev def : AgentDefinition
def = record {
  id = 0;
  name = codes "helper";
  description = [];
  model = codes "model";
  system_prompt = [];
  tools = [];
  agent_ids = [];
  max_tokens = none;
  temperature = none;
  top_k = none;
  top_p = none;
  metadata = [];
}

abbrev works : AgentStoreCall → Bool
works call = false

abbrev has_entries : Bytes → Bool
has_entries metadata = ltb 0 (length metadata)

abbrev row : AgentDefinition
row = record def { id = 7 }

abbrev first_row : Pick
first_row one rows = one

abbrev last_row : Pick
last_row one [] = one
last_row one (next ∷ rows) = last_row next rows

-- The first row may be read, and the last one.
first_row-IsPick : IsPick first_row
first_row-IsPick one rows = Memᴰ.head refl

last_row-IsPick : IsPick last_row
last_row-IsPick one [] = Memᴰ.head refl
last_row-IsPick one (next ∷ rows) = Memᴰ.tail (last_row-IsPick next rows)

get_or_create-again_example :
    Kept has_entries bytes_eq def row [] (row ∷ [])
    × ((b : AgentDefinition) × (get_or_create_agent works 8 has_entries bytes_eq last_row def
            (row ∷ [])
          ≡ (row ∷ [], given b))
        × Matching has_entries bytes_eq def b (row ∷ [])
        × (IsOnly has_entries bytes_eq def row (row ∷ []) → b ≡ row))
unfolding get_or_create_agent create_agent_of insert_agent is_taken find_agent_by_name
get_or_create-again_example =
    get_or_create-again works has_entries bytes_eq bytes_eq_refl first_row last_row 7 8 def row []
      (row ∷ []) first_row-IsPick last_row-IsPick refl
