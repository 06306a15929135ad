-- ===== src/Worker/Request.antt =====
-- The request that a run makes to the API: buildTools of run_worker.go and of streaming_worker.go,
-- whose bodies are the same, and the parameters that processRun of each puts together. A float is its
-- bits.
use agentpg.Base.{
  ℕ, ◌&&◌, List, [], ◌∷◌, ◌++◌, codes, Option, none, some, length, ◌==◌, if◌then◌else◌,
}
use agentpg.Base.Int.{ℤ, pos}
use agentpg.Driver.{Bytes}
use agentpg.Anthropic.{ApiMessage}
use agentpg.Tool.Schema.{
  ToolSchema, Names, no_names, named, text, object, end, field, Key, to_names,
}

-- types.go; the agents to delegate to by their identifiers.
pub record AgentDefinition : Type 0 where
  pub id : ℕ
  pub name : Bytes
  pub description : Bytes
  pub model : Bytes
  pub system_prompt : Bytes
  pub tools : List Bytes
  pub agent_ids : List ℕ
  pub max_tokens : Option ℤ
  pub temperature : Option ℕ
  pub top_k : Option ℤ
  pub top_p : Option ℕ
  pub metadata : Bytes

-- What the interface `Tool` of tool/tool.go says of a tool.
pub record Tool : Type 0 where
  pub name : Bytes
  pub description : Bytes
  pub input_schema : ToolSchema

pub record ApiTool : Type 0 where
  pub name : Bytes
  pub description : Bytes
  pub properties : Names
  pub required : List Bytes

pub record ApiRequest (JsonValue : Type 0) : Type 0 where
  pub model : Bytes
  pub max_tokens : ℤ
  pub messages : List (ApiMessage JsonValue)
  pub system : List Bytes
  pub tools : List ApiTool
  pub temperature : Option ℕ
  pub top_k : Option ℤ
  pub top_p : Option ℕ

abbrev tool_param : Tool → ApiTool
tool_param tool = record {
  name = tool.name;
  description = tool.description;
  properties = to_names tool.input_schema.properties;
  required = tool.input_schema.required;
}

abbrev agent_param : AgentDefinition → ApiTool
agent_param agent = record {
  name = agent.name;
  description = agent.description;
  properties =
      named (codes "task")
        (object (
          field Key.type (text (codes "string"))
            (field Key.description (text (codes "The task to delegate to this agent")) end)))
        no_names;
  required = codes "task" ∷ [];
}

abbrev push_tool : Option Tool → List ApiTool → List ApiTool
push_tool none rest = rest
push_tool (some tool) rest = tool_param tool ∷ rest

abbrev push_agent : Option AgentDefinition → List ApiTool → List ApiTool
push_agent none rest = rest
push_agent (some agent) rest = agent_param agent ∷ rest

-- `get_tool` gives the registered tools, and `get_agent` the agents of the store, `none` where one is
-- not there or the call fails.
module _ (get_tool : Bytes → Option Tool) (get_agent : ℕ → Option AgentDefinition) where
  unfoldable pub tool_params : List Bytes → List ApiTool
  tool_params [] = []
  tool_params (name ∷ names) = push_tool (get_tool name) (tool_params names)

  unfoldable pub agent_params : List ℕ → List ApiTool
  agent_params [] = []
  agent_params (id ∷ ids) = push_agent (get_agent id) (agent_params ids)

  unfoldable pub build_tools : AgentDefinition → List ApiTool
  build_tools agent =
      if (length agent.tools == 0) && (length agent.agent_ids == 0)
      then []
      else tool_params agent.tools ++ agent_params agent.agent_ids

  abbrev system_blocks : Bytes → List Bytes
  system_blocks [] = []
  system_blocks (b ∷ bs) = (b ∷ bs) ∷ []

  abbrev max_tokens_or_default : Option ℤ → ℤ
  max_tokens_or_default none = pos 4096
  max_tokens_or_default (some n) = n

  -- The parameters of a batch request and of a stream are the same.
  unfoldable pub build_request :
      {JsonValue : Type 0} → AgentDefinition → List (ApiMessage JsonValue) → ApiRequest JsonValue
  build_request agent messages = record {
    model = agent.model;
    max_tokens = max_tokens_or_default agent.max_tokens;
    messages = messages;
    system = system_blocks agent.system_prompt;
    tools = build_tools agent;
    temperature = agent.temperature;
    top_k = agent.top_k;
    top_p = agent.top_p;
  }
