-- ===== src/Tests/Runs.antt =====
-- Runs of the theorems on the loops over claimed runs: one run is waiting for a worker, and its agent
-- answers, or is not there.
use agentpg.Base.{ℕ, ◌≡◌, ◌⊎◌, refl, Bool, true, false, [], ◌∷◌, codes, Option, none, some}
use agentpg.Anthropic.{Sdk}
use agentpg.Driver.{Bytes}
use agentpg.Store.Messages.{Faults}
use agentpg.Store.Runs.{Run, RunMode, RunState}
use agentpg.Store.World.{World}
use agentpg.Worker.Answer.{Answer}
use agentpg.Worker.Answer.Process.{AnswerCall}
use agentpg.Worker.Request.{AgentDefinition, Tool, ApiRequest}
use agentpg.Worker.Runs.{RunCall, Tried, ok, err}
use agentpg.Worker.Runs.Exclusive.{Claim, claim_of, after_claims, Apart, claim_runs-Apart}
use agentpg.Worker.Runs.Settled.{AllSettled}
use agentpg.Worker.Runs.Settled.Batches.{IsSubmitted, processing, process_runs-submits}
use agentpg.Worker.Runs.Settled.Streams.{IsAnswered, streaming, process_runs-answers}
use agentpg.Store.World.{find_run}
use agentpg.Store.Instances.{orphan_all}
use agentpg.Store.Runs.{run_is_terminal}
use agentpg.Lifecycle.{Life}
use agentpg.Lifecycle.Turns.{Turns, none_yet, then_, submits, cleans, batch_pass, Turns-refine}
use agentpg.Tests.Rows.{run, empty_store}

abbrev waiting : ℕ → RunMode → Run
waiting id mode = record run {
  id = id;
  run_mode = mode;
  state = RunState.pending;
  prompt = codes "hello";
  current_iteration = 0;
  claimed_by_instance_id = none;
}

abbrev world : World
world = record {
  db = empty_store;
  runs = waiting 1 RunMode.batch ∷ waiting 2 RunMode.streaming ∷ waiting 3 RunMode.batch ∷ [];
  iterations = [];
  tools = [];
}

abbrev sdk : Sdk
sdk = record {
  Json = Bytes;
  nil = [];
  empty_object = [];
  unmarshal = λ bytes. some bytes;
  count_input_tokens = λ model messages. none;
  stream_summary = λ model limit prompt. none;
}

abbrev works : ℕ → RunCall → Option Bytes
works id call = none

abbrev never : Faults
never call = false

abbrev no_tool : Bytes → Option Tool
no_tool name = none

abbrev agent : AgentDefinition
agent = record {
  id = 4;
  name = codes "helper";
  description = [];
  model = codes "claude";
  system_prompt = [];
  tools = codes "search" ∷ [];
  agent_ids = [];
  max_tokens = none;
  temperature = none;
  top_k = none;
  top_p = none;
  metadata = [];
}

abbrev agent_of : ℕ → Tried AgentDefinition
agent_of id = ok agent

abbrev no_agent : ℕ → Option AgentDefinition
no_agent id = none

abbrev digits : ℕ → Bytes
digits id = id ∷ []

abbrev submit : Bytes → ApiRequest Bytes → Tried Bytes
submit id request = ok (codes "batch")

abbrev unavailable : ApiRequest Bytes → Tried Answer
unavailable request = err (codes "overloaded")

abbrev all_capable : Run → Bool
all_capable row = true

process_runs-submits_example :
    AllSettled IsSubmitted works
      (codes "processing_error")
      (processing works never [] sdk no_tool agent_of no_agent digits submit)
      3
      10
      RunMode.batch
      all_capable
      world
process_runs-submits_example =
    process_runs-submits works never [] sdk no_tool agent_of no_agent digits submit
      (codes "processing_error") 3 10 all_capable world (λ id. refl) refl

abbrev all_work : AnswerCall → Bool
all_work call = false

abbrev no_named : Bytes → Option ℕ
no_named name = none

abbrev same : Bytes → Option Bytes
same input = some input

process_runs-answers_example :
    AllSettled IsAnswered works
      (codes "streaming_error")
      (streaming works never [] sdk no_tool agent_of no_agent unavailable all_work no_named 2 same
        [])
      3
      5
      RunMode.streaming
      all_capable
      world
process_runs-answers_example =
    process_runs-answers works never [] sdk no_tool agent_of no_agent unavailable all_work no_named
      2 same [] (codes "streaming_error") 3 5 all_capable world (λ id. refl) refl

abbrev batches : ℕ → Claim
batches instance_id = record {
  instance_id = instance_id;
  max = 1;
  mode = RunMode.batch;
  capable = all_capable;
}

claim_runs-Apart_example :
    Apart
      (claim_of (batches 3) world).1
      (claim_of (batches 5) (after_claims (batches 4 ∷ []) (claim_of (batches 3) world).0)).1
claim_runs-Apart_example = claim_runs-Apart (batches 3) (batches 5) (batches 4 ∷ []) world

abbrev worked : World
worked =
    batch_pass works never [] sdk no_tool agent_of no_agent digits submit unavailable all_work
      no_named 2 same [] (codes "processing_error") 3 10 all_capable world

abbrev AllTurns : World → World → Type 0
AllTurns =
    Turns works never [] sdk no_tool agent_of no_agent digits submit unavailable all_work no_named 2
      same [] (codes "processing_error")

-- The pass of an instance, and the clean-up after it.
turns : AllTurns world (orphan_all digits (3 ∷ []) worked)
turns =
    then_ worked
      (then_ world none_yet
        (submits 3 10 all_capable world ((refl, (refl, tt)), ((refl, tt), (tt, tt)))))
      (cleans digits (3 ∷ []) worked)

Turns-refine_example :
    (later : Run) × (find_run 1 (orphan_all digits (3 ∷ []) worked).runs ≡ some later)
    × Life RunState.pending later.state
    × ((false ≡ false) ⊎ (later.state ≡ RunState.pending))
unfolding find_run run_is_terminal
Turns-refine_example =
    Turns-refine works never [] sdk no_tool agent_of no_agent digits submit unavailable all_work
      no_named 2 same [] (codes "processing_error") (λ id. refl) 1 (waiting 1 RunMode.batch) turns
      refl
