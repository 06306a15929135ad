-- ===== src/Tests/Workers.antt =====
-- Runs of the theorems on the workers: an answer with a text and two tool uses, and tools that fail.
use agentpg.Base.{
  ℕ, ◌+◌, ◌≡◌, refl, Bool, true, false, not, List, [], ◌∷◌, Option, none, some, length, codes,
  arith, keep, Pairs, Permᴰ, map, ◌++◌, ◌==◌, if◌then◌else◌,
}
use agentpg.Base.Int.{ℤ}
use agentpg.Tests.Rows.{some_usage, run, iteration, params, empty_store}
use agentpg.Driver.{Bytes, ContentBlock, Message, MessageRole, text, tool_use, image}
use agentpg.Anthropic.{Sdk, ApiMessage}
use agentpg.Store.Messages.{Faults, insert_message, all_written}
use agentpg.Store.Runs.{ToolExecution, CreateToolExecutionParams}
use agentpg.Store.Tools.{
  new_tool_execution, is_pending, is_null, is_claimable, claim_tool_execution, start_tool_execution,
  retry_tool_execution, complete_tool_execution,
}
use agentpg.Worker.Messages.{alternates, spoken, build_messages}
use agentpg.Worker.Messages.Said.{stored, is_carried, Says, build_messages-alternate}
use agentpg.Worker.Answer.{
  Answer, AnswerBlock, empty_block, build_tool_params, stream_blocks, batch_blocks, add_usage,
  has_tool_use,
}
use agentpg.Worker.Answer.Process.{
  AnswerCall, Work, process_streaming, process_batch, save_answer, create_tool_executions,
}
use agentpg.Worker.Answer.Outcomes.{
  use_ids, next_state, process_streaming-moves, process_streaming-fails, unstreamed,
  process_batch-process_streaming,
}
use agentpg.Worker.Tools.{
  ErrorLayer, ErrorKind, ToolFaults, error, handle_tool_error, tool_results, attempt, execute_tool,
  finish_tool, as_cancel, as_discard, as_snooze,
}
use agentpg.Worker.Tools.Retries.{Turn, replay, is_failed, FailsWhenDue, replay-exhausts}
use agentpg.Worker.Tools.Outcomes.{ends, counted, handle_tool_error-outcome}
use agentpg.Worker.Tools.Results.{
  RowStep, tried, claimed_for_agent, agent_started, agent_linked, orphaned, executed, result_ids,
  tool_results-answer,
}
use agentpg.Store.World.{get_tool_executions_by_iteration}

abbrev says : Bytes → List ContentBlock
says bytes = record (empty_block text) { text = bytes } ∷ []

abbrev message : ℕ → MessageRole → List ContentBlock → Message
message id role content = record {
  id = id;
  session_id = 1;
  run_id = some 1;
  role = role;
  content = content;
  usage = some_usage;
  is_preserved = false;
  is_summary = false;
  metadata = [];
  created_at = id;
  updated_at = id;
}

-- Two messages of the user in a row, one that cannot be sent, and an answer.
abbrev conversation : List Message
conversation =
    message 1 MessageRole.user (says (codes "first"))
    ∷ message 2 MessageRole.assistant (empty_block image ∷ [])
    ∷ message 3 MessageRole.user (says (codes "second"))
    ∷ message 4 MessageRole.assistant (says (codes "answer"))
    ∷ []

abbrev sdk : Sdk
sdk = record {
  Json = Bytes;
  nil = [];
  empty_object = [];
  unmarshal = λ bytes. some bytes;
  count_input_tokens = λ model messages. none;
  stream_summary = λ model limit prompt. none;
}

build_messages-alternate_example :
    (built : List (ApiMessage Bytes)) × (build_messages sdk (some conversation) ≡ some built)
    × (alternates none built ≡ true)
    × Pairs (Says sdk) (keep is_carried (stored conversation)) (spoken built)
build_messages-alternate_example = build_messages-alternate sdk conversation

abbrev use_of : Bytes → AnswerBlock
use_of id = record {
  type = tool_use;
  text = [];
  id = id;
  name = codes "search";
  input = codes "{}";
}

abbrev answer : Answer
answer = record {
  content =
      record { type = text; text = codes "let me see"; id = []; name = []; input = [] }
      ∷ use_of (codes "a")
      ∷ use_of (codes "b")
      ∷ [];
  stop_reason = codes "tool_use";
  usage = some_usage;
}

abbrev work : Work
work = record { db = empty_store; run = run; iteration = iteration; created = [] }

abbrev never : Faults
never call = false

abbrev all_work : AnswerCall → Bool
all_work call = false

abbrev no_tools : AnswerCall → Bool
no_tools create_tool_executions = true
no_tools _ = false

abbrev no_agents : Bytes → Option ℕ
no_agents name = none

abbrev same : Bytes → Option Bytes
same input = some input

abbrev processed : (AnswerCall → Bool) → Work × Bool
processed breaks = process_streaming never breaks no_agents 2 same run iteration answer 10 work

process_streaming-moves_example :
    ((processed all_work).0.run.state ≡ next_state answer)
    × ((processed all_work).0.run.usage ≡ add_usage some_usage some_usage)
    × ((processed all_work).0.run.iteration_count ≡ 1)
    × (length (processed all_work).0.created
        ≡ 0 + (processed all_work).0.iteration.tool_execution_count)
unfolding process_streaming save_answer insert_message all_written stream_blocks has_tool_use
    build_tool_params
process_streaming-moves_example =
    process_streaming-moves never all_work no_agents 2 same run iteration answer 10 work refl

process_streaming-fails_example :
    ((processed no_tools).0.run ≡ run) × ((processed no_tools).0.created ≡ [])
unfolding process_streaming save_answer insert_message all_written stream_blocks has_tool_use
    build_tool_params
process_streaming-fails_example =
    process_streaming-fails never no_tools no_agents 2 same run iteration answer 10 work refl

process_batch-process_streaming_example :
    process_batch never all_work no_agents 2 (some (some run)) iteration (some answer) 10 work
    ≡ some (unstreamed work (processed all_work))
process_batch-process_streaming_example =
    process_batch-process_streaming never all_work no_agents 2 same run iteration answer 10 work
      ((refl, λ e. refl), ((refl, λ e. refl), ((refl, λ e. refl), tt)))

abbrev at_once : ℤ → ℕ
at_once attempts = 0

abbrev layer : ErrorKind → ErrorLayer
layer kind = record { kind = kind; text = codes "no" }

abbrev no_faults : ToolFaults
no_faults = record { start_fails = false; read_fails = false; write_fails = false }

abbrev failing : ℕ → Turn
failing now = record {
  now = now;
  capable = true;
  faults = no_faults;
  tool = some (error (layer ErrorKind.regular ∷ []));
}

abbrev snoozing : ℕ → Turn
snoozing now = record {
  now = now;
  capable = true;
  faults = no_faults;
  tool = some (error (layer (ErrorKind.snooze 5) ∷ []));
}

abbrev two_failures : List Turn
two_failures = failing 1 ∷ failing 2 ∷ []

-- The row cannot be written after the second failure.
abbrev unwritten : Turn
unwritten = record (failing 7) { faults = record no_faults { write_fails = true } }

abbrev snooze_first : List Turn
snooze_first = snoozing 1 ∷ failing 2 ∷ failing 6 ∷ unwritten ∷ []

two-fail : FailsWhenDue at_once 3 two_failures (new_tool_execution 5 0 params)
unfolding new_tool_execution attempt execute_tool is_claimable claim_tool_execution
    start_tool_execution finish_tool handle_tool_error retry_tool_execution complete_tool_execution
    as_cancel as_discard as_snooze
two-fail = (
  omega arith,
  refl,
  (refl, refl, refl),
  (_, refl, refl, refl, refl),
  (omega arith, refl, (refl, refl, refl), (_, refl, refl, refl, refl), tt),
)

replay-exhausts_example :
    let row = replay at_once 3 two_failures (new_tool_execution 5 0 params) in
    (is_failed row.state ≡ true) × (row.attempt_count ≡ 2)
unfolding new_tool_execution
replay-exhausts_example = replay-exhausts at_once 3 two_failures 5 0 params (omega arith) two-fail

-- A discarded error that wraps a snoozed one.
abbrev wrapped : List ErrorLayer
wrapped = layer ErrorKind.discard ∷ layer (ErrorKind.snooze 5) ∷ []

handle_tool_error-outcome_example :
    let exec = new_tool_execution 5 0 params in
    let after = handle_tool_error at_once 1 exec wrapped exec in
    (is_failed after.state ≡ ends exec wrapped)
    × (is_pending after.state ≡ not (ends exec wrapped))
    × (after.attempt_count ≡ counted wrapped exec.attempt_count)
    × (ends exec wrapped ≡ false → is_null after.claimed_by_instance_id ≡ true)
    × (ends exec wrapped ≡ true → after.is_error ≡ true)
handle_tool_error-outcome_example =
    handle_tool_error-outcome at_once 1 (new_tool_execution 5 0 params)
      (new_tool_execution 5 0 params) wrapped

abbrev created : List CreateToolExecutionParams
created = build_tool_params no_agents (λ input. input) 2 iteration run answer.content

-- The first execution is tried, the second one is an agent that its instance loses. The table has them
-- the other way round, before one of another iteration.
abbrev histories : ℕ → List RowStep
histories id =
    if id == 5
    then map tried two_failures
    else claimed_for_agent 1 3 ∷ agent_started 1 ∷ agent_linked 8 ∷ orphaned 9 3 ∷ []

abbrev other_rows : List ToolExecution
other_rows = record (new_tool_execution 4 0 params) { iteration_id = 77 } ∷ []

abbrev executed_rows : List ToolExecution
executed_rows = executed at_once 3 (λ id. []) histories 5 0 created

abbrev swap_two : List ToolExecution → List ToolExecution
swap_two [] = []
swap_two (a ∷ []) = a ∷ []
swap_two (a ∷ b ∷ rows) = b ∷ a ∷ rows

abbrev reversed : List ToolExecution
reversed = swap_two (executed_rows ++ other_rows)

tool_results-answer_example :
    let results = tool_results (get_tool_executions_by_iteration iteration.id reversed) in
    Permᴰ (result_ids results) (use_ids (stream_blocks same answer.content))
    × Permᴰ (result_ids results) (use_ids (batch_blocks answer.content))
unfolding executed build_tool_params
tool_results-answer_example =
    tool_results-answer no_agents (λ input. input) 2 iteration run same answer.content at_once 3
      (λ id. []) histories 5 0 other_rows reversed (refl, tt) (Permᴰ.swap refl refl)
