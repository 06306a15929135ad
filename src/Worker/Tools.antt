-- ===== src/Worker/Tools.antt =====
-- tool_worker.go: how a tool execution is run and what its errors lead to; the errors are those of
-- tool/errors.go and the delays those of config.go.
pub mod Retries
pub mod Outcomes
pub mod Results
pub mod Continue
pub mod Agents
use agentpg.Base.{
  ℕ, suc, ◌+◌, ◌-◌, ◌*◌, ◌%◌, Bool, true, false, not, ◌&&◌, ◌||◌, List, [], ◌∷◌, ◌++◌, codes, map,
  Option, none, some, leb, ltb, ◌==◌, if◌then◌else◌,
}
use agentpg.Base.Int.{ℤ, pos, negsuc, ltb_ℤ, leb_ℤ}
use agentpg.Driver.{Bytes, ContentBlock, tool_result}
use agentpg.Store.Runs.{ToolExecution, ToolState}
use agentpg.Store.Tools.{
  complete_tool_execution, retry_tool_execution, snooze_tool_execution, discard_tool_execution,
  start_tool_execution, is_claimable, claim_tool_execution,
}
use agentpg.Worker.Answer.{empty_block, or_empty}

-- One error of a chain that `Unwrap` goes through: its kind, and the text of its `Error()`.
pub data ErrorKind : Type 0 where
  cancel discard regular : ErrorKind
  snooze : ℕ → ErrorKind

pub record ErrorLayer : Type 0 where
  pub kind : ErrorKind
  pub text : Bytes

abbrev if_cancel : ErrorLayer → Option Bytes → Option Bytes
if_cancel layer rest = elim (layer.kind) [
  | cancel ↦ some layer.text
  | discard ↦ rest
  | regular ↦ rest
  | snooze _ ↦ rest
]

abbrev if_discard : ErrorLayer → Option Bytes → Option Bytes
if_discard layer rest = elim (layer.kind) [
  | discard ↦ some layer.text
  | cancel ↦ rest
  | regular ↦ rest
  | snooze _ ↦ rest
]

abbrev if_snooze : ErrorLayer → Option ℕ → Option ℕ
if_snooze layer rest = elim (layer.kind) [
  | snooze duration ↦ some duration
  | cancel ↦ rest
  | discard ↦ rest
  | regular ↦ rest
]

-- `errors.As` for each of the types: the first error of the chain that has it. The first error of
-- the list is the one that the tool returned.
unfoldable pub as_cancel : List ErrorLayer → Option Bytes
as_cancel [] = none
as_cancel (layer ∷ chain) = if_cancel layer (as_cancel chain)

unfoldable pub as_discard : List ErrorLayer → Option Bytes
as_discard [] = none
as_discard (layer ∷ chain) = if_discard layer (as_discard chain)

unfoldable pub as_snooze : List ErrorLayer → Option ℕ
as_snooze [] = none
as_snooze (layer ∷ chain) = if_snooze layer (as_snooze chain)

abbrev error_text : List ErrorLayer → Bytes
error_text [] = []
error_text (layer ∷ chain) = layer.text

-- `ToolSnooze`
unfoldable pub tool_snooze : ℤ → Bytes → ErrorLayer
tool_snooze (pos duration) text = record { kind = snooze duration; text = text }
tool_snooze (negsuc duration) text = record { kind = snooze 0; text = text }

abbrev pub second : ℕ
second = 1000000000

-- The product of two numbers that fits an int64, or what is left of it.
abbrev pub wrap_int64 : ℕ → ℤ
wrap_int64 n =
    let low = n % 18446744073709551616 in
    if ltb low 9223372036854775808 then pos low else negsuc (18446744073709551615 - low)

abbrev pub at_least_one : ℤ → ℕ
at_least_one (pos n) = if ltb 0 n then n else 1
at_least_one (negsuc n) = 1

abbrev pub at_least_second : ℤ → ℕ
at_least_second (pos d) = if ltb d second then second else d
at_least_second (negsuc d) = second

-- `NextRetryDelay`, in nanoseconds. `backoff` says whether `Jitter` is above 0, and `jitter` is the
-- random change of the delay, in floats. The fourth power is exact in a float up to 9741, and fits
-- an int64 up to 55108; a count above does not occur.
unfoldable pub next_retry_delay : Bool → (ℤ → ℤ) → ℤ → ℕ
next_retry_delay backoff jitter attempt_count =
    let n = at_least_one attempt_count in
    let delay = jitter (wrap_int64 (n * n * n * n * second)) in
    if not backoff then 0 else at_least_second delay

-- What a tool returns.
pub data ToolAnswer : Type 0 where
  output : Bytes → ToolAnswer
  error : List ErrorLayer → ToolAnswer

module _ (delay : ℤ → ℕ) where
  abbrev retry_or_fail : ℕ → ToolExecution → Bytes → ToolExecution → ToolExecution
  retry_or_fail now exec text row =
      if leb exec.max_attempts exec.attempt_count
      then complete_tool_execution now text true text row
      else retry_tool_execution (now + delay (pos exec.attempt_count)) text row

  abbrev after_snooze : Option ℕ → ℕ → ToolExecution → Bytes → ToolExecution → ToolExecution
  after_snooze none now exec text row = retry_or_fail now exec text row
  after_snooze (some duration) now exec text row = snooze_tool_execution (now + duration) row

  abbrev after_discard :
      Option Bytes → Option ℕ → ℕ → ToolExecution → Bytes → ToolExecution → ToolExecution
  after_discard none snoozed now exec text row = after_snooze snoozed now exec text row
  after_discard (some reason) snoozed now exec text row = discard_tool_execution now reason row

  abbrev after_cancel :
      Option Bytes
      → Option Bytes
      → Option ℕ
      → ℕ
      → ToolExecution
      → Bytes
      → ToolExecution
      → ToolExecution
  after_cancel none discarded snoozed now exec text row =
      after_discard discarded snoozed now exec text row
  after_cancel (some reason) discarded snoozed now exec text row =
      discard_tool_execution now reason row

  -- `handleToolError`: what becomes of the row. `exec` is the execution as it was claimed.
  unfoldable pub handle_tool_error :
      ℕ → ToolExecution → List ErrorLayer → ToolExecution → ToolExecution
  handle_tool_error now exec err row =
      after_cancel (as_cancel err) (as_discard err) (as_snooze err) now exec (error_text err) row

  unfoldable pub finish_tool : ℕ → ToolExecution → ToolAnswer → ToolExecution → ToolExecution
  finish_tool now exec (output bytes) row = complete_tool_execution now bytes false [] row
  finish_tool now exec (error err) row = handle_tool_error now exec err row

-- Which calls of the store fail: the first update, `GetRun`, and the write of what the tool came to.
pub record ToolFaults : Type 0 where
  pub start_fails : Bool
  pub read_fails : Bool
  pub write_fails : Bool

-- `tool` is what the tool answers, none where it is not registered.
abbrev pub run_tool :
    (ℤ → ℕ) → ℕ → ToolFaults → Option ToolAnswer → ToolExecution → ToolExecution → ToolExecution
run_tool delay now faults none exec row =
    if faults.write_fails
    then row
    else complete_tool_execution now [] true (codes "tool not found: " ++ exec.tool_name) row
run_tool delay now faults (some answer) exec row =
    if faults.read_fails || faults.write_fails then row else finish_tool delay now exec answer row

-- `executeTool` for a tool that is no agent.
unfoldable pub execute_tool :
    (ℤ → ℕ) → ℕ → ToolFaults → Option ToolAnswer → ToolExecution → ToolExecution → ToolExecution
execute_tool delay now faults tool exec row =
    if faults.start_fails
    then row
    else run_tool delay now faults tool exec (start_tool_execution now row)

-- One turn of the worker on a row: it is claimed if it can be, and its tool is run, which takes no
-- time.
unfoldable pub attempt :
    (ℤ → ℕ) → ℕ → ℕ → Bool → ToolFaults → Option ToolAnswer → ToolExecution → ToolExecution
attempt delay instance_id now capable faults tool row =
    let claimed = claim_tool_execution now instance_id row in
    if is_claimable now capable row then execute_tool delay now faults tool claimed claimed else row

abbrev pub tool_result_block : ToolExecution → ContentBlock
tool_result_block exec =
    let output = or_empty exec.tool_output in
    record (empty_block tool_result) {
      tool_result_for_use_id = exec.tool_use_id;
      tool_content = output_or_error output exec.is_error (or_empty exec.error_message);
      is_error = exec.is_error;
    }
  where
    output_or_error : Bytes → Bool → Bytes → Bytes
    output_or_error [] true message = message
    output_or_error [] false message = []
    output_or_error (b ∷ bs) failed message = b ∷ bs

-- The loop of `handleAllToolsComplete`.
unfoldable pub tool_results : List ToolExecution → List ContentBlock
tool_results [] = []
tool_results (exec ∷ executions) = tool_result_block exec ∷ tool_results executions
