-- ===== src/Worker/Tools/Retries.antt =====
-- How often a tool execution is tried, and what ends it.
use agentpg.Base.{
  ℕ, zero, suc, ◌+◌, ◌-◌, ◌≤◌, ◌<◌, ◌≡◌, refl, ap, ◌∙◌, Bool, true, false, not, ◌&&◌, List, [], ◌∷◌,
  All, Option, none, some, length, leb, ltb, ◌==◌, if◌then◌else◌, arith,
}
use agentpg.Base.Int.{ℤ}
use agentpg.Store.Runs.{ToolExecution, ToolState, CreateToolExecutionParams, tool_is_terminal}
use agentpg.Store.Tools.{
  complete_tool_execution, retry_tool_execution, snooze_tool_execution, discard_tool_execution,
  start_tool_execution, is_claimable, claim_tool_execution, new_tool_execution, is_pending, is_null,
}
use agentpg.Worker.Tools.{
  ErrorLayer, ToolAnswer, output, error, ToolFaults, as_cancel, as_discard, as_snooze,
  handle_tool_error, finish_tool, run_tool, attempt, execute_tool,
}

-- One turn: when it is, whether the instance can run the tool, which calls fail, and what the tool
-- answers then, none where it is not registered.
pub record Turn : Type 0 where
  pub now : ℕ
  pub capable : Bool
  pub faults : ToolFaults
  pub tool : Option ToolAnswer

-- No call of the turn fails.
abbrev pub Works : Turn → Type 0
Works turn =
    (turn.faults.start_fails ≡ false)
    × (turn.faults.read_fails ≡ false)
    × (turn.faults.write_fails ≡ false)

abbrev pub is_failed : ToolState → Bool
is_failed ToolState.failed = true
is_failed ToolState.pending = false
is_failed ToolState.running = false
is_failed ToolState.completed = false
is_failed ToolState.skipped = false

module _ (delay : ℤ → ℕ) (instance_id : ℕ) where
  abbrev turn_on : Turn → ToolExecution → ToolExecution
  turn_on turn row = attempt delay instance_id turn.now turn.capable turn.faults turn.tool row

  unfoldable pub replay : List Turn → ToolExecution → ToolExecution
  replay [] row = row
  replay (turn ∷ turns) row = replay turns (turn_on turn row)

  -- A row between two turns: it waits with an attempt left, or it is at its end.
  unfoldable pub is_settled : ℕ → ToolExecution → Bool
  is_settled max row =
      (row.max_attempts == max)
      && (if is_pending row.state
          then ltb row.attempt_count max && is_null row.claimed_by_instance_id
          else tool_is_terminal row.state && leb row.attempt_count max)

  handle-settled :
      (max now : ℕ) (exec row : ToolExecution) (err : List ErrorLayer)
      → row.max_attempts ≡ max
      → 1 ≤ row.attempt_count
      → row.attempt_count ≤ row.max_attempts
      → exec.attempt_count ≡ row.attempt_count
      → exec.max_attempts ≡ row.max_attempts
      → is_settled max (handle_tool_error delay now exec err row) ≡ true
  unfolding is_settled handle_tool_error complete_tool_execution retry_tool_execution
      snooze_tool_execution discard_tool_execution tool_is_terminal
  handle-settled max now exec row err x l u e m = ground arith

  finish-settled :
      (max now : ℕ) (exec row : ToolExecution) (answer : ToolAnswer)
      → row.max_attempts ≡ max
      → 1 ≤ row.attempt_count
      → row.attempt_count ≤ row.max_attempts
      → exec.attempt_count ≡ row.attempt_count
      → exec.max_attempts ≡ row.max_attempts
      → is_settled max (finish_tool delay now exec answer row) ≡ true
  unfolding is_settled finish_tool complete_tool_execution tool_is_terminal
  finish-settled max now exec row (output bytes) x l u e m = ground arith
  finish-settled max now exec row (error err) x l u e m =
      handle-settled max now exec row err x l u e m

  -- What a turn that fails may leave as well: a row that stays claimed.
  unfoldable pub is_bounded : ℕ → ToolExecution → Bool
  is_bounded max row =
      (row.max_attempts == max)
      && (if is_pending row.state
          then ltb row.attempt_count max && is_null row.claimed_by_instance_id
          else leb row.attempt_count max)

  settled-bounded :
      (max : ℕ) (row : ToolExecution) → is_settled max row ≡ true → is_bounded max row ≡ true
  unfolding is_settled is_bounded
  settled-bounded max row h = ground arith

  answered-bounded :
      (max now : ℕ) (exec row : ToolExecution) (answer : ToolAnswer)
      → row.max_attempts ≡ max
      → 1 ≤ row.attempt_count
      → row.attempt_count ≤ row.max_attempts
      → exec.attempt_count ≡ row.attempt_count
      → exec.max_attempts ≡ row.max_attempts
      → is_bounded max (finish_tool delay now exec answer row) ≡ true
  answered-bounded max now exec row answer x l u e m =
      settled-bounded max (finish_tool delay now exec answer row)
        (finish-settled max now exec row answer x l u e m)

  run_tool-bounded :
      (max now : ℕ) (faults : ToolFaults) (tool : Option ToolAnswer) (exec row : ToolExecution)
      → is_pending row.state ≡ false
      → row.max_attempts ≡ max
      → 1 ≤ row.attempt_count
      → row.attempt_count ≤ row.max_attempts
      → exec.attempt_count ≡ row.attempt_count
      → exec.max_attempts ≡ row.max_attempts
      → is_bounded max (run_tool delay now faults tool exec row) ≡ true
  unfolding is_bounded complete_tool_execution
  run_tool-bounded max now faults none exec row p x l u e m = ground arith
  run_tool-bounded max now faults (some answer) exec row p x l u e m =
      ground (arith, answered-bounded max now exec row answer x l u e m)

  attempt-bounded :
      (max : ℕ) (turn : Turn) (row : ToolExecution)
      → is_bounded max row ≡ true
      → is_bounded max (turn_on turn row) ≡ true
  unfolding is_bounded attempt execute_tool is_claimable claim_tool_execution start_tool_execution
  attempt-bounded max turn row h =
      let claimed = claim_tool_execution turn.now instance_id row in
      ground (
        arith,
        run_tool-bounded max turn.now turn.faults turn.tool claimed
            (start_tool_execution turn.now claimed),
      )

  run_tool-settled :
      (max now : ℕ) (faults : ToolFaults) (tool : Option ToolAnswer) (exec row : ToolExecution)
      → faults.read_fails ≡ false
      → faults.write_fails ≡ false
      → row.max_attempts ≡ max
      → 1 ≤ row.attempt_count
      → row.attempt_count ≤ row.max_attempts
      → exec.attempt_count ≡ row.attempt_count
      → exec.max_attempts ≡ row.max_attempts
      → is_settled max (run_tool delay now faults tool exec row) ≡ true
  unfolding is_settled complete_tool_execution tool_is_terminal
  run_tool-settled max now faults none exec row r w x l u e m = rw w (ground arith)
  run_tool-settled max now faults (some answer) exec row r w x l u e m =
      rw (r, w) (finish-settled max now exec row answer x l u e m)

  attempt-settled :
      (max : ℕ) (turn : Turn) (row : ToolExecution)
      → Works turn
      → is_settled max row ≡ true
      → is_settled max (turn_on turn row) ≡ true
  unfolding is_settled attempt execute_tool is_claimable claim_tool_execution start_tool_execution
  attempt-settled max turn row (s, r, w) h =
      let claimed = claim_tool_execution turn.now instance_id row in
      ground (
        arith,
        run_tool-settled max turn.now turn.faults turn.tool claimed
            (start_tool_execution turn.now claimed) r w,
      )

  pub replay-is_bounded :
      (max : ℕ) (turns : List Turn) (row : ToolExecution)
      → is_bounded max row ≡ true
      → is_bounded max (replay turns row) ≡ true
  unfolding replay
  replay-is_bounded max [] row h = h
  replay-is_bounded max (turn ∷ turns) row h =
      replay-is_bounded max turns (turn_on turn row) (attempt-bounded max turn row h)

  pub replay-settled :
      (max : ℕ) (turns : List Turn) (row : ToolExecution)
      → All Works turns
      → is_settled max row ≡ true
      → is_settled max (replay turns row) ≡ true
  unfolding replay
  replay-settled max [] row works h = h
  replay-settled max (turn ∷ turns) row (works, all) h =
      replay-settled max turns (turn_on turn row) all (attempt-settled max turn row works h)

  -- A finished row is never touched again.
  replay-finished :
      (turns : List Turn) (row : ToolExecution)
      → is_pending row.state ≡ false
      → replay turns row ≡ row
  unfolding replay attempt execute_tool is_claimable
  replay-finished [] row h = refl
  replay-finished (turn ∷ turns) row h =
      ap (replay turns) (ground arith) ∙ replay-finished turns row h

  -- What a row is left as by a tool that fails with an error that is of none of the three kinds.
  abbrev pub IsPlain : Turn → Type 0
  IsPlain turn =
      (err : List ErrorLayer) × (turn.tool ≡ some (error err))
      × (as_cancel err ≡ none)
      × (as_discard err ≡ none)
      × (as_snooze err ≡ none)

  -- Every turn comes when its row is due, on an instance that can run the tool, no call of the store fails, and
  -- the tool fails so.
  abbrev pub FailsWhenDue : List Turn → ToolExecution → Type 0
  FailsWhenDue [] row = Unit
  FailsWhenDue (turn ∷ turns) row =
      (row.scheduled_at ≤ turn.now)
      × (turn.capable ≡ true)
      × Works turn
      × IsPlain turn
      × FailsWhenDue turns (turn_on turn row)

  -- One failure of a row that waits: it waits again with an attempt less, or has failed.
  fail_once :
      (turn : Turn) (row : ToolExecution)
      → is_pending row.state ≡ true
      → is_null row.claimed_by_instance_id ≡ true
      → row.scheduled_at ≤ turn.now
      → turn.capable ≡ true
      → Works turn
      → IsPlain turn
      → let after = turn_on turn row in
        (after.attempt_count ≡ suc row.attempt_count)
        × (after.max_attempts ≡ row.max_attempts)
        × (after.snooze_count ≡ row.snooze_count)
        × (is_pending after.state ≡ ltb (suc row.attempt_count) row.max_attempts)
        × (is_null after.claimed_by_instance_id ≡ ltb (suc row.attempt_count) row.max_attempts)
        × (is_failed after.state ≡ not (ltb (suc row.attempt_count) row.max_attempts))
  unfolding attempt execute_tool is_claimable claim_tool_execution start_tool_execution finish_tool
      handle_tool_error complete_tool_execution retry_tool_execution
  fail_once turn row p c d k (s, r, w) (err, e, c', d', s') =
      (ground arith, ground arith, ground arith, ground arith, ground arith, ground arith)

  -- A row that waits, with `left` attempts left, has failed after as many failures when due.
  pub replay-fails :
      (turns : List Turn) (row : ToolExecution) (left : ℕ)
      → is_pending row.state ≡ true
      → is_null row.claimed_by_instance_id ≡ true
      → row.attempt_count + suc left ≡ row.max_attempts
      → left < length turns
      → FailsWhenDue turns row
      → (is_failed (replay turns row).state ≡ true)
        × ((replay turns row).attempt_count ≡ row.max_attempts)
  unfolding replay
  replay-fails [] row left p c m l f = absurd (omega arith)
  replay-fails (turn ∷ turns) row zero p c m l (due, can, works, plain, rest) =
      let (count, max, _, waits, _, failed) = fail_once turn row p c due can works plain in
      rw (replay, replay-finished turns (turn_on turn row) (ground arith))
        (ground arith, ground arith)
  replay-fails (turn ∷ turns) row (suc left) p c m l (due, can, works, plain, rest) =
      let (count, max, _, waits, free, _) = fail_once turn row p c due can works plain in
      let (failed, at_max) =
        replay-fails turns (turn_on turn row) left (ground arith) (ground arith) (omega arith)
          (omega arith) rest in
      (failed, at_max ∙ max)

  -- A new tool execution whose tool is registered and fails with plain errors whenever it is due, where
  -- no call of the store fails, has failed after as many turns as it has attempts, and has then been
  -- attempted exactly that often.
  pub replay-exhausts :
      (turns : List Turn) (id now : ℕ) (params : CreateToolExecutionParams)
      → (new_tool_execution id now params).max_attempts ≤ length turns
      → FailsWhenDue turns (new_tool_execution id now params)
      → let row = replay turns (new_tool_execution id now params) in
        (is_failed row.state ≡ true)
        × (row.attempt_count ≡ (new_tool_execution id now params).max_attempts)
  unfolding new_tool_execution
  replay-exhausts turns id now params l f =
      let start = new_tool_execution id now params in
      replay-fails turns start (start.max_attempts - 1) refl refl (ground arith) (ground arith) f
