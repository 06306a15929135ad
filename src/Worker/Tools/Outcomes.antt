-- ===== src/Worker/Tools/Outcomes.antt =====
-- What the error of a tool leads to, and how the results answer the tool uses.
use agentpg.Base.{
  ℕ, ◌-◌, ◌*◌, ◌≤◌, ◌≡◌, refl, Bool, true, false, not, ◌&&◌, ◌||◌, List, Option, none, some, leb,
  if◌then◌else◌, arith,
}
use agentpg.Base.Int.{ℤ, pos, negsuc}
use agentpg.Store.Runs.{ToolExecution}
use agentpg.Store.Tools.{
  complete_tool_execution, retry_tool_execution, snooze_tool_execution, discard_tool_execution,
  is_pending, is_null,
}
use agentpg.Worker.Tools.{
  ErrorLayer, as_cancel, as_discard, as_snooze, handle_tool_error, next_retry_delay, second,
  at_least_second, at_least_one, wrap_int64,
}
use agentpg.Worker.Tools.Retries.{is_failed}

abbrev is_there {ℓ} : {A : Type ℓ} → Option A → Bool
is_there none = false
is_there (some _) = true

-- Whether an error ends the execution: it is cancelled or discarded, or it is not snoozed either and
-- the attempts are used up.
unfoldable pub ends : ToolExecution → List ErrorLayer → Bool
ends exec err =
    is_there (as_cancel err)
    || (is_there (as_discard err)
        || (not (is_there (as_snooze err)) && leb exec.max_attempts exec.attempt_count))

-- The attempts that are left counted: a snooze gives the attempt back.
unfoldable pub counted : List ErrorLayer → ℕ → ℕ
counted err n =
    if is_there (as_cancel err) || is_there (as_discard err)
    then n
    else (if is_there (as_snooze err) then n - 1 else n)

-- An error of a tool fails the execution if it cancels or discards it, or if it does not snooze it
-- and the attempts are used up; otherwise the execution waits again, held by no instance. Only a
-- snooze that is neither a cancellation nor a discard gives the attempt back.
pub handle_tool_error-outcome :
    (delay : ℤ → ℕ) (now : ℕ) (exec row : ToolExecution) (err : List ErrorLayer)
    → let after = handle_tool_error delay now exec err row in
      (is_failed after.state ≡ ends exec err)
      × (is_pending after.state ≡ not (ends exec err))
      × (after.attempt_count ≡ counted err row.attempt_count)
      × (ends exec err ≡ false → is_null after.claimed_by_instance_id ≡ true)
      × (ends exec err ≡ true → after.is_error ≡ true)
unfolding handle_tool_error ends counted complete_tool_execution retry_tool_execution
    snooze_tool_execution discard_tool_execution
handle_tool_error-outcome delay now exec row err =
    (ground arith, ground arith, ground arith, λ h. ground arith, λ h. ground arith)

second-le : (d : ℤ) → second ≤ at_least_second d
second-le (pos d) = ground arith
second-le (negsuc d) = omega arith

-- Without a jitter a retry is due at once; with one it waits for a second at least, whatever the
-- random change is and even where the fourth power does not fit an int64.
pub next_retry_delay-floor :
    (jitter : ℤ → ℤ) (attempt_count : ℤ)
    → (next_retry_delay false jitter attempt_count ≡ 0)
      × (second ≤ next_retry_delay true jitter attempt_count)
unfolding next_retry_delay
next_retry_delay-floor jitter attempt_count =
    (refl, second-le (jitter (wrap_int64 (n * n * n * n * second))))
  where
    n : ℕ
    n = at_least_one attempt_count
