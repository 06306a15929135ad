-- ===== src/Lifecycle.antt =====
-- The life of a run as constants.go draws it, apart from the code that makes it: what one change of state may
-- be, and the paths of such changes.
pub mod Moves
pub mod Changes
pub mod Passes
pub mod Turns
use agentpg.Base.{◌≡◌, refl, ap, false, true}
use agentpg.Store.Runs.{RunState, run_is_terminal}

pub data Change : RunState → RunState → Type 0 where
  claimed_for_batch : Change RunState.pending RunState.batch_submitting
  claimed_for_stream : Change RunState.pending RunState.streaming
  submitted : Change RunState.batch_submitting RunState.batch_pending
  polled : Change RunState.batch_pending RunState.batch_processing
  batch_uses_tools : Change RunState.batch_processing RunState.pending_tools
  batch_completes : Change RunState.batch_processing RunState.completed
  stream_uses_tools : Change RunState.streaming RunState.pending_tools
  stream_completes : Change RunState.streaming RunState.completed
  tools_done : Change RunState.pending_tools RunState.pending
  gives_up : {s : RunState} → run_is_terminal s ≡ false → Change s RunState.failed

pub data Life (s : RunState) : RunState → Type 0 where
  here : Life s s
  next : {t u : RunState} → Life s t → Change t u → Life s u

pub Life-trans : {s t u : RunState} → Life s t → Life t u → Life s u
Life-trans first here = first
Life-trans first (next rest change) = next (Life-trans first rest) change

Change-open : {s t : RunState} → Change s t → run_is_terminal s ≡ false
unfolding run_is_terminal
Change-open claimed_for_batch = refl
Change-open claimed_for_stream = refl
Change-open submitted = refl
Change-open polled = refl
Change-open batch_uses_tools = refl
Change-open batch_completes = refl
Change-open stream_uses_tools = refl
Change-open stream_completes = refl
Change-open tools_done = refl
Change-open (gives_up open_) = open_

-- No path leads out of a final state.
pub Life-ends : {s t : RunState} → Life s t → run_is_terminal s ≡ true → t ≡ s
Life-ends here ended = refl
Life-ends (next rest change) ended =
    let at_end = ap run_is_terminal (Life-ends rest ended) in
    let open_ = Change-open change in absurd cc
