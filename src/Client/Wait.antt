-- ===== src/Client/Wait.antt =====
-- WaitForRun and buildResponse of client.go. The events that the loop selects are given in order, each
-- with the tables as they are when it is handled: the context ends, a run comes through the channel
-- (nil where the notified run was not found), or the ticker fires. `breaks` says which reads fail.
pub mod Returns
use agentpg.Base.{
  ℕ, Bool, true, false, List, [], ◌∷◌, keep, codes, Option, none, some, reverse, ◌==◌,
  if◌then◌else◌,
}
use agentpg.Driver.{Bytes, Message, MessageRole, Usage}
use agentpg.Store.Runs.{Run, RunState, Iteration, run_is_terminal}
use agentpg.Store.World.{World, find_run}
use agentpg.Store.Context.{of_run}
use agentpg.Worker.Answer.{or_empty}

pub record Response : Type 0 where
  pub text : Bytes
  pub stop_reason : Bytes
  pub usage : Usage
  pub message : Option Message
  pub iteration_count : ℕ
  pub tool_iterations : ℕ

-- What a run came to: an error with its type and text, the error of a cancelled run, or a response.
pub data Answered : Type 0 where
  run_failed : Bytes → Bytes → Answered
  was_cancelled : Answered
  responded : Response → Answered

pub data ReadCall : Type 0 where
  get_iteration get_message get_messages_by_run : ReadCall

unfoldable pub find_iteration : ℕ → List Iteration → Option Iteration
find_iteration id [] = none
find_iteration id (row ∷ rows) =
    let rest = find_iteration id rows in if row.id == id then some row else rest

unfoldable pub find_message : ℕ → List Message → Option Message
find_message id [] = none
find_message id (msg ∷ messages) =
    let rest = find_message id messages in if msg.id == id then some msg else rest

abbrev is_assistant : MessageRole → Bool
is_assistant MessageRole.assistant = true
is_assistant MessageRole.user = false
is_assistant MessageRole.system = false
is_assistant (MessageRole.other _) = false

-- The first of the messages from the end.
unfoldable pub first_assistant : List Message → Option Message
first_assistant [] = none
first_assistant (msg ∷ messages) =
    let rest = first_assistant messages in if is_assistant msg.role then some msg else rest

abbrev or_else : Option Message → Option Message → Option Message
or_else none other = other
or_else (some msg) other = some msg

module _ (breaks : ReadCall → Bool) where
  abbrev message_by : Option ℕ → World → Option Message
  message_by none world = none
  message_by (some id) world =
      if breaks get_message then none else find_message id world.db.messages

  abbrev message_of : Option Iteration → World → Option Message
  message_of none world = none
  message_of (some iter) world = message_by iter.response_message_id world

  abbrev iteration_message : Option ℕ → World → Option Message
  iteration_message none world = none
  iteration_message (some id) world =
      if breaks get_iteration then none else message_of (find_iteration id world.iterations) world

  abbrev last_message : Run → World → Option Message
  last_message run world =
      if breaks get_messages_by_run
      then none
      else first_assistant (reverse (keep (of_run run.id) world.db.messages))

  abbrev response_of : Run → World → Response
  response_of run world = record {
    text = or_empty run.response_text;
    stop_reason = or_empty run.stop_reason;
    usage = run.usage;
    message = or_else (iteration_message run.current_iteration_id world) (last_message run world);
    iteration_count = run.iteration_count;
    tool_iterations = run.tool_iterations;
  }

  abbrev pub answer_of : RunState → Run → World → Answered
  answer_of RunState.failed run world =
      run_failed (or_empty run.error_type) (or_empty run.error_message)
  answer_of RunState.cancelled run world = was_cancelled
  answer_of RunState.completed run world = responded (response_of run world)
  answer_of RunState.pending run world = responded (response_of run world)
  answer_of RunState.batch_submitting run world = responded (response_of run world)
  answer_of RunState.batch_pending run world = responded (response_of run world)
  answer_of RunState.batch_processing run world = responded (response_of run world)
  answer_of RunState.streaming run world = responded (response_of run world)
  answer_of RunState.pending_tools run world = responded (response_of run world)
  answer_of RunState.awaiting_input run world = responded (response_of run world)

  unfoldable pub build_response : Run → World → Answered
  build_response run world = answer_of run.state run world

-- `GetRun` in the wait: the text of its error where it fails.
pub data WaitEvent : Type 0 where
  context_done : Bytes → WaitEvent
  notified : Option Run → World → WaitEvent
  tick : Option Bytes → World → WaitEvent

pub data Waited : Type 0 where
  returned : Answered → Waited
  fails_with : Bytes → Waited
  run_not_found panics still_waiting : Waited

module _ (breaks : ReadCall → Bool) where
  abbrev pub look_at : Option Run → World → Waited → Waited
  look_at none world rest = run_not_found
  look_at (some run) world rest =
      if run_is_terminal run.state then returned (build_response breaks run world) else rest

  -- The look at the run, and what follows where it goes on.
  abbrev pub look : Option Bytes → ℕ → World → Waited → Waited
  look (some message) id world rest = fails_with message
  look none id world rest = look_at (find_run id world.runs) world rest

  unfoldable pub wait_events : ℕ → List WaitEvent → Waited
  wait_events id [] = still_waiting
  wait_events id (context_done message ∷ events) = fails_with message
  wait_events id (notified none world ∷ events) = panics
  wait_events id (notified (some run) world ∷ events) = returned (build_response breaks run world)
  wait_events id (tick broken world ∷ events) = look broken id world (wait_events id events)

  -- The channel is registered first, then the run is looked at.
  unfoldable pub wait_for_run : ℕ → Option Bytes → World → List WaitEvent → Waited
  wait_for_run id broken world events = look broken id world (wait_events id events)
