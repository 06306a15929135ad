-- ===== src/Client/Notices.antt =====
-- The notifications of client.go: handleNotification, notifyRunWaiters and the channels of WaitForRun,
-- with the triggers of run_worker.go, streaming_worker.go and tool_worker.go. A channel is its number.
-- The payloads are read by encoding/json, which is a parameter; none is its error.
pub mod Standing
pub mod Woken
use agentpg.Base.{
  ℕ, Bool, true, false, List, [], ◌∷◌, ◌++◌, length, codes, Option, none, some, ◌==◌, ltb, bytes_eq,
  if◌then◌else◌,
}
use agentpg.Driver.{Bytes}
use agentpg.Store.Runs.{Run}
use agentpg.Store.World.{find_run}

pub data Channel : Type 0 where
  run_created run_state run_finalized tool_pending tools_complete other_channel : Channel

pub record Notification : Type 0 where
  pub channel : Channel
  pub payload : Bytes

-- Each trigger channel holds at most one signal.
pub record ToolSignals : Type 0 where
  pub triggered : Bool
  pub complete : List ℕ

-- A worker is none before it is made. `waiters` maps a run to the channels that wait for it, where a
-- missing key is the empty list; `held` is what the buffer of a channel holds, a run or nil.
pub record Listening : Type 0 where
  pub run_worker : Option Bool
  pub streaming_worker : Option Bool
  pub tool_worker : Option ToolSignals
  pub waiters : ℕ → List ℕ
  pub held : ℕ → Option (Option Run)

abbrev pub trigger : Option Bool → Option Bool
trigger none = none
trigger (some signal) = some true

abbrev pub trigger_tools : Option ToolSignals → Option ToolSignals
trigger_tools none = none
trigger_tools (some signals) = some (record signals { triggered = true })

-- The buffer of the channel has room for 10000 runs.
abbrev pub handle_tools_complete : ℕ → Option ToolSignals → Option ToolSignals
handle_tools_complete id none = none
handle_tools_complete id (some signals) = some (
    if ltb (length signals.complete) 10000
    then record signals { complete = signals.complete ++ id ∷ [] }
    else signals)

abbrev pub register : ℕ → ℕ → Listening → Listening
register ch id s = record s {
  waiters = λ k. if k == id then s.waiters id ++ ch ∷ [] else s.waiters k;
}

-- The list without the first place of the channel.
unfoldable pub without : ℕ → List ℕ → List ℕ
without ch [] = []
without ch (w ∷ ws) = let rest = without ch ws in if w == ch then ws else w ∷ rest

abbrev pub leave : ℕ → ℕ → Listening → Listening
leave ch id s = record s {
  waiters = λ k. if k == id then without ch (s.waiters id) else s.waiters k;
}

-- A send that is skipped where the buffer is full.
abbrev pub send_to : Option Run → Option (Option Run) → Option (Option Run)
send_to run none = some run
send_to run (some held) = some held

unfoldable pub send_all : Option Run → List ℕ → (ℕ → Option (Option Run)) → ℕ → Option (Option Run)
send_all run [] held = held
send_all run (ch ∷ chs) held =
    send_all run chs (λ c. if ch == c then send_to run (held c) else held c)

unfoldable pub notify_run_waiters : ℕ → Option Run → Listening → Listening
notify_run_waiters id run s = record s {
  waiters = λ k. if k == id then [] else s.waiters k;
  held = send_all run (s.waiters id) s.held;
}

-- Both workers are triggered where the payload does not parse.
abbrev pub created_in : Option Bytes → Listening → Listening
created_in none s = record s {
  run_worker = trigger s.run_worker;
  streaming_worker = trigger s.streaming_worker;
}
created_in (some mode) s =
    if bytes_eq mode (codes "streaming")
    then record s { streaming_worker = trigger s.streaming_worker }
    else record s { run_worker = trigger s.run_worker }

-- `breaks` says whether GetRun fails.
abbrev pub finalized_in : Bool → List Run → Option ℕ → Listening → Listening
finalized_in breaks runs none s = s
finalized_in breaks runs (some id) s =
    if breaks then s else notify_run_waiters id (find_run id runs) s

abbrev pub completed_in : Option ℕ → Listening → Listening
completed_in none s = s
completed_in (some id) s = record s { tool_worker = handle_tools_complete id s.tool_worker }

module _ (parse_mode : Bytes → Option Bytes)
    (parse_finalized parse_complete : Bytes → Option ℕ) where
  abbrev pub handle_on : Channel → Bytes → Bool → List Run → Listening → Listening
  handle_on run_created payload breaks runs s = created_in (parse_mode payload) s
  handle_on run_state payload breaks runs s = s
  handle_on run_finalized payload breaks runs s =
      finalized_in breaks runs (parse_finalized payload) s
  handle_on tool_pending payload breaks runs s = record s {
    tool_worker = trigger_tools s.tool_worker;
  }
  handle_on tools_complete payload breaks runs s = completed_in (parse_complete payload) s
  handle_on other_channel payload breaks runs s = s

  unfoldable pub handle_notification : Notification → Bool → List Run → Listening → Listening
  handle_notification notif breaks runs s = handle_on notif.channel notif.payload breaks runs s

-- What changes the channels: a wait begins or ends, one takes the run from its channel, or a
-- notification is handled with the runs as they are then.
pub data ListenEvent : Type 0 where
  registered left : ℕ → ℕ → ListenEvent
  received : ℕ → ListenEvent
  noticed : Notification → Bool → List Run → ListenEvent

abbrev pub receive : ℕ → Listening → Listening
receive ch s = record s { held = λ c. if ch == c then none else s.held c }

module _ (parse_mode : Bytes → Option Bytes)
    (parse_finalized parse_complete : Bytes → Option ℕ) where
  abbrev pub listen : ListenEvent → Listening → Listening
  listen (registered ch id) s = register ch id s
  listen (left ch id) s = leave ch id s
  listen (received ch) s = receive ch s
  listen (noticed notif breaks runs) s =
      handle_notification parse_mode parse_finalized parse_complete notif breaks runs s

  unfoldable pub listen_all : List ListenEvent → Listening → Listening
  listen_all [] s = s
  listen_all (event ∷ events) s = listen_all events (listen event s)
