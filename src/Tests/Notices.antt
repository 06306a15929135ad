-- ===== src/Tests/Notices.antt =====
-- Two waits for one run and one for another, with the run's end read between them.
use agentpg.Base.{◌≡◌, refl, true, false, ℕ, List, [], ◌∷◌, ◌++◌, Option, none, some}
use agentpg.Driver.{Bytes}
use agentpg.Store.Runs.{Run, RunState}
use agentpg.Store.World.{find_run}
use agentpg.Client.Notices.{
  run_created, run_finalized, tools_complete, Listening, ListenEvent, registered, left, received,
  noticed, register, without, send_all, notify_run_waiters, handle_notification, listen_all,
}
use agentpg.Client.Notices.Standing.{Given}
use agentpg.Client.Notices.Woken.{listen_all-wakes}
use agentpg.Tests.Rows.{run}

abbrev idle : Listening
idle = record {
  run_worker = some false;
  streaming_worker = none;
  tool_worker = some (record { triggered = false; complete = [] });
  waiters = λ k. [];
  held = λ ch. none;
}

abbrev number : Bytes → Option ℕ
number [] = none
number (n ∷ ns) = some n

abbrev mode : Bytes → Option Bytes
mode [] = none
mode (n ∷ ns) = some (n ∷ ns)

abbrev ended : Run
ended = record run { state = RunState.completed }

abbrev before_end : List ListenEvent
before_end =
    registered 8 1
    ∷ registered 9 2
    ∷ noticed (record { channel = run_finalized; payload = 2 ∷ [] }) false (ended ∷ [])
    ∷ received 9
    ∷ left 9 2
    ∷ left 8 1
    ∷ noticed (record { channel = run_finalized; payload = 1 ∷ [] }) true (ended ∷ [])
    ∷ []

abbrev after_end : List ListenEvent
after_end =
    noticed (record { channel = tools_complete; payload = 1 ∷ [] }) false []
    ∷ noticed (record { channel = run_finalized; payload = 1 ∷ [] }) false []
    ∷ []

listen_all-wakes_example : Given 7 1 (
    listen_all mode number number
      (before_end
        ++ noticed (record { channel = run_finalized; payload = 1 ∷ [] }) false (ended ∷ [])
          ∷ after_end)
      (register 7 1 idle))
listen_all-wakes_example =
    listen_all-wakes mode number number 7 1 idle before_end after_end (1 ∷ []) (ended ∷ [])
      (refl, λ k. refl) (refl, (refl, (tt, (refl, (refl, (refl, (tt, tt))))))) (tt, (tt, tt)) refl

-- The wait holds the run as it was read first.
woken_run :
    (listen_all mode number number
        (before_end
          ++ noticed (record { channel = run_finalized; payload = 1 ∷ [] }) false (ended ∷ [])
            ∷ after_end)
        (register 7 1 idle)).held
      7
    ≡ some (some ended)
unfolding listen_all handle_notification notify_run_waiters send_all find_run without
woken_run = refl

-- A payload that does not parse signals the workers that there are.
signalled :
    (listen_all mode number number
      (noticed (record { channel = run_created; payload = [] }) false [] ∷ [])
      idle).run_worker
    ≡ some true
unfolding listen_all handle_notification
signalled = refl
