-- ===== src/Client/Wait/Returns.antt =====
-- The wait ends.
use agentpg.Base.{ap, ℕ, ◌≡◌, refl, ◌∙◌, Bool, true, false, List, [], ◌∷◌, ◌++◌, All, none, some}
use agentpg.Store.Runs.{Run, run_is_terminal}
use agentpg.Store.World.{World, find_run}
use agentpg.Client.Wait.{
  ReadCall, WaitEvent, tick, notified, context_done, Waited, returned, look, build_response,
  wait_events, wait_for_run,
}

-- The run is there and has not ended.
abbrev pub GoesOn : ℕ → World → Type 0
GoesOn id world =
    (run : Run) × (find_run id world.runs ≡ some run) × (run_is_terminal run.state ≡ false)

-- The ticks of the worlds, none of them with an error.
abbrev pub ticks : List World → List WaitEvent
ticks [] = []
ticks (world ∷ worlds) = tick none world ∷ ticks worlds

module _ (breaks : ReadCall → Bool) (id : ℕ) where
  look-on :
      (world : World) (rest : Waited) → GoesOn id world → look breaks none id world rest ≡ rest
  look-on world rest (run, found, open_) = rw (found, open_) refl

  -- The event tells that the run has ended: a tick that finds it so, or a notification that brings it.
  abbrev pub Tells : Run → WaitEvent → Type 0
  Tells run (tick none world) = find_run id world.runs ≡ some run
  Tells run (tick (some message) world) = ⊥
  Tells run (notified none world) = ⊥
  Tells run (notified (some other) world) = other ≡ run
  Tells run (context_done message) = ⊥

  -- The tables as they are when the event is handled.
  abbrev pub tables_at : WaitEvent → World → World
  tables_at (tick broken world) start = world
  tables_at (notified run world) start = world
  tables_at (context_done message) start = start

  told-returns :
      (start : World) (event : WaitEvent) (run : Run) (rest : List WaitEvent)
      → Tells run event
      → run_is_terminal run.state ≡ true
      → wait_events breaks id (event ∷ rest)
        ≡ returned (build_response breaks run (tables_at event start))
  unfolding wait_events
  told-returns start (tick none world) run rest found over = rw (found, over) refl
  told-returns start (context_done message) run rest told over = elim told [ ]
  told-returns start (notified none world) run rest told over = elim told [ ]
  told-returns start (tick (some message) world) run rest told over = elim told [ ]
  told-returns start (notified (some other) world) run rest same over =
      ap (λ r. returned (build_response breaks r world)) same

  events-end :
      (start : World) (worlds : List World) (event : WaitEvent) (run : Run) (rest : List WaitEvent)
      → All (GoesOn id) worlds
      → Tells run event
      → run_is_terminal run.state ≡ true
      → wait_events breaks id (ticks worlds ++ event ∷ rest)
        ≡ returned (build_response breaks run (tables_at event start))
  unfolding wait_events
  events-end start [] event run rest idle told over = told-returns start event run rest told over
  events-end start (world ∷ worlds) event run rest (idle, idles) told over =
      look-on world (wait_events breaks id (ticks worlds ++ event ∷ rest)) idle
      ∙ events-end start worlds event run rest idles told over

  -- The wait returns at the first event that tells that the run has ended, if each look before finds it
  -- unfinished, whatever events would follow.
  pub wait_for_run-returns :
      (start spare : World) (worlds : List World) (event : WaitEvent) (run : Run)
      (rest : List WaitEvent)
      → GoesOn id start
      → All (GoesOn id) worlds
      → Tells run event
      → run_is_terminal run.state ≡ true
      → wait_for_run breaks id none start (ticks worlds ++ event ∷ rest)
        ≡ returned (build_response breaks run (tables_at event spare))
  unfolding wait_for_run
  wait_for_run-returns start spare worlds event run rest going idle told over =
      look-on start (wait_events breaks id (ticks worlds ++ event ∷ rest)) going
      ∙ events-end spare worlds event run rest idle told over
