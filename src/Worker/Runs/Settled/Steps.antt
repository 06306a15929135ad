-- ===== src/Worker/Runs/Settled/Steps.antt =====
-- The steps of a run's processing touch that run only.
use agentpg.Base.{
  ℕ, refl, inl, inr, Bool, true, false, [], ◌∷◌, Option, none, some, ◌==◌, Bool-cases,
}
use agentpg.Anthropic.{Sdk}
use agentpg.Driver.{Bytes}
use agentpg.Store.Messages.{Db, Faults, insert_message}
use agentpg.Store.Runs.{Run, RunState}
use agentpg.Store.World.{World}
use agentpg.Store.Context.{get_messages_for_run_context}
use agentpg.Worker.Messages.{build_messages}
use agentpg.Worker.Runs.{
  RunCall, create_iteration, get_messages, Tried, ok, err, Step, and_then, ◌>>=◌, write, lift,
  with_db, prompt_of, prompt_params, create_prompt, insert_iteration, create_iteration_of,
  messages_or_error, messages_for,
}
use agentpg.Worker.Runs.Settled.Touching.{
  InState, AnyState, Touches, Touches-refl, Touches-trans, Touches-same, Processed,
}

pub Processed-from {ℓ} :
    {A : Type ℓ} (Q : RunState → Type 0) (id : ℕ) (world between : World) (result : World × Tried A)
    → Touches id world between
    → Processed Q id between result
    → Processed Q id world result
Processed-from Q id world between (after, ok a) first (touched, state) =
    (Touches-trans id world between after first touched, λ h. state (first.1 h))
Processed-from Q id world between (after, err message) first touched =
    Touches-trans id world between after first touched

Processed-and_then {ℓ κ} :
    {A : Type ℓ} {B : Type κ} (Q : RunState → Type 0) (id : ℕ) (world : World)
    (first : World × Tried A) (next : A → Step B)
    → Touches id world first.0
    → ((a : A) (between : World) → Processed Q id between (next a between))
    → Processed Q id world (and_then first next)
Processed-and_then Q id world (between, ok a) next touched h =
    Processed-from Q id world between (next a between) touched (h a between)
Processed-and_then Q id world (between, err message) next touched h = touched

-- A step that touches the run only, and what follows it.
pub Processed-bind {ℓ κ} :
    {A : Type ℓ} {B : Type κ} (Q : RunState → Type 0) (id : ℕ) (step : Step A) (next : A → Step B)
    → ((world : World) → Touches id world (step world).0)
    → ((a : A) (world : World) → Processed Q id world (next a world))
    → (world : World) → Processed Q id world ((step >>= next) world)
Processed-bind Q id step next touches h world =
    Processed-and_then Q id world (step world) next (touches world) h

pub lift-Touches {ℓ} :
    {A : Type ℓ} (id : ℕ) (wrap : Bytes) (answer : Tried A) (world : World)
    → Touches id world (lift wrap answer world).0
lift-Touches id wrap (ok a) world = Touches-refl id world
lift-Touches id wrap (err message) world = Touches-refl id world

pub write-Touches :
    (id : ℕ) (broken : Option Bytes) (wrap : Bytes) (f : World → World)
    → ((world : World) → Touches id world (f world))
    → (world : World) → Touches id world (write broken wrap f world).0
write-Touches id none wrap f h world = h world
write-Touches id (some message) wrap f h world = Touches-refl id world

pub write-Processed :
    (Q : RunState → Type 0) (id : ℕ) (broken : Option Bytes) (wrap : Bytes) (f : World → World)
    → ((world : World)
        → Touches id world (f world) × (InState AnyState world id → InState Q (f world) id))
    → (world : World) → Processed Q id world (write broken wrap f world)
write-Processed Q id none wrap f h world = h world
write-Processed Q id (some message) wrap f h world = Touches-refl id world

module _ (breaks : ℕ → RunCall → Option Bytes) (fails : Faults) (message_error : Bytes)
    (run : Run) where
  with_db-Touches :
      (world : World) (made : Db × Bool)
      → Touches run.id world (with_db breaks fails message_error world made).0
  with_db-Touches world (db, true) = Touches-same run.id world (record world { db = db }) refl
  with_db-Touches world (db, false) = Touches-same run.id world (record world { db = db }) refl

  prompt_of-Touches :
      (prompt : Bytes) (world : World)
      → Touches run.id world (prompt_of breaks fails message_error run prompt world).0
  prompt_of-Touches [] world = Touches-refl run.id world
  prompt_of-Touches (b ∷ bs) world = elim (Bool-cases (run.current_iteration == 0)) [
    | inl first ↦ rw first (
        with_db-Touches world
          (insert_message fails world.db (prompt_params breaks fails message_error run (b ∷ bs))))
    | inr later ↦ rw later (Touches-refl run.id world)
  ]

  pub create_prompt-Touches :
      (world : World) → Touches run.id world (create_prompt breaks fails message_error run world).0
  unfolding create_prompt
  create_prompt-Touches world = prompt_of-Touches run.prompt world

  insert-Touches :
      (broken : Option Bytes) (is_streaming : Bool) (world : World)
      → Touches run.id world
          (insert_iteration breaks fails message_error broken run is_streaming world).0
  insert-Touches none is_streaming world =
      Touches-same run.id world
        (insert_iteration breaks fails message_error none run is_streaming world).0 refl
  insert-Touches (some message) is_streaming world = Touches-refl run.id world

  pub create_iteration-Touches :
      (is_streaming : Bool) (world : World)
      → Touches run.id world
          (create_iteration_of breaks fails message_error run is_streaming world).0
  unfolding create_iteration_of
  create_iteration-Touches is_streaming world =
      insert-Touches (breaks run.id create_iteration) is_streaming world

  messages_or_error-Touches {ℓ} :
      {A : Type ℓ} (broken : Option Bytes) (built : Option A) (world : World)
      → Touches run.id world (messages_or_error breaks fails message_error broken built world).0
  messages_or_error-Touches (some message) built world = Touches-refl run.id world
  messages_or_error-Touches none none world = Touches-refl run.id world
  messages_or_error-Touches none (some messages) world = Touches-refl run.id world

  pub messages_for-Touches :
      (sdk : Sdk) (world : World)
      → Touches run.id world (messages_for breaks fails message_error sdk run world).0
  unfolding messages_for
  messages_for-Touches sdk world =
      messages_or_error-Touches (breaks run.id get_messages)
        (build_messages sdk (get_messages_for_run_context false run.id world)) world
