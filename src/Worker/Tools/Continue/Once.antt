-- ===== src/Worker/Tools/Continue/Once.antt =====
-- What the completion of an iteration's tools writes, and how often.
use agentpg.Base.{
  ℕ, ◌≡◌, refl, ap, ◌∙◌, inl, inr, ◌⊎◌, Bool, true, false, List, [], ◌∷◌, Option, none, some, All,
  Memᴰ, Bool-cases,
}
use mathlib.Core.Option
use agentpg.Driver.{ContentBlock}
use agentpg.Store.Runs.{Run, ToolExecution, run_is_terminal}
use agentpg.Store.World.{
  World, find_run, insert_results, is_waiting, skipped, continued, write_run, fire, continued_run,
  handle_child_run_complete, complete_tools_and_continue_run,
}
use agentpg.Store.World.Rows.{find-update}

fire-continued :
    (now : ℕ) (found : Option Run) (tools : List ToolExecution)
    → fire now found continued_run tools ≡ tools
unfolding handle_child_run_complete continued_run run_is_terminal
fire-continued now none tools = refl
fire-continued now (some run) tools = refl

pub write-continued_tools :
    (id : ℕ) (world : World) → (write_run id continued_run world).tools ≡ world.tools
unfolding write_run
write-continued_tools id world = fire-continued world.db.now (find_run id world.runs) world.tools

-- The update that continues a run, as it is found.
pub find-write_continued :
    (id : ℕ) (world : World)
    → find_run id (write_run id continued_run world).runs
      ≡ Option.map continued_run (find_run id world.runs)
unfolding write_run continued_run
find-write_continued id world = find-update id continued_run world.runs (λ row. refl)

pub complete-skipped :
    (id session : ℕ) (blocks : List ContentBlock) (world : World) (run : Run)
    → find_run id world.runs ≡ some run
    → is_waiting run.state ≡ false
    → complete_tools_and_continue_run false session id blocks world ≡ (world, skipped)
unfolding complete_tools_and_continue_run
complete-skipped id session blocks world run found over = rw (found, over) refl

pub complete-continued :
    (id session : ℕ) (blocks : List ContentBlock) (world : World) (run : Run)
    → find_run id world.runs ≡ some run
    → is_waiting run.state ≡ true
    → complete_tools_and_continue_run false session id blocks world ≡ (
      record (write_run id continued_run world) { db = insert_results session id blocks world.db },
      continued,
    )
unfolding complete_tools_and_continue_run
complete-continued id session blocks world run found waits = rw (found, waits) refl

pub find_complete :
    (id session : ℕ) (blocks : List ContentBlock) (world : World) (run : Run)
    → find_run id world.runs ≡ some run
    → is_waiting run.state ≡ true
    → find_run id (complete_tools_and_continue_run false session id blocks world).0.runs
      ≡ some (continued_run run)
unfolding complete_tools_and_continue_run
find_complete id session blocks world run found waits =
    rw (found, waits) (find-write_continued id world ∙ ap (Option.map continued_run) found)

continued-over : (run : Run) → is_waiting (continued_run run).state ≡ false
unfolding continued_run
continued-over run = refl

-- One call of `CompleteToolsAndContinueRun` for a run, by whichever instance, with the blocks that it
-- has prepared.
pub record Attempt : Type 0 where
  pub breaks : Bool
  pub session : ℕ
  pub blocks : List ContentBlock

unfoldable pub completions : ℕ → List Attempt → World → World
completions id [] world = world
completions id (a ∷ attempts) world =
    completions id attempts (complete_tools_and_continue_run a.breaks a.session id a.blocks world).0

complete-broken :
    (id session : ℕ) (blocks : List ContentBlock) (world : World)
    → (complete_tools_and_continue_run true session id blocks world).0 ≡ world
unfolding complete_tools_and_continue_run
complete-broken id session blocks world = refl

complete-over :
    (breaks : Bool) (id session : ℕ) (blocks : List ContentBlock) (world : World) (run : Run)
    → find_run id world.runs ≡ some run
    → is_waiting run.state ≡ false
    → (complete_tools_and_continue_run breaks session id blocks world).0 ≡ world
complete-over true id session blocks world run found over = complete-broken id session blocks world
complete-over false id session blocks world run found over =
    ap (λ p. p.0) (complete-skipped id session blocks world run found over)

completions-over :
    (id : ℕ) (attempts : List Attempt) (world : World) (run : Run)
    → find_run id world.runs ≡ some run
    → is_waiting run.state ≡ false
    → completions id attempts world ≡ world
unfolding completions
completions-over id [] world run found over = refl
completions-over id (a ∷ attempts) world run found over =
    rw (complete-over a.breaks id a.session a.blocks world run found over)
      (completions-over id attempts world run found over)

abbrev pub Once : ℕ → List Attempt → World → World → Type 0
Once id attempts world after =
    (All (λ a. a.breaks ≡ true) attempts × (after ≡ world))
    ⊎ ((a : Attempt) × Memᴰ a attempts
        × (a.breaks ≡ false)
        × (after ≡ (complete_tools_and_continue_run false a.session id a.blocks world).0))

-- However many instances complete the tools of a waiting run, in any order and with whatever blocks:
-- what they do together is nothing, where every call fails, or what one of them would do alone.
pub completions-Once :
    (id : ℕ) (attempts : List Attempt) (world : World) (run : Run)
    → find_run id world.runs ≡ some run
    → is_waiting run.state ≡ true
    → Once id attempts world (completions id attempts world)
unfolding completions
completions-Once id [] world run found waits = inl (tt, refl)
completions-Once id (a ∷ attempts) world run found waits = elim (Bool-cases a.breaks) [
  | inl broken ↦ go broken (completions-Once id attempts world run found waits)
  | inr whole ↦ inr (a, Memᴰ.head refl, whole, first whole)
]
  where
    next : World
    next = (complete_tools_and_continue_run false a.session id a.blocks world).0

    first :
        a.breaks ≡ false
        → completions id attempts
            (complete_tools_and_continue_run a.breaks a.session id a.blocks world).0
          ≡ next
    first whole = rw whole (
        completions-over id attempts next (continued_run run)
          (find_complete id a.session a.blocks world run found waits) (continued-over run))

    go :
        a.breaks ≡ true
        → Once id attempts world (completions id attempts world)
        → Once id (a ∷ attempts) world (
            completions id attempts
              (complete_tools_and_continue_run a.breaks a.session id a.blocks world).0)
    go broken (inl (all, same)) =
        inl ((broken, all), rw (broken, complete-broken id a.session a.blocks world) same)
    go broken (inr (b, m, whole, same)) =
        inr (b, Memᴰ.tail m, whole, rw (broken, complete-broken id a.session a.blocks world) same)
