-- ===== src/Worker/Tools/Continue/Context.antt =====
-- The results of the tools reach the next request of the run.
use mathlib.Core.Option
use agentpg.Base.{
  ℕ, ◌≡◌, refl, sym, ap, subst, ◌∙◌, inl, inr, Bool, true, false, ◌&&◌, List, [], ◌∷◌, ◌++◌, keep,
  Option, none, some, ltb, ◌==◌, Bool-cases, arith,
}
use agentpg.Driver.{Message}
use agentpg.Store.Messages.{in_session}
use agentpg.Store.Runs.{Run, update_run}
use agentpg.Store.World.{
  World, find_run, is_waiting, continued_run, get_tool_executions_by_iteration,
}
use agentpg.Store.World.Rows.{find-here, find-next, find-id}
use agentpg.Store.Context.{is_id, of_run, is_root_run, is_root, get_messages_for_run_context}
use agentpg.Worker.Tools.{tool_results}
use agentpg.Worker.Tools.Continue.{ToolsCall, handle_all_tools_complete}
use agentpg.Worker.Tools.Continue.Recovery.{handle_all-sends}

root-continued :
    (session id other : ℕ) (runs : List Run)
    → is_root_run session other (update_run id continued_run runs) ≡ is_root_run session other runs
unfolding is_root_run continued_run
root-continued session id other [] = refl
root-continued session id other (row ∷ runs) = ground (arith, root-continued session id other runs)

is_root-continued :
    (session id : ℕ) (owner : Option ℕ) (runs : List Run)
    → is_root session (update_run id continued_run runs) owner ≡ is_root session runs owner
is_root-continued session id none runs = refl
is_root-continued session id (some other) runs = root-continued session id other runs

keep-same :
    (p q : Message → Bool) (messages : List Message)
    → ((msg : Message) → p msg ≡ q msg)
    → keep p messages ≡ keep q messages
keep-same p q [] same = refl
keep-same p q (msg ∷ messages) same = rw (same msg, keep-same p q messages same) refl

keep-last :
    (p : Message → Bool) (messages : List Message) (msg : Message)
    → p msg ≡ true
    → keep p (messages ++ msg ∷ []) ≡ keep p messages ++ msg ∷ []
keep-last p [] msg h = rw h refl
keep-last p (x ∷ messages) msg h = elim (Bool-cases (p x)) [
  | inl yes_ ↦ rw yes_ (ap (◌∷◌ x) (keep-last p messages msg h))
  | inr no_ ↦ rw no_ (keep-last p messages msg h)
]

root-head :
    (session id : ℕ) (row : Run) (runs : List Run)
    → (row.id == id) ≡ true
    → row.session_id ≡ session
    → ltb 0 row.depth ≡ false
    → is_root_run session id (row ∷ runs) ≡ true
unfolding is_root_run
root-head session id row runs here same top = ground arith

root-tail :
    (session id : ℕ) (row : Run) (runs : List Run)
    → is_root_run session id runs ≡ true
    → is_root_run session id (row ∷ runs) ≡ true
unfolding is_root_run
root-tail session id row runs h = ground arith

root-here :
    (session id : ℕ) (runs : List Run) (run : Run)
    → find_run id runs ≡ some run
    → run.session_id ≡ session
    → ltb 0 run.depth ≡ false
    → is_root_run session id runs ≡ true
unfolding find_run
root-here session id [] run found same top = absurd cc
root-here session id (row ∷ runs) run found same top = elim (Bool-cases (row.id == id)) [
  | inl here ↦
      let e = Option.some-injective row run (sym (find-here id row runs here) ∙ found) in
      root-head session id row runs here (subst (λ r. r.session_id ≡ session) (sym e) same)
        (subst (λ r. ltb 0 r.depth ≡ false) (sym e) top)
  | inr there ↦
      root-tail session id row runs
        (root-here session id runs run (sym (find-next id row runs there) ∙ found) same top)
]

context-nested :
    (id : ℕ) (world : World) (run : Run)
    → find_run id world.runs ≡ some run
    → ltb 0 run.depth ≡ true
    → get_messages_for_run_context false id world ≡ some (keep (of_run run.id) world.db.messages)
unfolding get_messages_for_run_context
context-nested id world run found deep = rw (found, deep) refl

context-root :
    (id : ℕ) (world : World) (run : Run)
    → find_run id world.runs ≡ some run
    → ltb 0 run.depth ≡ false
    → get_messages_for_run_context false id world
      ≡ some (
          keep
            (λ msg. in_session run.session_id msg && is_root run.session_id world.runs msg.run_id)
            world.db.messages)
unfolding get_messages_for_run_context
context-root id world run found top = rw (found, top) refl

is_id_refl : (id : ℕ) → is_id id (some id) ≡ true
is_id_refl id = ground arith

same-seen :
    (id : ℕ) (run : Run) (world after : World)
    → after.runs ≡ update_run id continued_run world.runs
    → (msg : Message)
    → (in_session run.session_id msg && is_root run.session_id after.runs msg.run_id)
      ≡ (in_session run.session_id msg && is_root run.session_id world.runs msg.run_id)
same-seen id run world after runs msg =
    rw (runs, is_root-continued run.session_id id msg.run_id world.runs) refl

in-root : (session : ℕ) {root : Bool} → root ≡ true → ((session == session) && root) ≡ true
in-root session {root} h = rw h (ground arith)

module _ (breaks : ToolsCall → Bool) (works : (c : ToolsCall) → breaks c ≡ false) where
  abbrev pub Extends : ℕ → ℕ → World → Type 0
  Extends id iteration world =
      (before : List Message) × (after : World) × (message : Message)
      × (get_messages_for_run_context false id world ≡ some before)
      × (handle_all_tools_complete breaks id world ≡ some after)
      × (get_messages_for_run_context false id after ≡ some (before ++ message ∷ []))
      × (message.content ≡ tool_results (get_tool_executions_by_iteration iteration world.tools))

  -- The results of the tools reach the next request: where no call fails, what the handler does to a
  -- waiting run adds one message to the end of the run's context, with the results of its current
  -- iteration, and changes nothing else of it.
  pub handle_all-Extends :
      (id iteration : ℕ) (world : World) (run : Run)
      → find_run id world.runs ≡ some run
      → is_waiting run.state ≡ true
      → run.current_iteration_id ≡ some iteration
      → Extends id iteration world
  unfolding continued_run
  handle_all-Extends id iteration world run found waits current =
      let (after, (handled, sent, tools, runs, (message, stored, session, owner, role, content))) =
        handle_all-sends breaks works id iteration world run found waits current in
      elim (Bool-cases (ltb 0 run.depth)) [
        | inl deep ↦ (
          keep (of_run run.id) world.db.messages,
          after,
          message,
          context-nested id world run found deep,
          handled,
          context-nested id after (continued_run run) sent deep
              ∙ ap some (
                  ap (keep (of_run run.id)) stored
                  ∙ keep-last (of_run run.id) world.db.messages message
                      (rw (owner, find-id id world.runs run found) (is_id_refl run.id))),
          content,
        )
        | inr top ↦
            let seen = λ (msg : Message).
              in_session run.session_id msg && is_root run.session_id world.runs msg.run_id in
            let seen_after = λ (msg : Message).
              in_session run.session_id msg && is_root run.session_id after.runs msg.run_id in
            (
              keep seen world.db.messages,
              after,
              message,
              context-root id world run found top,
              handled,
              context-root id after (continued_run run) sent top
                  ∙ ap some (
                      keep-same seen_after seen after.db.messages
                        (same-seen id run world after runs)
                      ∙ ap (keep seen) stored
                      ∙ keep-last seen world.db.messages message (
                          rw (session, owner)
                            (in-root run.session_id
                              (root-here run.session_id id world.runs run found refl top)))),
              content,
            )
      ]
