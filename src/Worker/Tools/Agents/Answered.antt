-- ===== src/Worker/Tools/Agents/Answered.antt =====
-- The result of an agent's run answers the tool use of the parent.
use mathlib.Core.List.Memᴰ
use agentpg.Base.{
  ℕ, suc, ◌≡◌, refl, sym, subst, Bool, true, false, not, List, [], ◌∷◌, none, some, Memᴰ, ◌==◌,
  if◌then◌else◌, arith,
}
use agentpg.Driver.{Bytes, ContentBlock, tool_result}
use agentpg.Store.Runs.{Run, RunState, ToolExecution, run_is_terminal, tool_is_terminal}
use agentpg.Store.Tools.{start_tool_execution}
use agentpg.Store.World.{
  World, find_run, update_tool, child_completed, handle_child_run_complete, write_run, is_completed,
}
use agentpg.Store.World.Rows.{find-append}
use agentpg.Worker.Answer.{empty_block, or_empty}
use agentpg.Worker.Tools.{tool_result_block}
use agentpg.Worker.Tools.Agents.{
  AgentCall, TaskInput, new_run, create_run, child_params, execute_agent, execute_agent_tool,
}

Memᴰ-update :
    (id : ℕ) (f : ToolExecution → ToolExecution) (row : ToolExecution) (rows : List ToolExecution)
    → (row.id == id) ≡ true
    → Memᴰ row rows
    → Memᴰ (f row) (update_tool id f rows)
Memᴰ-update id f row [] same m = absurd (Memᴰ.not-nil m)
Memᴰ-update id f row (x ∷ rows) same (Memᴰ.head e) =
    subst (λ y. Memᴰ (f row) (update_tool id f (y ∷ rows))) e (rw same (Memᴰ.head refl))
Memᴰ-update id f row (x ∷ rows) same (Memᴰ.tail m) = Memᴰ.tail (Memᴰ-update id f row rows same m)

-- What the parent is told of the agent's run: its text, or its error where it failed without a text.
abbrev text_or_error : Bytes → Bytes → Bytes
text_or_error [] message = message
text_or_error (b ∷ bs) message = b ∷ bs

unfoldable pub agent_result : Bytes → Run → ContentBlock
agent_result use_id run = record (empty_block tool_result) {
  tool_result_for_use_id = use_id;
  tool_content =
      if is_completed run.state
      then or_empty run.response_text
      else text_or_error (or_empty run.response_text) (or_empty run.error_message);
  is_error = not (is_completed run.state);
}

abbrev pub started_row : ℕ → ℕ → ToolExecution → ToolExecution
started_row now child row = record (start_tool_execution now row) { child_run_id = some child }

abbrev pub done_row : ℕ → ℕ → Run → ℕ → ToolExecution → ToolExecution
done_row now child run later row = child_completed later run (started_row now child row)

done-terminal :
    (now child later : ℕ) (run : Run) (row : ToolExecution)
    → tool_is_terminal (done_row now child run later row).state ≡ true
unfolding child_completed start_tool_execution tool_is_terminal
done-terminal now child later run row = ground arith

done-result :
    (now child later : ℕ) (run : Run) (row : ToolExecution)
    → tool_result_block (done_row now child run later row) ≡ agent_result row.tool_use_id run
unfolding child_completed start_tool_execution agent_result
done-result now child later run row = ground arith

done-id :
    (now child later : ℕ) (run : Run) (row : ToolExecution)
    → (done_row now child run later row).id ≡ row.id
unfolding child_completed start_tool_execution
done-id now child later run row = refl

module _ (instance_id agent_id : ℕ) (prompt : Bytes) (exec : ToolExecution) (parent : Run)
    (world : World) where
  abbrev pub child_of : Run
  child_of = new_run world.db.next_id (child_params instance_id exec agent_id prompt parent)

  abbrev pub created_world : World
  created_world = record (create_run (child_params instance_id exec agent_id prompt parent) world) {
    tools =
        update_tool exec.id (λ row. record row { child_run_id = some world.db.next_id })
          (update_tool exec.id (start_tool_execution world.db.now) world.tools);
  }

  execute-creates :
      (breaks : AgentCall → Bool) (create_error : Bytes) (unmarshal : Bytes → TaskInput)
      → ((c : AgentCall) → breaks c ≡ false)
      → exec.agent_id ≡ some agent_id
      → unmarshal exec.tool_input ≡ TaskInput.task prompt
      → find_run exec.run_id world.runs ≡ some parent
      → execute_agent breaks create_error unmarshal instance_id exec world ≡ some created_world
  unfolding execute_agent execute_agent_tool create_run
  execute-creates breaks create_error unmarshal works agent input found =
      rw
        (
          works AgentCall.start,
          agent,
          input,
          works AgentCall.get_parent,
          found,
          works AgentCall.create,
          works AgentCall.link,
        )
        refl

  find-child :
      find_run world.db.next_id world.runs ≡ none
      → find_run world.db.next_id created_world.runs ≡ some child_of
  unfolding create_run new_run
  find-child fresh = find-append world.db.next_id world.runs child_of fresh (ground arith)

  child-open : run_is_terminal child_of.state ≡ false
  unfolding new_run run_is_terminal
  child-open = refl

  tools-done :
      (f : Run → Run)
      → find_run world.db.next_id world.runs ≡ none
      → (f child_of).parent_tool_execution_id ≡ some exec.id
      → run_is_terminal (f child_of).state ≡ true
      → (write_run world.db.next_id f created_world).tools
        ≡ update_tool exec.id
            (child_completed created_world.db.now (f child_of))
            created_world.tools
  unfolding write_run handle_child_run_complete
  tools-done f fresh linked over = rw (find-child fresh, over, child-open, linked) refl

  -- An agent as a tool, where no call fails and the input has a task: a run of the agent is created
  -- which waits for a worker, one level below the parent's and in its session. Once that run is
  -- written with a final state, the execution has ended and its result block tells what the agent's
  -- run came to.
  pub execute_agent-answers :
      (breaks : AgentCall → Bool) (create_error : Bytes) (unmarshal : Bytes → TaskInput)
      (f : Run → Run) (row : ToolExecution)
      → ((c : AgentCall) → breaks c ≡ false)
      → exec.agent_id ≡ some agent_id
      → unmarshal exec.tool_input ≡ TaskInput.task prompt
      → find_run exec.run_id world.runs ≡ some parent
      → find_run world.db.next_id world.runs ≡ none
      → (f child_of).parent_tool_execution_id ≡ some exec.id
      → run_is_terminal (f child_of).state ≡ true
      → (row.id == exec.id) ≡ true
      → Memᴰ row world.tools
      → (created : World) × (execute_agent breaks create_error unmarshal instance_id exec world
          ≡ some created)
        × (find_run world.db.next_id created.runs ≡ some child_of)
        × (child_of.state ≡ RunState.pending)
        × (child_of.session_id ≡ parent.session_id)
        × (child_of.depth ≡ suc parent.depth)
        × ((done : ToolExecution) × Memᴰ done (write_run world.db.next_id f created).tools
            × (tool_is_terminal done.state ≡ true)
            × (tool_result_block done ≡ agent_result row.tool_use_id (f child_of)))
  unfolding new_run start_tool_execution
  execute_agent-answers breaks create_error unmarshal f row works agent input found fresh linked
        over same stored =
      let now = world.db.now in
      let id = world.db.next_id in
      let later = created_world.db.now in
      (
        created_world,
        execute-creates breaks create_error unmarshal works agent input found,
        find-child fresh,
        refl,
        refl,
        refl,
        (
          done_row now id (f child_of) later row,
          subst (Memᴰ (done_row now id (f child_of) later row))
              (sym (tools-done f fresh linked over))
              (Memᴰ-update exec.id (child_completed later (f child_of)) (started_row now id row)
                created_world.tools same
                (Memᴰ-update exec.id (λ r. record r { child_run_id = some id })
                  (start_tool_execution now row)
                  (update_tool exec.id (start_tool_execution now) world.tools) same
                  (Memᴰ-update exec.id (start_tool_execution now) row world.tools same stored))),
          done-terminal now id later (f child_of) row,
          done-result now id later (f child_of) row,
        ),
      )
