-- ===== src/Ui/Conversation/Conserved.antt =====
-- What the view holds of the conversation.
use agentpg.Base.{
  ℕ, ◌+◌, ◌≡◌, sym, subst, ap, ◌∙◌, inl, inr, Bool, true, false, not, List, [], ◌∷◌, keep, length,
  All, All-map, total, total-ext, total-ext-All, total-add, total-one, total-swap, total-zero,
  total-keep, length-total, Option, none, some, ◌==◌, if◌then◌else◌, Bool-cases, arith,
}
use agentpg.Base.Int.{ℤ}
use agentpg.Driver.{Bytes, Message}
use agentpg.Store.Messages.{Session, find_session}
use agentpg.Store.Runs.{Run, ToolExecution}
use agentpg.Store.World.{World, find_run}
use agentpg.Store.Context.{is_id, of_run}
use agentpg.Ui.Summaries.{RunSummary, is_set, run_to_summary}
use agentpg.Ui.Groups.{MessageWithBlocks, max_depth}
use agentpg.Ui.Groups.Complete.{IsNested, weigh, build-weigh}
use agentpg.Ui.Conversation.{
  ConversationView, ViewCall, get_session, get_messages_with_run_info, get_runs_by_session, Viewed,
  shows, fails, limit_or_default, session_messages, session_runs, is_tool_result_only,
  shown_messages, tokens_in, is_orphan, messages_by_run, execs_of, view_of, view_found,
  get_hierarchical_conversation,
}

-- The run of a message, where it has one, is one of the list, once.
abbrev pub IsListed : List Run → Option ℕ → Type 0
IsListed runs none = Unit
IsListed runs (some id) = total (λ run. if run.id == id then 1 else 0) runs ≡ 1

abbrev pub Nested : List Run → Type 0
Nested runs = All (λ run. IsNested runs run.depth run.parent_run_id) runs

abbrev pub Listed : List Run → List Message → Type 0
Listed runs = All (λ msg. IsListed runs msg.run_id)

module _ (breaks : ViewCall → Bool) (name_of : ℕ → Bytes) (runs : List Run) where
  shown-Listed :
      (messages : List Message)
      → Listed runs messages
      → All (λ msg. IsListed runs msg.message.run_id) (shown_messages breaks name_of runs messages)
  shown-Listed [] h = tt
  shown-Listed (msg ∷ messages) (h, hs) = elim (Bool-cases (is_tool_result_only msg.content)) [
    | inl only ↦ rw only (shown-Listed messages hs)
    | inr other ↦ rw other (h, shown-Listed messages hs)
  ]

module _ (runs : List Run) where
  -- A message is an orphan or stands under one run.
  one_place :
      (run_id : Option ℕ) (v : ℕ)
      → IsListed runs run_id
      → (if not (is_set run_id) then v else 0)
          + total (λ run. if is_id run.id run_id then v else 0) runs
        ≡ v
  one_place none v h = omega (arith, total-zero runs)
  one_place (some id) v h = omega (
    arith,
    total-one (λ run. run.id == id) v runs h,
    total-ext (λ run. if is_id run.id (some id) then v else 0)
        (λ run. if run.id == id then v else 0) runs (λ run. ground arith),
  )

  placed :
      (f : MessageWithBlocks → ℕ) (shown : List MessageWithBlocks)
      → All (λ msg. IsListed runs msg.message.run_id) shown
      → total f shown
        ≡ total f (keep is_orphan shown)
          + total (λ run. total f (messages_by_run shown run.id)) runs
  placed f shown h =
      let cell : Run → MessageWithBlocks → ℕ =
        λ run msg. if of_run run.id msg.message then f msg else 0 in
      let here : MessageWithBlocks → ℕ = λ msg. if is_orphan msg then f msg else 0 in
      sym (
        total-ext-All (λ msg. here msg + total (λ run. cell run msg) runs) f shown
          (All-map (λ msg. IsListed runs msg.message.run_id) _ shown
            (λ msg listed. one_place msg.message.run_id (f msg) listed) h))
      ∙ total-add here (λ msg. total (λ run. cell run msg) runs) shown
      ∙ omega (
        arith,
        total-keep f is_orphan shown,
        total-swap cell runs shown,
        total-ext (λ run. total f (messages_by_run shown run.id)) (λ run. total (cell run) shown)
            runs (λ run. total-keep f (λ msg. of_run run.id msg.message) shown),
      )

-- Where the view is shown, none of the three reads has failed.
read-shown :
    (a b c : Bool) (found : Viewed) (view : ConversationView)
    → (if a then fails else if b then fails else if c then fails else found) ≡ shows view
    → found ≡ shows view
read-shown true b c found view h = absurd cc
read-shown false true c found view h = absurd cc
read-shown false false true found view h = absurd cc
read-shown false false false found view h = h

shown-view : (a b : ConversationView) → shows a ≡ shows b → a ≡ b
shown-view a b h = cc

module _ (breaks : ViewCall → Bool) (name_of : ℕ → Bytes)
    (w : RunSummary → List MessageWithBlocks → ℕ) (session_id : ℕ) where
  -- Each run once, with its messages; and what is counted is what is shown.
  abbrev pub Whole : List Run → List MessageWithBlocks → ConversationView → Type 0
  Whole runs shown view =
      (weigh w view.root_groups
        ≡ total (λ run. w (run_to_summary name_of run) (messages_by_run shown run.id)) runs)
      × (view.message_count
          ≡ length view.orphan_messages
            + weigh (λ summary messages. length messages) view.root_groups)
      × (view.total_tokens
          ≡ total tokens_in view.orphan_messages
            + weigh (λ summary messages. total tokens_in messages) view.root_groups)

  view-Whole :
      (session : Session) (runs : List Run) (messages : List Message) (tools : List ToolExecution)
      → Nested runs
      → Listed runs messages
      → Whole runs
          (shown_messages breaks name_of runs messages)
          (view_of breaks name_of session_id session runs messages tools)
  unfolding view_of
  view-Whole session runs messages tools nested listed =
      let shown = shown_messages breaks name_of runs messages in
      let h = shown-Listed breaks name_of runs messages listed in
      let execs = λ (id : ℕ). execs_of breaks name_of tools (find_run id runs) in
      let tree = λ (v : RunSummary → List MessageWithBlocks → ℕ).
        build-weigh name_of (messages_by_run shown) execs v runs (max_depth runs) nested
          (omega arith) in
      (
        tree w,
        length-total shown
            ∙ placed runs (λ msg. 1) shown h
            ∙ omega (
              arith,
              length-total (keep is_orphan shown),
              tree (λ summary messages. length messages),
              total-ext (λ run. length (messages_by_run shown run.id))
                  (λ run. total (λ msg. 1) (messages_by_run shown run.id)) runs
                  (λ run. length-total (messages_by_run shown run.id)),
            ),
        placed runs tokens_in shown h
            ∙ ap (λ n. total tokens_in (keep is_orphan shown) + n)
                (sym (tree (λ summary messages. total tokens_in messages))),
      )

  found-Whole :
      (found : Option Session) (limit : ℕ) (world : World) (view : ConversationView)
      → let runs = session_runs session_id world in
        let messages = session_messages limit session_id world in
        Nested runs
        → Listed runs messages
        → view_found breaks name_of found session_id limit world ≡ shows view
        → Whole runs (shown_messages breaks name_of runs messages) view
  found-Whole none limit world view nested listed h = absurd cc
  found-Whole (some session) limit world view nested listed h =
      let runs = session_runs session_id world in
      let messages = session_messages limit session_id world in
      subst (Whole runs (shown_messages breaks name_of runs messages))
        (shown-view (view_of breaks name_of session_id session runs messages world.tools) view h)
        (view-Whole session runs messages world.tools nested listed)

  -- A conversation that is shown is whole: the tree has each run of the session once, with its messages,
  -- so that a sum over the tree is the sum over the runs, and the messages and tokens that the view
  -- counts are those of the tree and of the messages without a run. The runs of the session that are
  -- read are nested, and the messages that are read belong to one of them or to none.
  pub get_hierarchical-Whole :
      (limit : ℤ) (world : World) (view : ConversationView)
      → let runs = session_runs session_id world in
        let messages = session_messages (limit_or_default limit) session_id world in
        Nested runs
        → Listed runs messages
        → get_hierarchical_conversation breaks name_of session_id limit world ≡ shows view
        → Whole runs (shown_messages breaks name_of runs messages) view
  unfolding get_hierarchical_conversation
  get_hierarchical-Whole limit world view nested listed h =
      let found = find_session session_id world.db.sessions in
      found-Whole found (limit_or_default limit) world view nested listed (
        read-shown (breaks get_session) (breaks get_messages_with_run_info)
          (breaks get_runs_by_session)
          (view_found breaks name_of found session_id (limit_or_default limit) world) view h)
