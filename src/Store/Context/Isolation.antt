-- ===== src/Store/Context/Isolation.antt =====
-- What the context of a run holds, and what it does not.
use mathlib.Core.List.Memᴰ
use agentpg.Base.{
  ℕ, ◌≡◌, ◌≢◌, ◌↔◌, refl, sym, ap, subst, ◌∙◌, inl, inr, ◌⊎◌, true, false, ◌&&◌, List, [], ◌∷◌,
  keep, Option, none, some, Memᴰ, Memᴰ-keep, Memᴰ_of_keep, ltb, ◌==◌, Bool-cases, arith,
}
use agentpg.Driver.{Message}
use agentpg.Store.Messages.{in_session}
use agentpg.Store.Runs.{Run}
use agentpg.Store.World.{World, find_run}
use agentpg.Store.Context.{of_run, is_root_run, is_root, get_messages_for_run_context}

-- A message that the run may see: for an agent's own run only those of the run; for another run those
-- of its session that no run has, or that a run of the session has which no agent was called for.
abbrev pub Visible : World → Run → Message → Type 0
Visible world run msg =
    ((ltb 0 run.depth ≡ true) × (msg.run_id ≡ some run.id))
    ⊎ ((ltb 0 run.depth ≡ false)
        × (msg.session_id ≡ run.session_id)
        × ((msg.run_id ≡ none)
            ⊎ ((owner : Run) × Memᴰ owner world.runs
                × (msg.run_id ≡ some owner.id)
                × (owner.session_id ≡ run.session_id)
                × (owner.depth ≡ 0))))

true-false : true ≢ false
true-false e = cc

same_id : (a b : ℕ) → (a == b) ≡ true → a ≡ b
same_id a b h = ground arith

-- The query's test finds such a run.
root-found :
    (session id : ℕ) (runs : List Run)
    → is_root_run session id runs ≡ true
    → (owner : Run) × Memᴰ owner runs
      × (id ≡ owner.id)
      × (owner.session_id ≡ session)
      × (owner.depth ≡ 0)
unfolding is_root_run
root-found session id [] h = absurd cc
root-found session id (row ∷ rows) h =
    elim (Bool-cases (row.id == id && (row.session_id == session && row.depth == 0))) [
      | inl it ↦ (row, Memᴰ.head refl, ground arith, ground arith, ground arith)
      | inr other ↦
          let (owner, m, same, at, top) = root-found session id rows (ground arith) in
          (owner, Memᴰ.tail m, same, at, top)
    ]

root-test :
    (session : ℕ) (owner : Run) (runs : List Run)
    → Memᴰ owner runs
    → owner.session_id ≡ session
    → owner.depth ≡ 0
    → is_root_run session owner.id runs ≡ true
unfolding is_root_run
root-test session owner [] m at top = absurd (Memᴰ.not-nil m)
root-test session owner (row ∷ rows) (Memᴰ.head e) at top =
    subst (λ r. is_root_run session owner.id (r ∷ rows) ≡ true) e (ground arith)
root-test session owner (row ∷ rows) (Memᴰ.tail m) at top =
    ground (arith, root-test session owner rows m at top)

nested-Visible :
    (world : World) (run : Run) (msg : Message) (owner : Option ℕ)
    → msg.run_id ≡ owner
    → ltb 0 run.depth ≡ true
    → of_run run.id msg ≡ true
    → Visible world run msg
nested-Visible world run msg none e deep own = let own' : false ≡ true = rw e at own in absurd cc
nested-Visible world run msg (some id) e deep own =
    inl (deep, e ∙ ap some (same_id id run.id (rw e at own)))

root-Visible :
    (world : World) (run : Run) (msg : Message) (owner : Option ℕ)
    → msg.run_id ≡ owner
    → ltb 0 run.depth ≡ false
    → (in_session run.session_id msg && is_root run.session_id world.runs msg.run_id) ≡ true
    → Visible world run msg
root-Visible world run msg none e top own = inr (top, ground arith, inl e)
root-Visible world run msg (some id) e top own =
    let (owner, m, same, at, depth) = root-found run.session_id id world.runs (ground arith) in
    inr (top, ground arith, inr (owner, m, e ∙ ap some same, at, depth))

test-Visible :
    (world : World) (run : Run) (msg : Message)
    → ltb 0 run.depth ≡ false
    → Visible world run msg
    → (in_session run.session_id msg && is_root run.session_id world.runs msg.run_id) ≡ true
test-Visible world run msg top (inl (deep, own)) = absurd (true-false (sym deep ∙ top))
test-Visible world run msg top (inr (t, same, inl e)) = rw (e, same) (ground arith)
test-Visible world run msg top (inr (t, same, inr (owner, m, e, at, depth))) =
    let root = root-test run.session_id owner world.runs m at depth in rw (e, same) (ground arith)

own-Visible :
    (world : World) (run : Run) (msg : Message)
    → ltb 0 run.depth ≡ true
    → Visible world run msg
    → of_run run.id msg ≡ true
own-Visible world run msg deep (inl (d, own)) = rw own (ground arith)
own-Visible world run msg deep (inr (top, _, _)) = absurd (true-false (sym deep ∙ top))

-- The context of a run that is there holds the messages of the store that the run may see, and no
-- others: no agent's run sees what its parent or another agent said, and the other runs of the
-- session see nothing of the agents' runs.
pub get_messages-Visible :
    (id : ℕ) (world : World) (run : Run)
    → find_run id world.runs ≡ some run
    → (messages : List Message) × (get_messages_for_run_context false id world ≡ some messages)
      × ((msg : Message) → Memᴰ msg messages ↔ (Memᴰ msg world.db.messages × Visible world run msg))
unfolding get_messages_for_run_context
get_messages-Visible id world run found = elim (Bool-cases (ltb 0 run.depth)) [
  | inl deep ↦ (
    keep (of_run run.id) world.db.messages,
    rw (found, deep) refl,
    λ msg. (
      λ m.
          let (stored, own) = Memᴰ_of_keep (of_run run.id) msg world.db.messages m in
          (stored, nested-Visible world run msg msg.run_id refl deep own),
      λ (m, v).
          Memᴰ-keep (of_run run.id) msg world.db.messages m (own-Visible world run msg deep v),
    ),
  )
  | inr top ↦
      let test = λ (msg : Message).
        in_session run.session_id msg && is_root run.session_id world.runs msg.run_id in
      (
        keep test world.db.messages,
        rw (found, top) refl,
        λ msg. (
          λ m.
              let (stored, seen) = Memᴰ_of_keep test msg world.db.messages m in
              (stored, root-Visible world run msg msg.run_id refl top seen),
          λ (m, v). Memᴰ-keep test msg world.db.messages m (test-Visible world run msg top v),
        ),
      )
]
