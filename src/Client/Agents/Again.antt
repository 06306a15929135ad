-- ===== src/Client/Agents/Again.antt =====
-- GetOrCreateAgent a second time.
use mathlib.Core.List.Memᴰ
use agentpg.Base.{
  keep, Memᴰ, Memᴰ-last, Memᴰ_of_append, Memᴰ-keep, Memᴰ_of_keep, ◌≢◌, ℕ, ◌≡◌, refl, sym, ap, subst,
  ◌∙◌, inl, inr, ◌⊎◌, Bool, true, false, not, ◌&&◌, List, [], ◌∷◌, ◌++◌, Option, none, some,
  bytes_eq_refl, eq_of_bytes_eq, Bool-cases, arith,
}
use agentpg.Driver.{Bytes}
use agentpg.Store.Agents.{
  AgentStoreCall, Pick, picked, create_agent, get_agent_by_name, is_taken, is_name, insert_agent,
  is_named, find_agent_by_name,
}
use agentpg.Client.Agents.{
  AgentAnswer, given, create_valid, create_agent_of, found_or_create, get_or_create_named,
  get_or_create_agent,
}
use agentpg.Worker.Request.{AgentDefinition}

-- A new row has the definition's name and metadata.
inserted :
    (id : ℕ) (def a : AgentDefinition) (agents after : List AgentDefinition)
    → insert_agent id def agents ≡ some (after, a)
    → (after ≡ agents ++ a ∷ []) × (a ≡ record def { id = id })
unfolding insert_agent
inserted id def a agents after h =
    elim (Bool-cases (is_name def.name && not (is_taken def agents))) [
      | inl fits ↦ ground arith
      | inr clash ↦ absurd (ground arith)
    ]

module _ (breaks : AgentStoreCall → Bool) (id : ℕ) where
  create-inserts :
      (name model : Bytes) (def a : AgentDefinition) (agents after : List AgentDefinition)
      → create_valid breaks id name model def agents ≡ (after, given a)
      → insert_agent id def agents ≡ some (after, a)
  create-inserts [] model def a agents after h = absurd cc
  create-inserts (n ∷ ns) [] def a agents after h = absurd cc
  create-inserts (n ∷ ns) (m ∷ ms) def a agents after h = elim (Bool-cases (breaks create_agent)) [
    | inl broken ↦ absurd (ground arith)
    | inr works ↦ ground arith
  ]

no_rows-cases :
    (rows : List AgentDefinition)
    → (rows ≡ [])
      ⊎ ((row : AgentDefinition) × ((rest : List AgentDefinition) × (rows ≡ row ∷ rest)))
no_rows-cases [] = inl refl
no_rows-cases (row ∷ rest) = inr (row, (rest, refl))

-- A row is read that the query gives.
abbrev pub IsPick : Pick → Type 0
IsPick pick =
    (row : AgentDefinition) (rows : List AgentDefinition) → Memᴰ (pick row rows) (row ∷ rows)

module _ (has_entries : Bytes → Bool) (holds : Bytes → Bytes → Bool) where
  abbrev pub matches : AgentDefinition → AgentDefinition → Bool
  matches def = is_named has_entries holds def.name def.metadata

  -- A row of the table that has the name asked for and holds the metadata asked for.
  abbrev pub Matching : AgentDefinition → AgentDefinition → List AgentDefinition → Type 0
  Matching def a agents =
      Memᴰ a agents
      × (a.name ≡ def.name)
      × ((has_entries def.metadata ≡ true) → holds a.metadata def.metadata ≡ true)

  abbrev pub IsOnly : AgentDefinition → AgentDefinition → List AgentDefinition → Type 0
  IsOnly def a agents = (row : AgentDefinition) → Matching def row agents → row ≡ a

  -- The agent was there, or it is the one new row, and the only one that matches.
  abbrev pub Kept :
      AgentDefinition → AgentDefinition → List AgentDefinition → List AgentDefinition → Type 0
  Kept def a agents after =
      Matching def a after
      × ((after ≡ agents)
          ⊎ ((after ≡ agents ++ a ∷ []) × (a.metadata ≡ def.metadata) × IsOnly def a after))

  kept-Matching :
      (def a : AgentDefinition) (agents : List AgentDefinition)
      → Memᴰ a (keep (matches def) agents)
      → Matching def a agents
  kept-Matching def a agents m =
      let (stored, match) = Memᴰ_of_keep (matches def) a agents m in
      (stored, eq_of_bytes_eq a.name def.name (ground arith), λ h. ground arith)

  kept_of :
      (def a : AgentDefinition) (agents : List AgentDefinition)
      → Matching def a agents
      → Memᴰ a (keep (matches def) agents)
  kept_of def a agents (stored, name, held) =
      Memᴰ-keep (matches def) a agents stored (elim (Bool-cases (has_entries def.metadata)) [
        | inl some_ ↦ rw (name, bytes_eq_refl def.name, some_, held some_) refl
        | inr none_ ↦ rw (name, bytes_eq_refl def.name, none_) refl
      ])

  -- What is read of a query that gives rows.
  picked-Matching :
      (pick : Pick) (def : AgentDefinition) (agents : List AgentDefinition) (a : AgentDefinition)
      → IsPick pick
      → picked pick (keep (matches def) agents) ≡ some a
      → Matching def a agents
  picked-Matching pick def agents a fair h = elim (no_rows-cases (keep (matches def) agents)) [
    | inl gone ↦ let e : none ≡ some a = rw gone at h in absurd cc
    | inr (row, (rest, there)) ↦
        let e : some (pick row rest) ≡ some a = rw there at h in
        let same : pick row rest ≡ a = cc in
        kept-Matching def a agents
          (subst (Memᴰ a) (sym there) (subst (λ x. Memᴰ x (row ∷ rest)) same (fair row rest)))
  ]

  picked-there :
      (pick : Pick) (def a : AgentDefinition) (agents : List AgentDefinition)
      → Matching def a agents
      → (b : AgentDefinition) × (picked pick (keep (matches def) agents) ≡ some b)
  picked-there pick def a agents matching = elim (no_rows-cases (keep (matches def) agents)) [
    | inl gone ↦ absurd (Memᴰ.not-nil (subst (Memᴰ a) gone (kept_of def a agents matching)))
    | inr (row, (rest, there)) ↦ (pick row rest, ap (picked pick) there)
  ]

  -- What was there stays, and a new row is the only one where none matched.
  new_row-IsOnly :
      (def a : AgentDefinition) (agents : List AgentDefinition)
      → keep (matches def) agents ≡ []
      → IsOnly def a (agents ++ a ∷ [])
  new_row-IsOnly def a agents gone row (stored, name, held) =
      elim (Memᴰ_of_append agents (a ∷ []) stored) [
        | inl old ↦
            absurd (Memᴰ.not-nil (subst (Memᴰ row) gone (kept_of def row agents (old, name, held))))
        | inr (Memᴰ.head e) ↦ e
        | inr (Memᴰ.tail m) ↦ absurd (Memᴰ.not-nil m)
      ]

module _ (breaks : AgentStoreCall → Bool) (has_entries : Bytes → Bool)
    (holds : Bytes → Bytes → Bool)
    (reflexive : (metadata : Bytes) → holds metadata metadata ≡ true) where
  abbrev pub get_or_create :
      Pick
      → ℕ
      → AgentDefinition
      → List AgentDefinition
      → List AgentDefinition × AgentAnswer AgentDefinition
  get_or_create pick id = get_or_create_agent breaks id has_entries holds pick

  created_agent-Kept :
      (id : ℕ) (def a : AgentDefinition) (agents after : List AgentDefinition)
      → keep (matches has_entries holds def) agents ≡ []
      → create_agent_of breaks id def agents ≡ (after, given a)
      → Kept has_entries holds def a agents after
  unfolding create_agent_of
  created_agent-Kept id def a agents after gone h =
      let inserts = create-inserts breaks id def.name def.model def a agents after h in
      let (grown, row) = inserted id def a agents after inserts in
      let named : a.name ≡ def.name = ap (λ r. r.name) row in
      let data_ : a.metadata ≡ def.metadata = ap (λ r. r.metadata) row in
      (
        (
          subst (Memᴰ a) (sym grown) (Memᴰ-last agents a),
          named,
          λ some_. ap (λ m. holds m def.metadata) data_ ∙ reflexive def.metadata,
        ),
        inr (
          grown,
          data_,
          subst (IsOnly has_entries holds def a) (sym grown)
              (new_row-IsOnly has_entries holds def a agents gone),
        ),
      )

  opened :
      (pick : Pick) (id n : ℕ) (ns : Bytes) (def : AgentDefinition) (agents : List AgentDefinition)
      → breaks get_agent_by_name ≡ false
      → (found : Option AgentDefinition)
      → picked pick (keep (matches has_entries holds def) agents) ≡ found
      → get_or_create_named breaks id has_entries holds pick (n ∷ ns) def agents
        ≡ found_or_create breaks id has_entries holds pick found def agents
  unfolding find_agent_by_name
  opened pick id n ns def agents works found is = rw (works, is) refl

  abbrev Outcome : Type 0
  Outcome = List AgentDefinition × AgentAnswer AgentDefinition

  found-Kept :
      (def row a : AgentDefinition) (agents after : List AgentDefinition)
      → Matching has_entries holds def row agents
      → ◌≡◌ {A = Outcome} (agents, given row) (after, given a)
      → Kept has_entries holds def a agents after
  found-Kept def row a agents after there h =
      let same : agents ≡ after = ap (λ (o : Outcome). o.0) h in
      let answer : given row ≡ given a = ap (λ (o : Outcome). o.1) h in
      let e : row ≡ a = cc in
      (
        subst (λ t. Matching has_entries holds def a t) same
            (subst (λ r. Matching has_entries holds def r agents) e there),
        inl (sym same),
      )

  get_or_create-Kept :
      (pick : Pick) (id : ℕ) (name : Bytes) (def a : AgentDefinition)
      (agents after : List AgentDefinition)
      → IsPick pick
      → get_or_create_named breaks id has_entries holds pick name def agents ≡ (after, given a)
      → (breaks get_agent_by_name ≡ false) × Kept has_entries holds def a agents after
  unfolding find_agent_by_name
  get_or_create-Kept pick id [] def a agents after fair h = absurd cc
  get_or_create-Kept pick id (n ∷ ns) def a agents after fair h =
      elim (Bool-cases (breaks get_agent_by_name)) [
        | inl broken ↦ absurd (ground arith)
        | inr works ↦ (
          works,
          elim (no_rows-cases (keep (matches has_entries holds def) agents)) [
            | inl gone ↦
                created_agent-Kept id def a agents after gone
                  (sym (opened pick id n ns def agents works none (ap (picked pick) gone)) ∙ h)
            | inr (row, (rest, there)) ↦
                let read = ap (picked pick) there in
                found-Kept def (pick row rest) a agents after
                  (picked-Matching has_entries holds pick def agents (pick row rest) fair read)
                  (sym (opened pick id n ns def agents works (some (pick row rest)) read) ∙ h)
          ],
        )
      ]

  again-given :
      (pick : Pick) (id : ℕ) (name : Bytes) (def a : AgentDefinition)
      (agents : List AgentDefinition)
      → name ≢ []
      → breaks get_agent_by_name ≡ false
      → picked pick (keep (matches has_entries holds def) agents) ≡ some a
      → get_or_create_named breaks id has_entries holds pick name def agents ≡ (agents, given a)
  again-given pick id [] def a agents named works there = absurd (named refl)
  again-given pick id (n ∷ ns) def a agents named works there =
      opened pick id n ns def agents works (some a) there

  named_of :
      (pick : Pick) (id : ℕ) (name : Bytes) (def a : AgentDefinition)
      (agents after : List AgentDefinition)
      → get_or_create_named breaks id has_entries holds pick name def agents ≡ (after, given a)
      → name ≢ []
  named_of pick id [] def a agents after h = absurd cc
  named_of pick id (n ∷ ns) def a agents after h = λ e. cc

  -- GetOrCreateAgent, where it gives an agent: the agent is in the table afterwards, has the name that was
  -- asked for and holds the metadata that was asked for; and either the table is as it was, or the
  -- agent is the one new row, has just this metadata, and is the only one that matches. Asked again,
  -- it creates none and gives an agent of which the same is true, though where several match, it may
  -- be another one: the queries have no order, and each may read any row that matches. Where the
  -- first agent is the only one that matches, it is given again. Metadata holds itself.
  pub get_or_create-again :
      (pick pick_again : Pick) (id later : ℕ) (def a : AgentDefinition)
      (agents after : List AgentDefinition)
      → IsPick pick
      → IsPick pick_again
      → get_or_create pick id def agents ≡ (after, given a)
      → Kept has_entries holds def a agents after
        × ((b : AgentDefinition) × (get_or_create pick_again later def after ≡ (after, given b))
            × Matching has_entries holds def b after
            × (IsOnly has_entries holds def a after → b ≡ a))
  unfolding get_or_create_agent
  get_or_create-again pick pick_again id later def a agents after fair fair_again h =
      let (works, kept) = get_or_create-Kept pick id def.name def a agents after fair h in
      let (b, read) = picked-there has_entries holds pick_again def a after kept.0 in
      let matching = picked-Matching has_entries holds pick_again def after b fair_again read in
      (
        kept,
        (
          b,
          again-given pick_again later def.name def b after
              (named_of pick id def.name def a agents after h) works read,
          matching,
          λ only. only b matching,
        ),
      )
