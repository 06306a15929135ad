-- ===== src/Compaction/Compactor/Kept.antt =====
-- Which messages a compaction cannot delete.
use mathlib.Core.List.Memᴰ
use mathlib.Core.Path.{subst}
use agentpg.Base.{
  ℕ, ◌≡◌, ◌≢◌, refl, sym, ap, ◌∙◌, inl, inr, Bool, true, false, not, ◌&&◌, ◌||◌, List, [], ◌∷◌,
  keep, All, All-Memᴰ, Memᴰ, Memᴰ-keep, Memᴰ_of_keep, ◌==◌, Bool-cases, arith,
}
use agentpg.Driver.{Message}
use agentpg.Anthropic.{Sdk}
use agentpg.Store.Messages.{Db, Faults, in_session, messages_of}
use agentpg.Compaction.Config.{Config}
use agentpg.Compaction.Counter.{TokenCounter, count_tokens}
use agentpg.Compaction.Partition.{MessagePartition, DistinctIds, ids}
use agentpg.Compaction.Partition.Conservation.{partition-shape}
use agentpg.Compaction.Compactor.{Compactor, partition_messages, compact}
use agentpg.Compaction.Compactor.Effects.{contains}
use agentpg.Compaction.Compactor.Safety.{Among, found, compact-Compacts}

contains-Among :
    (id : ℕ) (xs ys : List ℕ) → Among xs ys → contains id ys ≡ false → contains id xs ≡ false
unfolding contains
contains-Among id [] ys h absent = refl
contains-Among id (x ∷ xs) ys h absent = elim (Bool-cases (x == id)) [
  | inl same ↦ ground (arith, h.0)
  | inr differs ↦ rw differs (contains-Among id xs ys h.1 absent)
]

pub holder :
    (id : ℕ) (ms : List Message)
    → contains id (ids ms) ≡ true
    → (m : Message) × Memᴰ m ms × (m.id ≡ id)
unfolding contains
holder id [] h = absurd cc
holder id (m ∷ ms) h = elim (Bool-cases (m.id == id)) [
  | inl same ↦ (m, Memᴰ.head refl, ground arith)
  | inr differs ↦ let (m', found, e) = holder id ms (ground arith) in (m', Memᴰ.tail found, e)
]

pub Distinct-eq :
    (ms : List Message) (a b : Message)
    → DistinctIds ms
    → Memᴰ a ms
    → Memᴰ b ms
    → a.id ≡ b.id
    → a ≡ b
Distinct-eq [] a b d ma mb e = elim ma [ ]
Distinct-eq (m ∷ ms) a b d (Memᴰ.head p) (Memᴰ.head q) e = p ∙ sym q
Distinct-eq (m ∷ ms) a b d (Memᴰ.head p) (Memᴰ.tail mb) e =
    absurd (All-Memᴰ _ b ms d.0 mb (sym (ap (λ (x : Message). x.id) p) ∙ e))
Distinct-eq (m ∷ ms) a b d (Memᴰ.tail ma) (Memᴰ.head q) e =
    absurd (All-Memᴰ _ a ms d.0 ma (sym (ap (λ (x : Message). x.id) q) ∙ sym e))
Distinct-eq (m ∷ ms) a b d (Memᴰ.tail ma) (Memᴰ.tail mb) e = Distinct-eq ms a b d.1 ma mb e

differ-keep :
    (p : Message → Bool) (m : Message) (ms : List Message)
    → All (λ other. m.id ≢ other.id) ms
    → All (λ other. m.id ≢ other.id) (keep p ms)
differ-keep p m [] d = tt
differ-keep p m (x ∷ xs) d = elim (Bool-cases (p x)) [
  | inl kept ↦ rw kept (d.0, differ-keep p m xs d.1)
  | inr dropped ↦ rw dropped (differ-keep p m xs d.1)
]

pub Distinct-keep :
    (p : Message → Bool) (ms : List Message) → DistinctIds ms → DistinctIds (keep p ms)
Distinct-keep p [] d = tt
Distinct-keep p (m ∷ ms) d = elim (Bool-cases (p m)) [
  | inl kept ↦ rw kept (differ-keep p m ms d.0, Distinct-keep p ms d.1)
  | inr dropped ↦ rw dropped (Distinct-keep p ms d.1)
]

module _ (sdk : Sdk) (config : Config) (tc : TokenCounter) where
  -- A compactable message is one of the messages, and has neither flag.
  compactable-Memᴰ :
      (ms : List Message)
      → DistinctIds ms
      → (m : Message) → Memᴰ m (partition_messages sdk config tc ms).0.compactable
      → Memᴰ m ms × ((not m.is_summary && not m.is_preserved) ≡ true)
  unfolding partition_messages
  compactable-Memᴰ [] d m h = elim h [ ]
  compactable-Memᴰ (x ∷ xs) d m h =
      let (before, e, _, _, _, compactable) =
        partition-shape config (x ∷ xs) (count_tokens sdk tc (x ∷ xs)).0 d in
      let (m_before, unflagged) = Memᴰ_of_keep _ m before (subst (λ l. Memᴰ m l) compactable h) in
      (subst (λ l. Memᴰ m l) (sym e) (Memᴰ.append_left _ m_before), unflagged)

module _ (fails : Faults) (sdk : Sdk) (c : Compactor) (session : ℕ) (db : Db)
    (distinct : DistinctIds db.messages) (m : Message) (stored : Memᴰ m db.messages) where
  abbrev groups : MessagePartition
  groups = found fails sdk c session db

  pub found-Memᴰ :
      (x : Message)
      → Memᴰ x groups.compactable
      → Memᴰ x db.messages
        × ((not x.is_summary && not x.is_preserved) ≡ true)
        × (in_session session x ≡ true)
  unfolding messages_of
  found-Memᴰ x h =
      let (among, unflagged) =
        compactable-Memᴰ sdk c.config c.token_counter (messages_of db session)
          (Distinct-keep (in_session session) db.messages distinct) x h in
      let (found_in, here) = Memᴰ_of_keep (in_session session) x db.messages among in
      (found_in, unflagged, here)

  not-contained : ¬ Memᴰ m groups.compactable → contains m.id (ids groups.compactable) ≡ false
  not-contained h = elim (Bool-cases (contains m.id (ids groups.compactable))) [
    | inl held ↦
        let (x, x_in, e) = holder m.id groups.compactable held in
        let same = Distinct-eq db.messages x m distinct (found-Memᴰ x x_in).0 stored e in
        absurd (h (subst (λ y. Memᴰ y groups.compactable) same x_in))
    | inr free ↦ free
  ]

  -- With distinct identifiers, a stored message that the partition of its session does not call
  -- compactable is still stored after the compaction, unchanged.
  pub compact-keeps :
      ¬ Memᴰ m groups.compactable → Memᴰ m (compact fails sdk c session db).db.messages
  compact-keeps h =
      let (removed, new, e, among, _) = compact-Compacts fails sdk c session db in
      let absent = contains-Among m.id removed (ids groups.compactable) among (not-contained h) in
      subst (λ l. Memᴰ m l) (sym e)
        (Memᴰ.append_left new (Memᴰ-keep _ m db.messages stored (ap not absent)))

  -- With distinct identifiers, a stored message that is marked as preserved, is a summary, or belongs
  -- to another session is still stored after the compaction, unchanged.
  pub compact-keeps-flagged :
      (m.is_preserved || m.is_summary || not (in_session session m)) ≡ true
      → Memᴰ m (compact fails sdk c session db).db.messages
  compact-keeps-flagged flagged = compact-keeps (λ h. ground (arith, found-Memᴰ m h))
