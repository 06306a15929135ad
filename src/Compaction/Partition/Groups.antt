-- ===== src/Compaction/Partition/Groups.antt =====
-- What the groups of a partition hold after a run of one operation.
use mathlib.Core.List.{reverse-cons, map-append, append_assoc, append-nil}
use agentpg.Base.{
  ℕ, ◌+◌, ◌≡◌, refl, Bool, not, ◌&&◌, List, [], ◌∷◌, ◌++◌, map, reverse, keep, total, arith,
}
use agentpg.Driver.{Message}
use agentpg.Compaction.Partition.{
  Item, Pass, MessagePartition, add_protected, add_recent, add_remaining,
}
use agentpg.Compaction.Partition.Passes.{add_all}

abbrev pub messages : List Item → List Message
messages xs = map (λ x. x.0) xs

abbrev pub tokens : List Item → ℕ
tokens xs = total (λ x. x.1) xs

-- The three ways in which the third pass sorts a message.
abbrev pub is_summary_item : Item → Bool
is_summary_item x = x.0.is_summary

abbrev pub is_preserved_item : Item → Bool
is_preserved_item x = not x.0.is_summary && x.0.is_preserved

abbrev pub is_compactable_item : Item → Bool
is_compactable_item x = not x.0.is_summary && not x.0.is_preserved

messages_reverse-cons :
    (x : Item) (xs : List Item) (rest : List Message)
    → messages (reverse (x ∷ xs)) ++ rest ≡ messages (reverse xs) ++ x.0 ∷ rest
messages_reverse-cons x xs rest = rw (reverse-cons x xs, map-append, append_assoc) refl

abbrev protected_added : List Item → MessagePartition → MessagePartition
protected_added xs g = record g {
  protected = messages (reverse xs) ++ g.protected;
  stats = record (g.stats) { protected_tokens = g.stats.protected_tokens + tokens xs };
}

abbrev recent_added : List Item → MessagePartition → MessagePartition
recent_added xs g = record g {
  recent = messages (reverse xs) ++ g.recent;
  stats = record (g.stats) { recent_tokens = g.stats.recent_tokens + tokens xs };
}

abbrev remaining_added : List Item → MessagePartition → MessagePartition
remaining_added xs g = record g {
  summaries = g.summaries ++ messages (keep is_summary_item xs);
  preserved = g.preserved ++ messages (keep is_preserved_item xs);
  compactable = g.compactable ++ messages (keep is_compactable_item xs);
  stats = record (g.stats) {
    summary_tokens = g.stats.summary_tokens + tokens (keep is_summary_item xs);
    preserved_tokens = g.stats.preserved_tokens + tokens (keep is_preserved_item xs);
    compactable_tokens = g.stats.compactable_tokens + tokens (keep is_compactable_item xs);
  };
}

pub add_all-add_protected :
    (xs : List Item) (p : Pass) → (add_all add_protected xs p).groups ≡ protected_added xs p.groups
unfolding add_all add_protected
add_all-add_protected [] p = ground arith
add_all-add_protected (x ∷ xs) p = ground (
  arith,
  add_all-add_protected xs (add_protected x p),
  messages_reverse-cons x xs p.groups.protected,
)

pub add_all-add_recent :
    (xs : List Item) (p : Pass) → (add_all add_recent xs p).groups ≡ recent_added xs p.groups
unfolding add_all add_recent
add_all-add_recent [] p = ground arith
add_all-add_recent (x ∷ xs) p =
    ground
      (arith, add_all-add_recent xs (add_recent x p), messages_reverse-cons x xs p.groups.recent)

pub add_all-add_remaining :
    (xs : List Item) (p : Pass) → (add_all add_remaining xs p).groups ≡ remaining_added xs p.groups
unfolding add_all add_remaining
add_all-add_remaining [] p = ground (
  arith,
  append-nil p.groups.summaries,
  append-nil p.groups.preserved,
  append-nil p.groups.compactable,
)
add_all-add_remaining (x ∷ xs) p = ground (
  arith,
  add_all-add_remaining xs (add_remaining x p),
  append_assoc p.groups.summaries (x.0 ∷ []) (messages (keep is_summary_item xs)),
  append_assoc p.groups.preserved (x.0 ∷ []) (messages (keep is_preserved_item xs)),
  append_assoc p.groups.compactable (x.0 ∷ []) (messages (keep is_compactable_item xs)),
)
