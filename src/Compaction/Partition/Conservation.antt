-- ===== src/Compaction/Partition/Conservation.antt =====
-- `Partition` loses no message and no token.
use mathlib.Core.List.{Perm, perm_middle, map-append}
use mathlib.Core.List.Perm
use agentpg.Base.{
  ℕ, suc, Bool, take-append-drop, ◌+◌, ◌-◌, ◌≡◌, ◌≢◌, refl, sym, ap, subst, ◌∙◌, false, not, ◌&&◌,
  List, [], ◌∷◌, ◌++◌, map, reverse, keep, total, All, length, length-take, length-append,
  length-reverse, min, total-append, total-reverse, arith,
}
use agentpg.Base.Int.{pos_part}
use agentpg.Driver.{Message}
use agentpg.Compaction.Tokens.{estimate_message_tokens}
use agentpg.Compaction.Config.{Config}
use agentpg.Compaction.Counter.{TokenCountResult}
use agentpg.Compaction.Partition.{
  Item, MessagePartition, zip_tokens, estimate_per_message_tokens, partition_counted, DistinctIds,
}
use agentpg.Compaction.Partition.Keys.{has_id, Distinct}
use agentpg.Compaction.Partition.Groups.{
  messages, tokens, is_summary_item, is_preserved_item, is_compactable_item,
}
use agentpg.Compaction.Partition.Split.{
  split_groups, zone, zone_size, outside, last, older, newest, items-split, sort_items-eq-split,
}

length-map_estimates : (ms : List Message) → length (map estimate_message_tokens ms) ≡ length ms
length-map_estimates [] = refl
length-map_estimates (m ∷ ms) = ground (arith, length-map_estimates ms)

pub length-estimates :
    (ms : List Message) (result : TokenCountResult)
    → length (estimate_per_message_tokens ms result) ≡ length ms
unfolding estimate_per_message_tokens
length-estimates ms result = ground (arith, length-map_estimates ms)

messages-zip :
    (ms : List Message) (ts : List ℕ) → length ts ≡ length ms → messages (zip_tokens ms ts) ≡ ms
messages-zip [] ts h = refl
messages-zip (m ∷ ms) [] h = absurd (omega arith)
messages-zip (m ∷ ms) (t ∷ ts) h = ap (◌∷◌ m) (messages-zip ms ts (omega arith))

tokens-zip :
    (ms : List Message) (ts : List ℕ)
    → length ts ≡ length ms
    → tokens (zip_tokens ms ts) ≡ total (λ t. t) ts
tokens-zip [] [] h = refl
tokens-zip [] (t ∷ ts) h = absurd (omega arith)
tokens-zip (m ∷ ms) [] h = absurd (omega arith)
tokens-zip (m ∷ ms) (t ∷ ts) h = omega (arith, tokens-zip ms ts (omega arith))

has_id-zip :
    (id : ℕ) (ms : List Message) (ts : List ℕ)
    → All (λ other. id ≢ other.id) ms
    → has_id id (zip_tokens ms ts) ≡ false
unfolding has_id
has_id-zip id [] ts h = refl
has_id-zip id (m ∷ ms) [] h = refl
has_id-zip id (m ∷ ms) (t ∷ ts) h = ground (arith, has_id-zip id ms ts h.1, h.0)

pub Distinct-zip : (ms : List Message) (ts : List ℕ) → DistinctIds ms → Distinct (zip_tokens ms ts)
Distinct-zip [] ts d = tt
Distinct-zip (m ∷ ms) [] d = tt
Distinct-zip (m ∷ ms) (t ∷ ts) d = (has_id-zip m.id ms ts d.0, Distinct-zip ms ts d.1)

-- The three ways of sorting by flags take each item once.
keep-perm :
    (xs : List Item)
    → Perm xs
        (keep is_preserved_item xs ++ (keep is_summary_item xs ++ keep is_compactable_item xs))
keep-perm [] = Perm.nil
keep-perm (x ∷ xs) =
    let preserved = keep is_preserved_item xs in
    let summaries = keep is_summary_item xs in
    let compactable = keep is_compactable_item xs in
    let kept = Perm.cons x (keep-perm xs) in
    let as_summary =
      Perm.trans kept (Perm.symm (perm_middle preserved (summaries ++ compactable))) in
    let as_compactable =
      Perm.trans as_summary
        (Perm.append_left preserved (Perm.symm (perm_middle summaries compactable))) in
    ground (arith, kept, as_summary, as_compactable)

keep-tokens :
    (xs : List Item)
    → tokens (keep is_preserved_item xs)
        + tokens (keep is_summary_item xs)
        + tokens (keep is_compactable_item xs)
      ≡ tokens xs
keep-tokens [] = refl
keep-tokens (x ∷ xs) = ground (arith, keep-tokens xs)

perm_of_eq : {xs ys : List Message} → xs ≡ ys → Perm xs ys
perm_of_eq {xs} e = subst (Perm xs) e (Perm.refl xs)

pub length-messages : (xs : List Item) → length (messages xs) ≡ length xs
length-messages [] = refl
length-messages (x ∷ xs) = ap suc (length-messages xs)

messages-keep :
    (f : Message → Bool) (xs : List Item) → messages (keep (λ x. f x.0) xs) ≡ keep f (messages xs)
messages-keep f [] = refl
messages-keep f (x ∷ xs) = ground (arith, messages-keep f xs)

module _ (config : Config) (ms : List Message) (result : TokenCountResult) where
  abbrev pub items : List Item
  items = zip_tokens ms (estimate_per_message_tokens ms result)

  pub items-messages : messages items ≡ ms
  items-messages = messages-zip ms _ (length-estimates ms result)

  abbrev zone_items : List Item
  zone_items = zone config items

  abbrev last_items : List Item
  last_items = last config items

  abbrev older_items : List Item
  older_items = reverse (older config items)

  messages-split :
      ms ≡ messages older_items ++ (messages (reverse last_items) ++ messages (reverse zone_items))
  messages-split =
      sym items-messages
      ∙ ap messages (items-split config items)
      ∙ map-append _ older_items (reverse last_items ++ reverse zone_items)
      ∙ ap (◌++◌ (messages older_items)) (map-append _ (reverse last_items) (reverse zone_items))

  older_perm : Perm (messages older_items) (
      messages (keep is_preserved_item older_items)
      ++ (messages (keep is_summary_item older_items)
          ++ messages (keep is_compactable_item older_items)))
  older_perm = rw (← map-append, ← map-append) (Perm.map _ (keep-perm older_items))

  length-last :
      length (messages (reverse last_items))
      ≡ min (pos_part config.preserve_last_n) (length ms - length (messages (reverse zone_items)))
  length-last = omega (
    arith,
    length-messages (reverse last_items),
    length-messages (reverse zone_items),
    length-reverse last_items,
    length-reverse zone_items,
    length-take (pos_part config.preserve_last_n) (outside config items),
    length-append zone_items (outside config items),
    ap length (take-append-drop (zone_size config items) (newest config items)),
    length-reverse items,
    length-messages items,
    ap length items-messages,
  )

  module _ (distinct : DistinctIds ms) where
    -- The partition is the one of the split.
    pub partition_counted-eq-split : partition_counted config ms result ≡ (
        let groups = split_groups config items in
        record groups { stats = record (groups.stats) { total_tokens = result.total_tokens } })
    unfolding partition_counted
    partition_counted-eq-split =
        ap
          (λ (g : MessagePartition). record g {
            stats = record (g.stats) { total_tokens = result.total_tokens };
          })
          (sort_items-eq-split config items (Distinct-zip ms _ distinct))

    -- The groups, written down in the order of the conversation but for the older messages, are a
    -- permutation of the messages: each message is in one group, once.
    pub partition-perm :
        let p = partition_counted config ms result in
        Perm ms ((p.preserved ++ (p.summaries ++ p.compactable)) ++ (p.recent ++ p.protected))
    partition-perm = rw partition_counted-eq-split (
        Perm.trans (perm_of_eq messages-split) (
          Perm.append_right (messages (reverse last_items) ++ messages (reverse zone_items))
            older_perm))

    -- The messages end with the recent and the protected ones, in order; the recent ones are as
    -- many as `PreserveLastN` asks for and the conversation has outside the protected zone; the
    -- ones before are sorted by their flags, in order.
    pub partition-shape :
        let p = partition_counted config ms result in
        (before : List Message) × (ms ≡ before ++ (p.recent ++ p.protected))
        × (length p.recent ≡ min (pos_part config.preserve_last_n) (length ms - length p.protected))
        × (p.summaries ≡ keep (λ m. m.is_summary) before)
        × (p.preserved ≡ keep (λ m. not m.is_summary && m.is_preserved) before)
        × (p.compactable ≡ keep (λ m. not m.is_summary && not m.is_preserved) before)
    partition-shape = rw partition_counted-eq-split (
      messages older_items,
      messages-split,
      length-last,
      messages-keep (λ m. m.is_summary) older_items,
      messages-keep (λ m. not m.is_summary && m.is_preserved) older_items,
      messages-keep (λ m. not m.is_summary && not m.is_preserved) older_items,
    )

    -- The token counts of the groups add up to the estimates of the messages.
    pub partition-tokens :
        let s = (partition_counted config ms result).stats in
        s.protected_tokens + s.recent_tokens + s.preserved_tokens + s.summary_tokens
          + s.compactable_tokens
        ≡ total (λ t. t) (estimate_per_message_tokens ms result)
    partition-tokens = rw partition_counted-eq-split (
        omega (
          arith,
          keep-tokens older_items,
          tokens-zip ms _ (length-estimates ms result),
          ap tokens (items-split config items),
          total-append (λ (x : Item). x.1) older_items (reverse last_items ++ reverse zone_items),
          total-append (λ (x : Item). x.1) (reverse last_items) (reverse zone_items),
          total-reverse (λ (x : Item). x.1) last_items,
          total-reverse (λ (x : Item). x.1) zone_items,
        ))
