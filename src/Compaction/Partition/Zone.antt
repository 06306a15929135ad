-- ===== src/Compaction/Partition/Zone.antt =====
-- The protected zone: as many of the newest messages as fit under `ProtectedTokens`.
use mathlib.Core.List.{reverse-cons, map-append}
use agentpg.Base.{
  map, ap, ◌∙◌, length-reverse, length-take, ℕ, zero, suc, ◌+◌, ◌≤◌, ◌≡◌, refl, List, [], ◌∷◌,
  reverse, take, length, total, arith,
}
use agentpg.Base.Int.{ℤ, pos, ◌≤ℤ◌}
use agentpg.Driver.{Message}
use agentpg.Compaction.Config.{Config}
use agentpg.Compaction.Counter.{TokenCountResult}
use agentpg.Compaction.Partition.{
  Item, zip_tokens, estimate_per_message_tokens, partition_counted, DistinctIds,
}
use agentpg.Compaction.Partition.Passes.{protected_count}
use agentpg.Compaction.Partition.Groups.{tokens}
use agentpg.Compaction.Partition.Conservation.{
  items, items-messages, length-messages, length-estimates, partition_counted-eq-split,
}

-- A zone that starts under the limit stays under it.
tokens-protected_count :
    (limit : ℤ) (sum : ℕ) (xs : List Item)
    → pos sum ≤ℤ limit
    → pos (sum + tokens (take (protected_count limit sum xs) xs)) ≤ℤ limit
unfolding protected_count
tokens-protected_count limit sum [] h = omega arith
tokens-protected_count limit sum (x ∷ xs) h =
    ground (arith, tokens-protected_count limit (sum + x.1) xs)

-- No longer run of the newest messages fits.
protected_count-max :
    (limit : ℤ) (sum n : ℕ) (xs : List Item)
    → n ≤ length xs
    → pos (sum + tokens (take n xs)) ≤ℤ limit
    → n ≤ protected_count limit sum xs
unfolding protected_count
protected_count-max limit sum zero xs l h = omega arith
protected_count-max limit sum (suc n) [] l h = omega arith
protected_count-max limit sum (suc n) (x ∷ xs) l h =
    ground (arith, protected_count-max limit (sum + x.1) n xs)

tokens-take :
    (n : ℕ) (xs : List Item) → tokens (take n xs) ≡ total (λ t. t) (take n (map (λ x. x.1) xs))
tokens-take zero xs = refl
tokens-take (suc n) [] = refl
tokens-take (suc n) (x ∷ xs) = omega (arith, tokens-take n xs)

map-zip :
    (ms : List Message) (ts : List ℕ)
    → length ts ≡ length ms
    → map (λ (x : Item). x.1) (zip_tokens ms ts) ≡ ts
map-zip [] [] h = refl
map-zip [] (t ∷ ts) h = absurd (omega arith)
map-zip (m ∷ ms) [] h = absurd (omega arith)
map-zip (m ∷ ms) (t ∷ ts) h = ap (◌∷◌ t) (map-zip ms ts (omega arith))

map-reverse {ℓ κ} :
    {A : Type ℓ} {B : Type κ} (f : A → B) (xs : List A) → map f (reverse xs) ≡ reverse (map f xs)
map-reverse f [] = refl
map-reverse f (x ∷ xs) =
    rw (reverse-cons x xs, reverse-cons (f x) (map f xs), map-append, map-reverse f xs) refl

module _ (config : Config) (ms : List Message) (result : TokenCountResult)
    (distinct : DistinctIds ms) where
  abbrev newest_first : List Item
  newest_first = reverse (items config ms result)

  abbrev zone_count : ℕ
  zone_count = protected_count config.protected_tokens 0 newest_first

  abbrev zone_part : List Item
  zone_part = take zone_count newest_first

  length-newest_first : length newest_first ≡ length ms
  length-newest_first = omega (
    arith,
    length-reverse (items config ms result),
    length-messages (items config ms result),
    ap length (items-messages config ms result),
  )

  newest_tokens :
      (n : ℕ)
      → tokens (take n newest_first)
        ≡ total (λ t. t) (take n (reverse (estimate_per_message_tokens ms result)))
  newest_tokens n =
      tokens-take n newest_first
      ∙ ap (λ ts. total (λ t. t) (take n ts))
          (map-reverse (λ (x : Item). x.1) (items config ms result)
            ∙ ap reverse (map-zip ms _ (length-estimates ms result)))

  -- With a limit that is not negative, the protected messages together stay within it.
  pub protected-le-limit :
      pos 0 ≤ℤ config.protected_tokens
      → pos (partition_counted config ms result).stats.protected_tokens ≤ℤ config.protected_tokens
  protected-le-limit h =
      rw (partition_counted-eq-split config ms result distinct)
        (omega (arith, tokens-protected_count config.protected_tokens 0 newest_first h))

  -- The zone is as long as it can be: any `n` newest messages that fit together are protected.
  pub protected-max :
      (n : ℕ)
      → n ≤ length ms
      → pos (total (λ t. t) (take n (reverse (estimate_per_message_tokens ms result))))
        ≤ℤ config.protected_tokens
      → n ≤ length (partition_counted config ms result).protected
  protected-max n l h = rw (partition_counted-eq-split config ms result distinct) (
      omega (
        arith,
        length-messages (reverse zone_part),
        length-reverse zone_part,
        length-take zone_count newest_first,
        length-newest_first,
        protected_count-max config.protected_tokens 0 n newest_first
            (omega (arith, length-newest_first)) (omega (arith, newest_tokens n)),
      ))
