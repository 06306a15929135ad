-- ===== src/Compaction/Partition/Split.antt =====
-- `Partition` cuts the conversation in three: the newest messages that fit the protected zone,
-- the newest of the rest, and the older ones, which it sorts by their flags.
use mathlib.Core.List.{reverse-reverse, reverse-append, append_assoc, append-nil}
use mathlib.Core.Path.{◌≡⟨◌⟩◌, ◌∎}
use agentpg.Base.{
  ℕ, ◌-◌, ◌≡◌, refl, sym, ap, ◌∙◌, List, [], ◌∷◌, ◌++◌, reverse, take, drop, take-append-drop, keep,
  arith, All-reverse, All-append, All-append_right,
}
use agentpg.Base.Int.{pos_part}
use agentpg.Compaction.Config.{Config}
use agentpg.Compaction.Partition.{
  Item, Pass, MessagePartition, empty_partition, add_protected, add_recent, add_remaining,
  sort_items, exists, protect_pass, recent_pass, remaining_pass,
}
use agentpg.Compaction.Partition.Keys.{
  Distinct, Distinct-append, Distinct-reverse, Apart, Apart-symm,
}
use agentpg.Compaction.Partition.Passes.{
  add_all, protected_count, protect_pass_lem, recent_pass-append, recent_pass_lem,
  remaining_pass_lem, remaining_pass_done, Fresh, Sorted, Fresh-add_all, Sorted-add_all,
  add_all-Sorted, add_protected-Enters, add_recent-Enters, add_remaining-Enters,
}
use agentpg.Compaction.Partition.Groups.{
  messages, tokens, add_all-add_protected, add_all-add_recent, add_all-add_remaining,
  is_summary_item, is_preserved_item, is_compactable_item,
}

Fresh-start : (xs : List Item) → Fresh xs (record { categories = []; groups = empty_partition })
unfolding exists
Fresh-start [] = tt
Fresh-start (x ∷ xs) = (refl, Fresh-start xs)

sub-zero : (n : ℕ) → n - 0 ≡ n
sub-zero n = omega arith

module _ (config : Config) (items : List Item) where
  -- The items newest first, and their four parts.
  abbrev pub newest : List Item
  newest = reverse items

  abbrev pub zone_size : ℕ
  zone_size = protected_count config.protected_tokens 0 newest

  abbrev pub zone : List Item
  zone = take zone_size newest

  abbrev pub outside : List Item
  outside = drop zone_size newest

  abbrev pub last : List Item
  last = take (pos_part config.preserve_last_n) outside

  abbrev pub older : List Item
  older = drop (pos_part config.preserve_last_n) outside

  -- The partition by plain operations on the list.
  abbrev pub split_groups : MessagePartition
  split_groups = record {
    protected = messages (reverse zone);
    preserved = messages (keep is_preserved_item (reverse older));
    recent = messages (reverse last);
    summaries = messages (keep is_summary_item (reverse older));
    compactable = messages (keep is_compactable_item (reverse older));
    stats = record {
      protected_tokens = tokens zone;
      preserved_tokens = tokens (keep is_preserved_item (reverse older));
      recent_tokens = tokens last;
      summary_tokens = tokens (keep is_summary_item (reverse older));
      compactable_tokens = tokens (keep is_compactable_item (reverse older));
      total_tokens = 0;
    };
  }

  zone-append-outside : zone ++ outside ≡ newest
  zone-append-outside = take-append-drop zone_size newest

  last-append-older : last ++ older ≡ outside
  last-append-older = take-append-drop (pos_part config.preserve_last_n) outside

  pub items-split : items ≡ reverse older ++ (reverse last ++ reverse zone)
  items-split =
      items
      ≡⟨ sym (reverse-reverse items) ⟩ reverse newest
      ≡⟨ ap reverse (sym zone-append-outside) ⟩ reverse (zone ++ outside)
      ≡⟨ reverse-append zone outside ⟩ reverse outside ++ reverse zone
      ≡⟨ ap (λ xs. reverse xs ++ reverse zone) (sym last-append-older) ⟩
        reverse (last ++ older) ++ reverse zone
      ≡⟨ ap (λ xs. xs ++ reverse zone) (reverse-append last older) ⟩
        (reverse older ++ reverse last) ++ reverse zone
      ≡⟨ append_assoc (reverse older) (reverse last) (reverse zone) ⟩
        reverse older ++ (reverse last ++ reverse zone) ∎

  abbrev start : Pass
  start = record { categories = []; groups = empty_partition }

  abbrev first : Pass
  first = add_all add_protected zone start

  abbrev second : Pass
  second = add_all add_recent last first

  abbrev third : Pass
  third = add_all add_remaining (reverse older) second

  third_groups : third.groups ≡ split_groups
  third_groups = ground (
    arith,
    add_all-add_remaining (reverse older) second,
    add_all-add_recent last first,
    add_all-add_protected zone start,
    append-nil (messages (reverse zone)),
    append-nil (messages (reverse last)),
  )

  module _ (distinct : Distinct items) where
    parts : Distinct zone × Distinct outside × Apart zone outside
    parts = Distinct-append zone outside (rw zone-append-outside (Distinct-reverse items distinct))

    outside_parts : Distinct last × Distinct older × Apart last older
    outside_parts = Distinct-append last older (rw last-append-older parts.1)

    first_lem : protect_pass config.protected_tokens 0 newest start ≡ first
    first_lem = protect_pass_lem config.protected_tokens 0 newest start

    Fresh-outside : Fresh outside first
    Fresh-outside =
        Fresh-add_all add_protected add_protected-Enters zone outside start
          (Apart-symm zone outside parts.2) (Fresh-start outside)

    second_lem : recent_pass config.preserve_last_n 0 newest first ≡ second
    second_lem =
        recent_pass config.preserve_last_n 0 newest first
        ≡⟨ ap (λ xs. recent_pass config.preserve_last_n 0 xs first) (sym zone-append-outside) ⟩
          recent_pass config.preserve_last_n 0 (zone ++ outside) first
        ≡⟨ recent_pass-append config.preserve_last_n 0 zone outside first
            (add_all-Sorted add_protected add_protected-Enters zone start) ⟩
          recent_pass config.preserve_last_n 0 outside first
        ≡⟨ recent_pass_lem config.preserve_last_n 0 outside first parts.1 Fresh-outside ⟩
          add_all add_recent (take (pos_part config.preserve_last_n - 0) outside) first
        ≡⟨ ap (λ n. add_all add_recent (take n outside) first)
            (sub-zero (pos_part config.preserve_last_n)) ⟩
          second ∎

    Fresh-older : Fresh (reverse older) second
    Fresh-older = All-reverse _ older (
        Fresh-add_all add_recent add_recent-Enters last older first
          (Apart-symm last older outside_parts.2)
          (All-append_right _ last older (rw last-append-older Fresh-outside)))

    Sorted-newer : Sorted (reverse last ++ reverse zone) third
    Sorted-newer =
        let late = λ (xs : List Item).
          Sorted-add_all add_remaining add_remaining-Enters (reverse older) xs second in
        All-append _ (reverse last) (reverse zone)
          (All-reverse _ last (late last (add_all-Sorted add_recent add_recent-Enters last first)))
          (All-reverse _ zone (
            late zone (
              Sorted-add_all add_recent add_recent-Enters last zone first
                (add_all-Sorted add_protected add_protected-Enters zone start))))

    third_lem : remaining_pass items second ≡ third
    third_lem =
        ap (λ xs. remaining_pass xs second) items-split
        ∙ remaining_pass_lem (reverse older) (reverse last ++ reverse zone) second
            (Distinct-reverse older outside_parts.1) Fresh-older
        ∙ remaining_pass_done (reverse last ++ reverse zone) third Sorted-newer

    -- `Partition` refines the split: its three passes with their map of categories give the same
    -- groups in the same order, and the same token counts.
    pub sort_items-eq-split : sort_items config items ≡ split_groups
    unfolding sort_items
    sort_items-eq-split =
        ap (λ (p : Pass). p.groups)
          (ap (remaining_pass items)
              (ap (recent_pass config.preserve_last_n 0 newest) first_lem ∙ second_lem)
            ∙ third_lem)
        ∙ third_groups
