-- ===== src/Compaction/Partition.antt =====
-- compaction/message_partition.go: the five groups that the messages of a session are sorted into.
-- `items` are the messages with their token estimates, as the loops index them together.
pub mod Keys
pub mod Passes
pub mod Groups
pub mod Split
pub mod Conservation
pub mod Zone
use agentpg.Base.{
  ℕ, suc, ◌+◌, ◌-◌, Bool, true, false, ◌||◌, List, [], ◌∷◌, ◌++◌, map, reverse, length, ltb, ◌==◌,
  All, ◌≢◌, if◌then◌else◌,
}
use agentpg.Base.Int.{ℤ, pos, ◌-ℤ◌, leb_ℤ, ltb_ℤ}
use agentpg.Driver.{Message}
use agentpg.Compaction.Tokens.{estimate_message_tokens}
use agentpg.Compaction.Config.{Config}
use agentpg.Compaction.Counter.{TokenCountResult}

pub data Category : Type 0 where
  protected recent summary preserved compactable : Category

pub record PartitionStats : Type 0 where
  pub protected_tokens : ℕ
  pub preserved_tokens : ℕ
  pub recent_tokens : ℕ
  pub summary_tokens : ℕ
  pub compactable_tokens : ℕ
  pub total_tokens : ℕ

pub record MessagePartition : Type 0 where
  pub protected : List Message
  pub preserved : List Message
  pub recent : List Message
  pub summaries : List Message
  pub compactable : List Message
  pub stats : PartitionStats

abbrev pub no_stats : PartitionStats
no_stats = record {
  protected_tokens = 0;
  preserved_tokens = 0;
  recent_tokens = 0;
  summary_tokens = 0;
  compactable_tokens = 0;
  total_tokens = 0;
}

abbrev pub empty_partition : MessagePartition
empty_partition = record {
  protected = [];
  preserved = [];
  recent = [];
  summaries = [];
  compactable = [];
  stats = no_stats;
}

abbrev pub Item : Type 0
Item = Message × ℕ

-- The variables of the passes: the map `messageCategories`, of which only the keys are read,
-- and the partition.
pub record Pass : Type 0 where
  pub categories : List (ℕ × Category)
  pub groups : MessagePartition

-- `_, exists := messageCategories[id]`
unfoldable pub exists : ℕ → List (ℕ × Category) → Bool
exists id [] = false
exists id ((key, category) ∷ rest) = key == id || exists id rest

unfoldable pub add_protected : Item → Pass → Pass
add_protected (msg, tokens) p = record {
  categories = (msg.id, Category.protected) ∷ p.categories;
  groups = record groups {
    protected = msg ∷ groups.protected;
    stats = record stats { protected_tokens = stats.protected_tokens + tokens };
  };
}
  where
    open p use {groups}
    open groups use {stats}

unfoldable pub add_recent : Item → Pass → Pass
add_recent (msg, tokens) p = record {
  categories = (msg.id, Category.recent) ∷ p.categories;
  groups = record groups {
    recent = msg ∷ groups.recent;
    stats = record stats { recent_tokens = stats.recent_tokens + tokens };
  };
}
  where
    open p use {groups}
    open groups use {stats}

-- The `switch` of the third pass.
unfoldable pub add_remaining : Item → Pass → Pass
add_remaining (msg, tokens) p =
    if msg.is_summary
    then record {
      categories = (msg.id, Category.summary) ∷ p.categories;
      groups = record groups {
        summaries = groups.summaries ++ msg ∷ [];
        stats = record stats { summary_tokens = stats.summary_tokens + tokens };
      };
    }
    else if msg.is_preserved
    then record {
      categories = (msg.id, Category.preserved) ∷ p.categories;
      groups = record groups {
        preserved = groups.preserved ++ msg ∷ [];
        stats = record stats { preserved_tokens = stats.preserved_tokens + tokens };
      };
    }
    else record {
      categories = (msg.id, Category.compactable) ∷ p.categories;
      groups = record groups {
        compactable = groups.compactable ++ msg ∷ [];
        stats = record stats { compactable_tokens = stats.compactable_tokens + tokens };
      };
    }
  where
    open p use {groups}
    open groups use {stats}

-- First pass, newest message first: it stops at the first message that does not fit.
unfoldable pub protect_pass : ℤ → ℕ → List Item → Pass → Pass
protect_pass limit sum [] p = p
protect_pass limit sum ((msg, tokens) ∷ older) p =
    let rest = protect_pass limit (sum + tokens) older (add_protected (msg, tokens) p) in
    if leb_ℤ (pos (sum + tokens)) limit then rest else p

-- Second pass, newest message first, until `recentCount` is the limit.
unfoldable pub recent_pass : ℤ → ℕ → List Item → Pass → Pass
recent_pass limit count [] p = p
recent_pass limit count ((msg, tokens) ∷ older) p =
    let skip = recent_pass limit count older p in
    let taken = recent_pass limit (count + 1) older (add_recent (msg, tokens) p) in
    if ltb_ℤ (pos count) limit then (if exists msg.id p.categories then skip else taken) else p

-- Third pass, oldest message first.
unfoldable pub remaining_pass : List Item → Pass → Pass
remaining_pass [] p = p
remaining_pass ((msg, tokens) ∷ newer) p =
    remaining_pass newer (if exists msg.id p.categories then p else add_remaining (msg, tokens) p)

abbrev pub zip_tokens : List Message → List ℕ → List Item
zip_tokens [] tokens = []
zip_tokens (msg ∷ messages) [] = []
zip_tokens (msg ∷ messages) (n ∷ tokens) = (msg, n) ∷ zip_tokens messages tokens

-- The estimates of the counter if it made one for each message, and fresh ones otherwise.
unfoldable pub estimate_per_message_tokens : List Message → TokenCountResult → List ℕ
estimate_per_message_tokens messages result =
    if length result.per_message == length messages
    then result.per_message
    else map estimate_message_tokens messages

unfoldable pub sort_items : Config → List Item → MessagePartition
sort_items config items =
    let start : Pass = record { categories = []; groups = empty_partition } in
    let first = protect_pass config.protected_tokens 0 (reverse items) start in
    let second = recent_pass config.preserve_last_n 0 (reverse items) first in
    (remaining_pass items second).groups

-- What `Partition` does with the counted messages.
unfoldable pub partition_counted : Config → List Message → TokenCountResult → MessagePartition
partition_counted config messages result =
    let groups =
      sort_items config (zip_tokens messages (estimate_per_message_tokens messages result)) in
    record groups { stats = record (groups.stats) { total_tokens = result.total_tokens } }

abbrev pub ids : List Message → List ℕ
ids messages = map (λ msg. msg.id) messages

-- No two of the messages have one identifier, as the primary key of their table demands.
abbrev pub DistinctIds : List Message → Type 0
DistinctIds [] = Unit
DistinctIds (msg ∷ messages) = All (λ other. msg.id ≢ other.id) messages × DistinctIds messages

unfoldable pub can_compact : MessagePartition → Bool
can_compact p = ltb 0 (length p.compactable)

unfoldable pub compactable_ids : MessagePartition → List ℕ
compactable_ids p = ids p.compactable

unfoldable pub all_preserved_ids : MessagePartition → List ℕ
all_preserved_ids p = ids p.protected ++ (ids p.preserved ++ (ids p.recent ++ ids p.summaries))

unfoldable pub context_messages : MessagePartition → List Message
context_messages p = p.summaries ++ p.preserved

-- A reduction below zero is returned as 0.
unfoldable pub token_reduction_estimate : MessagePartition → ℤ → ℤ
token_reduction_estimate p summary_tokens =
    let reduction = pos p.stats.compactable_tokens -ℤ summary_tokens in
    if ltb_ℤ reduction (pos 0) then pos 0 else reduction
