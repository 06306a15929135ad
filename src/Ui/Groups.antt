-- ===== src/Ui/Groups.antt =====
-- buildRunMessageGroupsAtDepth of ui/service/messages.go. The maps from a run's identifier to its messages and
-- to its executions are functions. The recursion goes down by depth: the fuel is the depths that are
-- left, and one more than the greatest depth of a run is enough.
pub mod Complete
pub mod Enough
use agentpg.Base.{
  ℕ, zero, suc, Bool, true, false, not, ◌&&◌, ◌||◌, List, [], ◌∷◌, keep, Option, none, some,
  bytes_eq, leb, ◌==◌, if◌then◌else◌,
}
use agentpg.Driver.{Bytes, ContentBlock, ContentType, Message}
use agentpg.Store.Runs.{Run}
use agentpg.Ui.Summaries.{RunSummary, ToolExecutionSummary, run_to_summary}

pub record MessageWithBlocks : Type 0 where
  pub message : Message
  pub run_info : Option RunSummary

-- A list of groups: the first of them with its child groups, and the rest.
pub data RunMessageGroups : Type 0 where
  no_groups : RunMessageGroups
  group :
      RunSummary
      → List MessageWithBlocks
      → ℕ
      → List ToolExecutionSummary
      → RunMessageGroups
      → RunMessageGroups
      → RunMessageGroups

abbrev pub has_parent : Option ℕ → Option ℕ → Bool
has_parent none actual = false
has_parent (some id) none = false
has_parent (some id) (some actual) = actual == id

abbrev pub is_root_of : Option ℕ → Bool
is_root_of none = true
is_root_of (some id) = false

-- Whether the run is one of this depth with this parent; at depth 0, whether it has none.
abbrev pub belongs : ℕ → Option ℕ → Run → Bool
belongs zero parent run = run.depth == 0 && is_root_of run.parent_run_id
belongs (suc depth) parent run = run.depth == suc depth && has_parent parent run.parent_run_id

abbrev is_tool_use : ContentType → Bool
is_tool_use ContentType.tool_use = true
is_tool_use _ = false

unfoldable pub shows_tool_use : Bytes → List ContentBlock → Bool
shows_tool_use id [] = false
shows_tool_use id (block ∷ blocks) =
    (is_tool_use block.type && bytes_eq block.tool_use_id id) || shows_tool_use id blocks

unfoldable pub shown_in : Bytes → List MessageWithBlocks → Bool
shown_in id [] = false
shown_in id (msg ∷ messages) = shows_tool_use id msg.message.content || shown_in id messages

abbrev pub is_blank : Bytes → Bool
is_blank [] = true
is_blank (b ∷ bs) = false

-- The executions without a tool use in the messages.
unfoldable pub filtered_execs :
    List MessageWithBlocks → List ToolExecutionSummary → List ToolExecutionSummary
filtered_execs messages execs =
    keep (λ exec. is_blank exec.tool_use_id || not (shown_in exec.tool_use_id messages)) execs

unfoldable pub max_depth : List Run → ℕ
max_depth [] = 0
max_depth (run ∷ runs) = let rest = max_depth runs in if leb rest run.depth then run.depth else rest

module _ (name_of : ℕ → Bytes) (messages_by_run : ℕ → List MessageWithBlocks)
    (tool_execs_by_run : ℕ → List ToolExecutionSummary) where
  -- The groups of the runs that belong here; `children` are those of a run one level below.
  unfoldable pub group_each : (ℕ → RunMessageGroups) → ℕ → Option ℕ → List Run → RunMessageGroups
  group_each children depth parent [] = no_groups
  group_each children depth parent (run ∷ runs) =
      let rest = group_each children depth parent runs in
      if belongs depth parent run
      then group (run_to_summary name_of run) (messages_by_run run.id) run.depth
          (filtered_execs (messages_by_run run.id) (tool_execs_by_run run.id)) (children run.id)
          rest
      else rest

  unfoldable pub build_run_message_groups : ℕ → List Run → ℕ → Option ℕ → RunMessageGroups
  build_run_message_groups zero runs depth parent = no_groups
  build_run_message_groups (suc fuel) runs depth parent =
      group_each (λ id. build_run_message_groups fuel runs (suc depth) (some id)) depth parent runs
