-- ===== src/Rules/Matchers.antt =====
-- The matchers of a rule's conditions (internal/rules/matcher.go). A matcher is its `Match`.
pub mod Build
pub mod Builder
pub mod Categories
pub mod Composition
pub mod Conditions
pub mod Options
pub mod Steps
mod Tests
use claude_hooks.Common.{
  ℕ, Bool, true, false, not, List, [], ◌∷◌, ◌++◌, Option, none, some, if◌then◌else◌,
}
use claude_hooks.Common.Text.{Text, codes, text_eq, is_empty, has_prefix, to_lower}
use claude_hooks.Hook.{
  Context, EventType, unknown_event, pre_tool_use, post_tool_use, notification, ToolType,
  unknown_tool, bash, write, edit, multi_edit, grep, read, glob, get_command, get_file_path,
  get_content,
}
use claude_hooks.Rules.{MatchContext, Matcher, GitContext, FileContext}
use claude_hooks.Rules.Patterns.{Pattern}

abbrev in_repo_root : Pattern → Option GitContext → Bool
in_repo_root p none = false
in_repo_root p (some g) = if is_empty g.repo_root then false else p.matches g.repo_root

abbrev pub repo_pattern_matcher : Pattern → Matcher
repo_pattern_matcher p ctx = in_repo_root p ctx.git_context

abbrev on_remote : Text → Option GitContext → Bool
on_remote r none = false
on_remote r (some g) = text_eq g.remote r

unfoldable pub remote_matcher : Text → Matcher
unfolding text_eq
remote_matcher r ctx = on_remote r ctx.git_context

abbrev on_branch : Pattern → Option GitContext → Bool
on_branch p none = false
on_branch p (some g) = if is_empty g.branch then false else p.matches g.branch

abbrev pub branch_pattern_matcher : Pattern → Matcher
branch_pattern_matcher p ctx = on_branch p ctx.git_context

-- The text of the hook context, where the file context has none.
abbrev in_hook : (Context → Text) → Pattern → Option Context → Bool
in_hook field p none = false
in_hook field p (some c) = p.matches (field c)

abbrev in_file :
    (FileContext → Text) → (Context → Text) → Pattern → MatchContext → Option FileContext → Bool
in_file field fallback p ctx none = in_hook fallback p ctx.hook_context
in_file field fallback p ctx (some f) =
    if is_empty (field f) then in_hook fallback p ctx.hook_context else p.matches (field f)

abbrev pub file_pattern_matcher : Pattern → Matcher
file_pattern_matcher p ctx = in_file (λ f. f.path) get_file_path p ctx ctx.file_context

abbrev pub content_pattern_matcher : Pattern → Matcher
content_pattern_matcher p ctx = in_file (λ f. f.content) get_content p ctx ctx.file_context

abbrev pub command_pattern_matcher : Pattern → Matcher
command_pattern_matcher p ctx =
    if not (is_empty ctx.command)
    then p.matches ctx.command
    else in_hook get_command p ctx.hook_context

-- `strings.CutSuffix`: the text before the suffix, if it ends with it.
unfoldable pub cut_suffix : Text → Text → Option Text
unfolding text_eq
cut_suffix [] suffix = if text_eq [] suffix then some [] else none
cut_suffix (c ∷ s) suffix =
    if text_eq (c ∷ s) suffix then some [] else longer c (cut_suffix s suffix)
  where
    longer : ℕ → Option Text → Option Text
    longer c none = none
    longer c (some before) = some (c ∷ before)

abbrev in_category : Option Text → Text → Bool
in_category none target = false
in_category (some before) target = has_prefix target (before ++ codes ".")

-- "git.*" matches all git validators, "*" matches all.
unfoldable pub type_matches : Text → Text → Bool
type_matches pattern target =
    if text_eq pattern (codes "*")
    then true
    else if is_empty target
    then false
    else if text_eq target pattern
    then true
    else in_category (cut_suffix pattern (codes ".*")) target

unfoldable pub validator_type_matcher : Text → Matcher
unfolding type_matches
validator_type_matcher t ctx = type_matches t ctx.validator_type

-- `strings.EqualFold`.
unfoldable pub equal_fold : Text → Text → Bool
unfolding text_eq to_lower
equal_fold s t = text_eq (to_lower s) (to_lower t)

abbrev pub tool_text : ToolType → Text
tool_text unknown_tool = codes "Unknown"
tool_text bash = codes "Bash"
tool_text write = codes "Write"
tool_text edit = codes "Edit"
tool_text multi_edit = codes "MultiEdit"
tool_text grep = codes "Grep"
tool_text read = codes "Read"
tool_text glob = codes "Glob"

abbrev pub event_text : EventType → Text
event_text unknown_event = codes "Unknown"
event_text pre_tool_use = codes "PreToolUse"
event_text post_tool_use = codes "PostToolUse"
event_text notification = codes "Notification"

abbrev of_tool : Text → Option Context → Bool
of_tool t none = false
of_tool t (some c) = equal_fold (tool_text c.tool_name) t

unfoldable pub tool_type_matcher : Text → Matcher
unfolding equal_fold
tool_type_matcher t ctx = of_tool t ctx.hook_context

abbrev of_event : Text → Option Context → Bool
of_event t none = false
of_event t (some c) = equal_fold (event_text c.event_type) t

unfoldable pub event_type_matcher : Text → Matcher
unfolding equal_fold
event_type_matcher t ctx = of_event t ctx.hook_context

pub data CompositeOp : Type 0 where
  op_and op_or op_not : CompositeOp

unfoldable pub all_matchers : List Matcher → MatchContext → Bool
all_matchers [] ctx = true
all_matchers (m ∷ ms) ctx = if not (m ctx) then false else all_matchers ms ctx

unfoldable pub any_matcher : List Matcher → MatchContext → Bool
any_matcher [] ctx = false
any_matcher (m ∷ ms) ctx = if m ctx then true else any_matcher ms ctx

unfoldable pub composite_matcher : List Matcher → CompositeOp → Matcher
unfolding all_matchers any_matcher
composite_matcher [] op ctx = true
composite_matcher (m ∷ ms) op_and ctx = all_matchers (m ∷ ms) ctx
composite_matcher (m ∷ ms) op_or ctx = any_matcher (m ∷ ms) ctx
composite_matcher (m ∷ ms) op_not ctx = not (m ctx)

abbrev pub always_matcher : Matcher
always_matcher ctx = true

abbrev pub never_matcher : Matcher
never_matcher ctx = false
