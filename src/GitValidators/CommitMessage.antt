-- ===== src/GitValidators/CommitMessage.antt =====
-- The validation of a commit message (internal/validators/git/commit_message.go). The analysis of
-- markdown is the parameter `analyze`, from a body to its warnings.
pub mod Passing
pub mod SilentRules
pub mod Priority
use claude_hooks.Common.{
  Bool, true, false, not, List, [], ◌∷◌, ◌++◌, Option, none, some, if◌then◌else◌, get_or, ltb,
  length, drop, map,
}
use claude_hooks.Common.Int.{ℤ, pos}
use claude_hooks.Common.Text.{Text, codes, is_empty, contains, trim_space, split, join}
use claude_hooks.Validator.{ValidationResult, pass, fail_with_ref, add_detail}
use claude_hooks.Validator.Reference.{ref_of}
use claude_hooks.GitValidators.{no_args}
use claude_hooks.GitValidators.Branch.{or_default}
use claude_hooks.GitValidators.CommitParser.{ParsedCommit, parse_commit}
use claude_hooks.GitValidators.CommitRules.{
  CommitRule, RuleResult, title_length_rule, conventional_format_rule, infra_scope_misuse_rule,
  body_line_length_rule, list_formatting_rule,
}
use claude_hooks.GitValidators.CommitContent.{
  pr_reference_rule, ai_attribution_rule, forbidden_pattern_rule, signoff_rule,
}

pub record CommitMessageConfig : Type 0 where
  pub message_enabled : Option Bool
  pub title_max_length : Option ℤ
  pub allow_unlimited_revert_title : Option Bool
  pub body_max_line_length : Option ℤ
  pub body_line_tolerance : Option ℤ
  pub conventional_commits : Option Bool
  pub commit_valid_types : List Text
  pub require_scope : Option Bool
  pub block_infra_scope_misuse : Option Bool
  pub block_pr_references : Option Bool
  pub block_ai_attribution : Option Bool
  pub forbidden_patterns : List Text
  pub expected_signoff : Text

-- What stands for a configuration that is nil.
abbrev pub no_message_config : CommitMessageConfig
no_message_config = record {
  message_enabled = none;
  title_max_length = none;
  allow_unlimited_revert_title = none;
  body_max_line_length = none;
  body_line_tolerance = none;
  conventional_commits = none;
  commit_valid_types = [];
  require_scope = none;
  block_infra_scope_misuse = none;
  block_pr_references = none;
  block_ai_attribution = none;
  forbidden_patterns = [];
  expected_signoff = [];
}

abbrev pub get_title_max_length : CommitMessageConfig → ℤ
get_title_max_length c = get_or c.title_max_length (pos 50)

abbrev pub should_allow_unlimited_revert_title : CommitMessageConfig → Bool
should_allow_unlimited_revert_title c = get_or c.allow_unlimited_revert_title true

abbrev pub get_body_max_line_length : CommitMessageConfig → ℤ
get_body_max_line_length c = get_or c.body_max_line_length (pos 72)

abbrev pub get_body_line_tolerance : CommitMessageConfig → ℤ
get_body_line_tolerance c = get_or c.body_line_tolerance (pos 5)

abbrev pub should_check_conventional_commits : CommitMessageConfig → Bool
should_check_conventional_commits c = get_or c.conventional_commits true

abbrev pub get_commit_types : CommitMessageConfig → List Text
get_commit_types c = or_default c.commit_valid_types (
    map codes (
      "build" ∷ "chore" ∷ "ci" ∷ "docs" ∷ "feat" ∷ "fix" ∷ "perf" ∷ "refactor" ∷ "revert" ∷ "style"
      ∷ "test" ∷ []))

abbrev pub should_require_scope : CommitMessageConfig → Bool
should_require_scope c = get_or c.require_scope true

abbrev pub should_block_infra_scope_misuse : CommitMessageConfig → Bool
should_block_infra_scope_misuse c = get_or c.block_infra_scope_misuse true

abbrev pub should_block_pr_references : CommitMessageConfig → Bool
should_block_pr_references c = get_or c.block_pr_references true

abbrev pub should_block_ai_attribution : CommitMessageConfig → Bool
should_block_ai_attribution c = get_or c.block_ai_attribution true

abbrev pub get_forbidden_patterns : CommitMessageConfig → List Text
get_forbidden_patterns c =
    or_default c.forbidden_patterns (map codes ("\\btmp/" ∷ "\\btmp\\b" ∷ []))

-- A rule that the configuration asks for.
abbrev pub rule_if : Bool → CommitRule → List CommitRule
rule_if true r = r ∷ []
rule_if false r = []

-- The results of the rules that report errors, in their order.
abbrev pub with_errors : Option RuleResult → List RuleResult → List RuleResult
with_errors none rest = rest
with_errors (some r) rest = if no_args r.errors then rest else r ∷ rest

unfoldable pub run_rules : List CommitRule → ParsedCommit → Text → List RuleResult
run_rules [] c message = []
run_rules (r ∷ rules) c message = with_errors (r.validate c message) (run_rules rules c message)

abbrev pub priority_order : List Text
priority_order =
    map (λ c. ref_of (codes c))
      ("GIT013" ∷ "GIT006" ∷ "GIT004" ∷ "GIT005" ∷ "GIT016" ∷ "GIT011" ∷ "GIT012" ∷ "GIT014"
        ∷ "GIT015" ∷ [])

abbrev pub references : List RuleResult → List Text
references [] = []
references (r ∷ rs) = r.reference ∷ references rs

unfoldable pub first_present : List Text → List Text → Option Text
unfolding contains
first_present [] refs = none
first_present (p ∷ ps) refs =
    let later = first_present ps refs in if contains refs p then some p else later

abbrev pub choose : RuleResult → List RuleResult → Text
choose r [] = r.reference
choose r (s ∷ ss) = get_or (first_present priority_order (references (r ∷ s ∷ ss))) r.reference

unfoldable pub select_primary_reference : List RuleResult → Text
unfolding first_present
select_primary_reference [] = ref_of (codes "GIT013")
select_primary_reference (r ∷ rs) = choose r rs

abbrev pub lines_of : List Text → Text
lines_of [] = []
lines_of (e ∷ es) = e ++ codes "\n" ++ lines_of es

abbrev pub all_errors : List RuleResult → Text
all_errors [] = []
all_errors (r ∷ rs) = lines_of r.errors ++ all_errors rs

-- The mark 📝 in UTF-8, and the message below it.
abbrev pub quoted_message : Text → Text
quoted_message message =
    codes "\n"
    ++ (240 ∷ 159 ∷ 147 ∷ 157 ∷ [])
    ++ codes " Commit message:\n---\n"
    ++ message
    ++ codes "\n---"

unfoldable pub build_error_result : (Text → Text) → List RuleResult → Text → ValidationResult
unfolding select_primary_reference add_detail
build_error_result suggest results message =
    add_detail (codes "errors") (all_errors results ++ quoted_message message) (
      fail_with_ref suggest (select_primary_reference results)
        (codes "Commit message validation failed"))

-- The body after the title and one blank line.
abbrev pub after_blank_line : List Text → List Text
after_blank_line [] = []
after_blank_line (line ∷ lines) = if is_empty (trim_space line) then lines else line ∷ lines

module _ (compile : Text → Option (Text → Option Text)) (analyze : Text → List Text) where
  -- The rules from the body on.
  abbrev pub later_rules : CommitMessageConfig → List CommitRule
  later_rules c =
      body_line_length_rule (get_body_max_line_length c) (get_body_line_tolerance c)
      ∷ list_formatting_rule
      ∷ (rule_if (should_block_pr_references c) pr_reference_rule
          ++ (rule_if (should_block_ai_attribution c) ai_attribution_rule
              ++ (forbidden_pattern_rule compile (get_forbidden_patterns c)
                  ∷ rule_if (not (is_empty c.expected_signoff)) (signoff_rule c.expected_signoff))))

  unfoldable pub build_rules : CommitMessageConfig → List CommitRule
  unfolding title_length_rule conventional_format_rule
  build_rules c =
      title_length_rule (get_title_max_length c) (should_allow_unlimited_revert_title c)
      ∷ (rule_if (should_check_conventional_commits c)
            (conventional_format_rule (get_commit_types c) (should_require_scope c))
          ++ (rule_if (should_block_infra_scope_misuse c) infra_scope_misuse_rule ++ later_rules c))

  abbrev pub analyzed : List Text → List Text
  analyzed [] = []
  analyzed (line ∷ lines) = analyze (join (codes "\n") (line ∷ lines))

  unfoldable pub validate_markdown_in_body : List Text → List Text
  unfolding trim_space join
  validate_markdown_in_body lines = analyzed (after_blank_line (drop 1 lines))

  abbrev pub markdown_result : List Text → List RuleResult
  markdown_result [] = []
  markdown_result (w ∷ ws) = record { errors = w ∷ ws; reference = ref_of (codes "GIT005") } ∷ []

  -- All the results for a message that is not empty.
  unfoldable pub rule_results : CommitMessageConfig → Text → List RuleResult
  unfolding parse_commit build_rules run_rules split validate_markdown_in_body
  rule_results c message =
      let lines = split 10 message in
      run_rules (build_rules c) (parse_commit (get_commit_types c) message) message
      ++ (if ltb 1 (length lines) then markdown_result (validate_markdown_in_body lines) else [])

  abbrev pub report : (Text → Text) → Text → List RuleResult → ValidationResult
  report suggest message [] = pass
  report suggest message (r ∷ rs) = build_error_result suggest (r ∷ rs) message

  unfoldable pub validate_message : (Text → Text) → CommitMessageConfig → Text → ValidationResult
  unfolding rule_results build_error_result
  validate_message suggest c message =
      if is_empty message
      then fail_with_ref suggest (ref_of (codes "GIT013")) (codes "Commit message is empty")
      else report suggest message (rule_results c message)
