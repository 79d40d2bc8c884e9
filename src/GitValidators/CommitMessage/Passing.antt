-- ===== src/GitValidators/CommitMessage/Passing.antt =====
-- Commit messages that pass (validateMessage in internal/validators/git/commit_message.go).
use claude_hooks.Common.{
  ◌⊎◌, ◌≡◌, refl, sym, ap, ◌∙◌, true, false, ◌&&◌, List, [], ◌∷◌, ◌++◌, Option, if◌then◌else◌,
  if_true, if_false, ltb, length, drop, All, Bool-cases, inl, inr,
}
use mathlib.Core.Path.{subst}
use claude_hooks.Common.Booleans.{false-true}
use claude_hooks.Common.Int.{◌+ℤ◌}
use claude_hooks.Common.Text.{Text, codes, is_empty, split}
use claude_hooks.Validator.{ValidationResult, add_detail}
use claude_hooks.GitValidators.CommitParser.{
  ParsedCommit, parse_commit, extract_title, is_revert_commit,
}
use claude_hooks.GitValidators.CommitParser.Kept.{
  TitleValid, parse_commit-title, parse_commit-valid,
}
use claude_hooks.GitValidators.CommitRules.{
  CommitRule, RuleResult, conventional_format_rule, body_line_length_rule, infra_scope_misuse_rule,
}
use claude_hooks.GitValidators.CommitMessage.{
  CommitMessageConfig, run_rules, rule_if, later_rules, build_rules, rule_results, report,
  validate_message, markdown_result, validate_markdown_in_body, build_error_result,
  get_title_max_length, should_allow_unlimited_revert_title, get_commit_types, should_require_scope,
  should_check_conventional_commits, should_block_infra_scope_misuse, get_body_max_line_length,
  get_body_line_tolerance,
}
use claude_hooks.GitValidators.CommitMessage.SilentRules.{
  silent, run_rules-silent, append-none, All-drop, failed_if_any-silent, title_fits,
  title_length-fits, conventional-valid, line_fits, long_lines-fits, All-conventional,
}

module _ (compile : Text → Option (Text → Option Text)) (analyze : Text → List Text)
    (suggest : Text → Text) (c : CommitMessageConfig) (message : Text) where
  abbrev parsed : ParsedCommit
  parsed = parse_commit (get_commit_types c) message

  abbrev Silent : CommitRule → Type 0
  Silent r = silent (r.validate parsed message) ≡ true

  report-none :
      (rs : List RuleResult) → (report compile analyze suggest message rs).passed ≡ true → rs ≡ []
  unfolding build_error_result add_detail
  report-none [] h = refl
  report-none (r ∷ rs) h = absurd (false-true h)

  validate_message-filled :
      (validate_message compile analyze suggest c message).passed ≡ true
      → (is_empty message ≡ false) × (rule_results compile analyze c message ≡ [])
  unfolding validate_message
  validate_message-filled h = elim (Bool-cases (is_empty message)) [
    | inl y ↦ absurd (
        false-true
          (sym (ap (λ (r : ValidationResult). r.passed) (if_true (is_empty message) _ _ y)) ∙ h))
    | inr n ↦ (
      n,
      report-none (rule_results compile analyze c message)
          (sym (ap (λ (r : ValidationResult). r.passed) (if_false (is_empty message) _ _ n)) ∙ h),
    )
  ]

  All-Silent :
      rule_results compile analyze c message ≡ [] → All Silent (build_rules compile analyze c)
  unfolding rule_results
  All-Silent h =
      run_rules-silent (build_rules compile analyze c) parsed message
        (append-none (run_rules (build_rules compile analyze c) parsed message)
          (if ltb 1 (length (split 10 message))
            then markdown_result compile analyze
                (validate_markdown_in_body compile analyze (split 10 message))
            else [])
          h).0

  -- The title, its length and the lines of the body.
  abbrev pub Acceptable : Type 0
  Acceptable =
      (TitleValid (get_commit_types c) (extract_title message) parsed.commit_scope)
      × ((is_revert_commit (extract_title message) ≡ true)
          ⊎ ((should_require_scope c && is_empty parsed.commit_scope) ≡ false))
      × (title_fits c (extract_title message) ≡ true)
      × All
          (λ line. line_fits (get_body_max_line_length c +ℤ get_body_line_tolerance c) line ≡ true)
          (drop 1 (split 10 message))

  title-Acceptable :
      is_empty message ≡ false
      → (is_revert_commit parsed.title ≡ true)
        ⊎ ((parsed.valid ≡ true)
            × ((should_require_scope c && is_empty parsed.commit_scope) ≡ false))
      → TitleValid (get_commit_types c) (extract_title message) parsed.commit_scope
        × ((is_revert_commit (extract_title message) ≡ true)
            ⊎ ((should_require_scope c && is_empty parsed.commit_scope) ≡ false))
  title-Acceptable e (inl y) =
      let revert : is_revert_commit (extract_title message) ≡ true =
        sym (ap is_revert_commit (parse_commit-title (get_commit_types c) message e)) ∙ y in
      (inl revert, inl revert)
  title-Acceptable e (inr (v, s)) = (parse_commit-valid (get_commit_types c) message e v, inr s)

  -- With conventional commits asked for, a message that passes is a revert or has a title
  -- type(scope)!: description with a type that is allowed and, if one is required, a scope; the title
  -- is not too long, unless a revert may be, and neither is any line of the rest that is not blank
  -- and has no URL.
  pub validate_message-Acceptable :
      should_check_conventional_commits c ≡ true
      → (validate_message compile analyze suggest c message).passed ≡ true
      → Acceptable
  unfolding build_rules body_line_length_rule
  validate_message-Acceptable asked h =
      let (filled, none_failed) = validate_message-filled h in
      let all = All-Silent none_failed in
      let rest =
        All-drop Silent
          (rule_if (should_check_conventional_commits c)
            (conventional_format_rule (get_commit_types c) (should_require_scope c)))
          (rule_if (should_block_infra_scope_misuse c) infra_scope_misuse_rule
            ++ later_rules compile analyze c)
          all.1 in
      let body =
        All-drop Silent (rule_if (should_block_infra_scope_misuse c) infra_scope_misuse_rule)
          (later_rules compile analyze c) rest in
      let title = parse_commit-title (get_commit_types c) message filled in
      let conventional =
        All-conventional Silent (should_check_conventional_commits c)
          (conventional_format_rule (get_commit_types c) (should_require_scope c))
          (rule_if (should_block_infra_scope_misuse c) infra_scope_misuse_rule
            ++ later_rules compile analyze c)
          asked all.1 in
      let valid = title-Acceptable filled (
        conventional-valid (get_commit_types c) (should_require_scope c) parsed message
          conventional) in
      (
        valid.0,
        valid.1,
        subst (λ t. title_fits c t ≡ true) title
            (title_length-fits (get_title_max_length c) (should_allow_unlimited_revert_title c)
              parsed message all.0),
        long_lines-fits (get_body_max_line_length c) (get_body_line_tolerance c) 2
            (drop 1 (split 10 message)) (failed_if_any-silent (codes "GIT005") _ body.0),
      )
