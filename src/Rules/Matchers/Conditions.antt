-- ===== src/Rules/Matchers/Conditions.antt =====
-- The conditions of a rule, each compiled by itself: what the built matcher must ask for
-- (RuleMatch in internal/rules/types.go, the factories in internal/rules/matcher.go).
use claude_hooks.Common.{Bool, false, not, List, ◌∷◌, some, if◌then◌else◌}
use claude_hooks.Common.Text.{Text}
use claude_hooks.Common.Result.{Result, ok, ◌>>=◌}
use claude_hooks.Rules.{RuleMatch, Matcher}
use claude_hooks.Rules.Patterns.{Pattern, PatternOptions, new_regex_pattern}
use claude_hooks.Rules.Patterns.Cache.{compiled}
use claude_hooks.Rules.Matchers.{
  repo_pattern_matcher, branch_pattern_matcher, file_pattern_matcher, content_pattern_matcher,
  command_pattern_matcher,
}
use claude_hooks.Rules.Matchers.Builder.{make_advanced, Factory, use_advanced, parse_pattern_mode}
use claude_hooks.Rules.Matchers.Build.{
  cached_matcher, new_content_pattern_matcher, single_matcher, multi_matcher,
  content_matcher_with_opts, content_multi_matcher,
}
use claude_hooks.Rules.Matchers.Steps.{Condition, pattern_given, simple_conditions}

abbrev pub match_options : RuleMatch → PatternOptions
match_options m = record { case_insensitive = m.case_insensitive; negate = false }

module _ (regex_compile : Text → Result Text (Text → Bool)) (validate_pattern : Text → Bool)
    (match_unvalidated : Text → Text → Bool) where
  abbrev pub compiled_condition : (Pattern → Matcher) → Text → Condition
  compiled_condition make p =
      compiled regex_compile validate_pattern match_unvalidated p >>= λ x. ok (some (make x))

  abbrev pub content_condition : Text → Condition
  content_condition p =
      new_regex_pattern regex_compile validate_pattern match_unvalidated p >>= λ x.
      ok (some (content_pattern_matcher x))

  abbrev pub cached : (Pattern → Matcher) → Factory
  cached make = cached_matcher regex_compile validate_pattern match_unvalidated make

  abbrev pub content_factory : Factory
  content_factory = new_content_pattern_matcher regex_compile validate_pattern match_unvalidated

  abbrev pub legacy_conditions : RuleMatch → List Condition
  legacy_conditions m =
      pattern_given m.command_pattern (compiled_condition command_pattern_matcher)
      ∷ pattern_given m.content_pattern content_condition
      ∷ pattern_given m.file_pattern (compiled_condition file_pattern_matcher)
      ∷ pattern_given m.branch_pattern (compiled_condition branch_pattern_matcher)
      ∷ pattern_given m.repo_pattern (compiled_condition repo_pattern_matcher)
      ∷ simple_conditions m

  -- The condition of one or several patterns with options.
  abbrev pub advanced_pattern : RuleMatch → Text → List Text → (Pattern → Matcher) → Condition
  advanced_pattern m p ps make =
      make_advanced p ps (single_matcher regex_compile validate_pattern match_unvalidated make)
        (multi_matcher regex_compile validate_pattern match_unvalidated make)
        (parse_pattern_mode m.pattern_mode) (match_options m)

  abbrev pub advanced_content : RuleMatch → Condition
  advanced_content m =
      make_advanced m.content_pattern m.content_patterns
        (content_matcher_with_opts regex_compile validate_pattern match_unvalidated)
        (content_multi_matcher regex_compile validate_pattern match_unvalidated)
        (parse_pattern_mode m.pattern_mode) (match_options m)

  abbrev pub advanced_conditions : RuleMatch → List Condition
  advanced_conditions m =
      advanced_pattern m m.command_pattern m.command_patterns command_pattern_matcher
      ∷ advanced_content m
      ∷ advanced_pattern m m.file_pattern m.file_patterns file_pattern_matcher
      ∷ advanced_pattern m m.branch_pattern m.branch_patterns branch_pattern_matcher
      ∷ advanced_pattern m m.repo_pattern m.repo_patterns repo_pattern_matcher
      ∷ simple_conditions m

  -- The conditions of a rule, each compiled by itself.
  abbrev pub conditions_of : RuleMatch → List Condition
  conditions_of m = if not (use_advanced m) then legacy_conditions m else advanced_conditions m
