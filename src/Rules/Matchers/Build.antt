-- ===== src/Rules/Matchers/Build.antt =====
-- The factories of pattern matchers and BuildMatcher with its two ways (internal/rules/matcher.go).
use claude_hooks.Common.{Bool, false, not, ◌||◌, List, [], ◌∷◌, Option, none, some, if◌then◌else◌}
use claude_hooks.Common.Text.{Text}
use claude_hooks.Common.Result.{Result, ok, ◌>>=◌}
use claude_hooks.Rules.{RuleMatch, Matcher}
use claude_hooks.Rules.Patterns.{
  Pattern, PatternOptions, any_mode, is_negated, strip_if, with_flag, wrap_negated, multi_pattern,
  multi_repr, new_regex_pattern, compile_pattern_with_options, compile_multi_pattern,
}
use claude_hooks.Rules.Patterns.Cache.{PatternCache, get_pattern}
use claude_hooks.Rules.Matchers.{
  repo_pattern_matcher, branch_pattern_matcher, file_pattern_matcher, content_pattern_matcher,
  command_pattern_matcher,
}
use claude_hooks.Rules.Matchers.Builder.{
  MatcherBuilder, add_simple_matchers, add_pattern_matcher, add_advanced_pattern_matcher, Factory,
  SingleFactory, MultiFactory, built, parse_pattern_mode, use_advanced,
}

module _ (regex_compile : Text → Result Text (Text → Bool)) (validate_pattern : Text → Bool)
    (match_unvalidated : Text → Text → Bool) where
  -- The factories of the simple conditions: a cached pattern, or a regular expression for contents.
  abbrev pub cached_matcher : (Pattern → Matcher) → Factory
  cached_matcher make p c =
      let got = get_pattern regex_compile validate_pattern match_unvalidated p c in
      (got.0, got.1 >>= λ x. ok (some (make x)))

  abbrev pub new_content_pattern_matcher : Factory
  new_content_pattern_matcher p c = (
    c,
    new_regex_pattern regex_compile validate_pattern match_unvalidated p >>= λ x.
        ok (some (content_pattern_matcher x)),
  )

  unfoldable pub build_matcher_legacy :
      RuleMatch → PatternCache → PatternCache × Result Text (Option Matcher)
  build_matcher_legacy m c =
      let start : MatcherBuilder = record {
        matchers = [];
        failure = none;
        opts = record { case_insensitive = false; negate = false };
        mode = any_mode;
        cache = c;
      } in
      let b1 = add_simple_matchers m start in
      let b2 = add_pattern_matcher m.repo_pattern (cached_matcher repo_pattern_matcher) b1 in
      let b3 = add_pattern_matcher m.branch_pattern (cached_matcher branch_pattern_matcher) b2 in
      let b4 = add_pattern_matcher m.file_pattern (cached_matcher file_pattern_matcher) b3 in
      let b5 = add_pattern_matcher m.content_pattern new_content_pattern_matcher b4 in
      let b6 = add_pattern_matcher m.command_pattern (cached_matcher command_pattern_matcher) b5 in
      (b6.cache, built b6)

  abbrev pub single_matcher : (Pattern → Matcher) → SingleFactory
  single_matcher make p opts =
      compile_pattern_with_options regex_compile validate_pattern match_unvalidated p opts >>= λ x.
      ok (some (make x))

  abbrev pub make_some : (Pattern → Matcher) → Option Pattern → Option Matcher
  make_some make none = none
  make_some make (some x) = some (make x)

  abbrev pub multi_matcher : (Pattern → Matcher) → MultiFactory
  multi_matcher make ps mode opts =
      compile_multi_pattern regex_compile validate_pattern match_unvalidated ps mode opts >>= λ x.
      ok (make_some make x)

  -- A content pattern is always a regular expression.
  unfoldable pub compile_content_pattern : Text → PatternOptions → Result Text Pattern
  compile_content_pattern p opts =
      new_regex_pattern regex_compile validate_pattern match_unvalidated
        (with_flag opts.case_insensitive (strip_if (is_negated p) p))
      >>= λ x. ok (wrap_negated (opts.negate || is_negated p) x)

  unfoldable pub compile_content_each : List Text → PatternOptions → Result Text (List Pattern)
  unfolding compile_content_pattern
  compile_content_each [] opts = ok []
  compile_content_each (p ∷ ps) opts =
      compile_content_pattern p opts >>= λ x. compile_content_each ps opts >>= λ xs. ok (x ∷ xs)

  abbrev pub content_matcher_with_opts : SingleFactory
  content_matcher_with_opts p opts =
      compile_content_pattern p opts >>= λ x. ok (some (content_pattern_matcher x))

  abbrev pub content_multi_matcher : MultiFactory
  content_multi_matcher [] mode opts = ok none
  content_multi_matcher (p ∷ []) mode opts = content_matcher_with_opts p opts
  content_multi_matcher (p ∷ q ∷ ps) mode opts = compile_content_each (p ∷ q ∷ ps) opts >>= λ xs.
      ok (some (content_pattern_matcher (multi_pattern xs mode (multi_repr mode (p ∷ q ∷ ps)))))

  unfoldable pub build_matcher_advanced :
      RuleMatch → PatternCache → PatternCache × Result Text (Option Matcher)
  build_matcher_advanced m c =
      let start : MatcherBuilder = record {
        matchers = [];
        failure = none;
        opts = record { case_insensitive = m.case_insensitive; negate = false };
        mode = parse_pattern_mode m.pattern_mode;
        cache = c;
      } in
      let add : Text → List Text → (Pattern → Matcher) → MatcherBuilder → MatcherBuilder =
        λ p ps make b.
          add_advanced_pattern_matcher p ps (single_matcher make) (multi_matcher make) b in
      let b1 = add_simple_matchers m start in
      let b2 = add m.repo_pattern m.repo_patterns repo_pattern_matcher b1 in
      let b3 = add m.branch_pattern m.branch_patterns branch_pattern_matcher b2 in
      let b4 = add m.file_pattern m.file_patterns file_pattern_matcher b3 in
      let b5 =
        add_advanced_pattern_matcher m.content_pattern m.content_patterns content_matcher_with_opts
          content_multi_matcher b4 in
      let b6 = add m.command_pattern m.command_patterns command_pattern_matcher b5 in
      (b6.cache, built b6)

  unfoldable pub build_matcher :
      Option RuleMatch → PatternCache → PatternCache × Result Text (Option Matcher)
  build_matcher none c = (c, ok none)
  build_matcher (some m) c =
      if not (use_advanced m) then build_matcher_legacy m c else build_matcher_advanced m c
