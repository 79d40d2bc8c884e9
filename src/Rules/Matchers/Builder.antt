-- ===== src/Rules/Matchers/Builder.antt =====
-- Building the matcher of a rule's conditions (matcherBuilder and BuildMatcher in
-- internal/rules/matcher.go). The builder carries the package's pattern cache along, which the
-- simple conditions use and the ones with options do not.
use claude_hooks.Common.{
  Bool, true, false, not, ◌||◌, List, [], ◌∷◌, ◌++◌, Option, none, some, if◌then◌else◌,
}
use claude_hooks.Common.Text.{Text, codes, text_eq, is_empty, to_lower}
use claude_hooks.Common.Result.{Result, ok, err}
use claude_hooks.Rules.{RuleMatch, Matcher}
use claude_hooks.Rules.Patterns.{PatternOptions, MultiPatternMode, any_mode, all_mode}
use claude_hooks.Rules.Patterns.Cache.{PatternCache}
use claude_hooks.Rules.Matchers.{
  remote_matcher, validator_type_matcher, tool_type_matcher, event_type_matcher, composite_matcher,
  op_and,
}

pub record MatcherBuilder : Type 0 where
  pub matchers : List Matcher
  pub failure : Option Text
  pub opts : PatternOptions
  pub mode : MultiPatternMode
  pub cache : PatternCache

abbrev pub append_matcher : Matcher → MatcherBuilder → MatcherBuilder
append_matcher m b = record {
  matchers = b.matchers ++ (m ∷ []);
  failure = b.failure;
  opts = b.opts;
  mode = b.mode;
  cache = b.cache;
}

abbrev pub fail_with : Text → MatcherBuilder → MatcherBuilder
fail_with e b = record {
  matchers = b.matchers;
  failure = some e;
  opts = b.opts;
  mode = b.mode;
  cache = b.cache;
}

abbrev pub with_cache : PatternCache → MatcherBuilder → MatcherBuilder
with_cache c b = record {
  matchers = b.matchers;
  failure = b.failure;
  opts = b.opts;
  mode = b.mode;
  cache = c;
}

-- The factory's result: a matcher, none, or the error, which the builder keeps.
abbrev pub take_result : Result Text (Option Matcher) → MatcherBuilder → MatcherBuilder
take_result (ok none) b = b
take_result (ok (some m)) b = append_matcher m b
take_result (err e) b = fail_with e b

abbrev pub unless_failed : Option Text → MatcherBuilder → MatcherBuilder → MatcherBuilder
unless_failed (some e) b next = b
unless_failed none b next = next

unfoldable pub add_simple : Matcher → MatcherBuilder → MatcherBuilder
add_simple m b = unless_failed b.failure b (append_matcher m b)

abbrev pub Factory : Type 0
Factory = Text → PatternCache → PatternCache × Result Text (Option Matcher)

unfoldable pub add_pattern_matcher : Text → Factory → MatcherBuilder → MatcherBuilder
add_pattern_matcher p factory b =
    let made = factory p b.cache in
    unless_failed b.failure b (if is_empty p then b else take_result made.1 (with_cache made.0 b))

abbrev pub SingleFactory : Type 0
SingleFactory = Text → PatternOptions → Result Text (Option Matcher)

abbrev pub MultiFactory : Type 0
MultiFactory = List Text → MultiPatternMode → PatternOptions → Result Text (Option Matcher)

-- Several patterns are preferred to the single one.
abbrev pub make_advanced :
    Text
    → List Text
    → SingleFactory
    → MultiFactory
    → MultiPatternMode
    → PatternOptions
    → Result Text (Option Matcher)
make_advanced p (q ∷ qs) single multi mode opts = multi (q ∷ qs) mode opts
make_advanced p [] single multi mode opts = if is_empty p then ok none else single p opts

unfoldable pub add_advanced_pattern_matcher :
    Text → List Text → SingleFactory → MultiFactory → MatcherBuilder → MatcherBuilder
add_advanced_pattern_matcher p ps single multi b =
    unless_failed b.failure b (take_result (make_advanced p ps single multi b.mode b.opts) b)

abbrev pub built_matchers : List Matcher → Option Matcher
built_matchers [] = none
built_matchers (m ∷ []) = some m
built_matchers (m ∷ n ∷ ms) = some (composite_matcher (m ∷ n ∷ ms) op_and)

abbrev pub built_or : Option Text → List Matcher → Result Text (Option Matcher)
built_or (some e) ms = err e
built_or none ms = ok (built_matchers ms)

-- `result`.
unfoldable pub built : MatcherBuilder → Result Text (Option Matcher)
unfolding composite_matcher
built b = built_or b.failure b.matchers

unfoldable pub parse_pattern_mode : Text → MultiPatternMode
unfolding text_eq to_lower
parse_pattern_mode mode = if text_eq (to_lower mode) (codes "all") then all_mode else any_mode

-- The conditions that need no compiling, which both builders begin with.
unfoldable pub add_given : Text → (Text → Matcher) → MatcherBuilder → MatcherBuilder
add_given t make b = if not (is_empty t) then add_simple (make t) b else b

abbrev pub add_simple_matchers : RuleMatch → MatcherBuilder → MatcherBuilder
add_simple_matchers m b =
    let b1 = add_given m.match_type validator_type_matcher b in
    let b2 = add_given m.match_remote remote_matcher b1 in
    let b3 = add_given m.tool_type tool_type_matcher b2 in
    add_given m.event_type event_type_matcher b3

abbrev pub use_advanced : RuleMatch → Bool
use_advanced m =
    m.case_insensitive
    || some_of m.repo_patterns
    || some_of m.branch_patterns
    || some_of m.file_patterns
    || some_of m.content_patterns
    || some_of m.command_patterns
  where
    some_of : List Text → Bool
    some_of [] = false
    some_of (p ∷ ps) = true
