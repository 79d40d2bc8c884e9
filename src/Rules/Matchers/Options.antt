-- ===== src/Rules/Matchers/Options.antt =====
-- The builder keeps its options, so each advanced step compiles with those of the rule
-- (internal/rules/matcher.go).
use claude_hooks.Common.{◌≡◌, Bool, List, [], ◌∷◌, Option, none, some}
use mathlib.Core.Path.{subst}
use claude_hooks.Common.Text.{Text}
use claude_hooks.Common.Result.{Result, ok, err}
use claude_hooks.Rules.{RuleMatch, Matcher, MatchContext}
use claude_hooks.Rules.Patterns.{PatternOptions, MultiPatternMode}
use claude_hooks.Rules.Matchers.{
  remote_matcher, validator_type_matcher, tool_type_matcher, event_type_matcher,
}
use claude_hooks.Rules.Matchers.Builder.{
  MatcherBuilder, append_matcher, take_result, unless_failed, add_simple, add_given,
  add_advanced_pattern_matcher, make_advanced, SingleFactory, MultiFactory, add_simple_matchers,
}
use claude_hooks.Rules.Matchers.Steps.{
  Condition, Represents, add_advanced_pattern_matcher-Represents,
}

abbrev pub Set : MultiPatternMode → PatternOptions → MatcherBuilder → Type 0
Set mode opts b = (b.mode ≡ mode) × (b.opts ≡ opts)

take_result-Set :
    (mode : MultiPatternMode) (opts : PatternOptions) (s : Condition) (b : MatcherBuilder)
    → Set mode opts b
    → Set mode opts (take_result s b)
take_result-Set mode opts (ok none) b h = h
take_result-Set mode opts (ok (some m)) b h = h
take_result-Set mode opts (err e) b h = h

unless_failed-Set :
    (mode : MultiPatternMode) (opts : PatternOptions) (o : Option Text) (b next : MatcherBuilder)
    → Set mode opts b
    → Set mode opts next
    → Set mode opts (unless_failed o b next)
unless_failed-Set mode opts none b next h n = n
unless_failed-Set mode opts (some e) b next h n = h

pub add_given-Set :
    (mode : MultiPatternMode) (opts : PatternOptions) (t : Text) (make : Text → Matcher)
    (b : MatcherBuilder)
    → Set mode opts b
    → Set mode opts (add_given t make b)
unfolding add_given add_simple
add_given-Set mode opts [] make b h = h
add_given-Set mode opts (c ∷ t) make b h =
    unless_failed-Set mode opts b.failure b (append_matcher (make (c ∷ t)) b) h h

add_advanced_pattern_matcher-Set :
    (mode : MultiPatternMode) (opts : PatternOptions) (p : Text) (ps : List Text)
    (single : SingleFactory) (multi : MultiFactory) (b : MatcherBuilder)
    → Set mode opts b
    → Set mode opts (add_advanced_pattern_matcher p ps single multi b)
unfolding add_advanced_pattern_matcher
add_advanced_pattern_matcher-Set mode opts p ps single multi b h =
    let s = make_advanced p ps single multi b.mode b.opts in
    unless_failed-Set mode opts b.failure b (take_result s b) h (take_result-Set mode opts s b h)

pub simple_matchers-Set :
    (mode : MultiPatternMode) (opts : PatternOptions) (m : RuleMatch) (b : MatcherBuilder)
    → Set mode opts b
    → Set mode opts (add_simple_matchers m b)
simple_matchers-Set mode opts m b h =
    let b1 = add_given m.match_type validator_type_matcher b in
    let h1 = add_given-Set mode opts m.match_type validator_type_matcher b h in
    let b2 = add_given m.match_remote remote_matcher b1 in
    let h2 = add_given-Set mode opts m.match_remote remote_matcher b1 h1 in
    let b3 = add_given m.tool_type tool_type_matcher b2 in
    let h3 = add_given-Set mode opts m.tool_type tool_type_matcher b2 h2 in
    add_given-Set mode opts m.event_type event_type_matcher b3 h3

module _ (regex_compile : Text → Result Text (Text → Bool)) (validate_pattern : Text → Bool)
    (match_unvalidated : Text → Text → Bool) (ctx : MatchContext) where
  -- One step of the advanced builder.
  pub advanced_step :
      (mode : MultiPatternMode) (opts : PatternOptions) (p : Text) (ps : List Text)
      (single : SingleFactory) (multi : MultiFactory) (ss : List Condition) (b : MatcherBuilder)
      → Represents regex_compile validate_pattern match_unvalidated ctx ss b
      → Set mode opts b
      → Represents regex_compile validate_pattern match_unvalidated ctx
          (make_advanced p ps single multi mode opts ∷ ss)
          (add_advanced_pattern_matcher p ps single multi b)
        × Set mode opts (add_advanced_pattern_matcher p ps single multi b)
  advanced_step mode opts p ps single multi ss b h k = (
    subst
        (λ o.
          Represents regex_compile validate_pattern match_unvalidated ctx
            (make_advanced p ps single multi mode o ∷ ss)
            (add_advanced_pattern_matcher p ps single multi b))
        k.1
        (subst
          (λ m.
            Represents regex_compile validate_pattern match_unvalidated ctx
              (make_advanced p ps single multi m b.opts ∷ ss)
              (add_advanced_pattern_matcher p ps single multi b))
          k.0
          (add_advanced_pattern_matcher-Represents regex_compile validate_pattern match_unvalidated
            ctx p ps single multi ss b h)),
    add_advanced_pattern_matcher-Set mode opts p ps single multi b k,
  )
