-- ===== src/Rules/Matchers/Composition.antt =====
-- The matcher that is built asks for all the conditions that are given (BuildMatcher in
-- internal/rules/matcher.go), whatever the pattern cache holds.
use claude_hooks.Common.{◌≡◌, refl, Bool, false, List, [], ◌∷◌, none, some, inl, inr, Bool-cases}
use claude_hooks.Common.Text.{Text}
use claude_hooks.Common.Result.{Result, ok, ◌>>=◌}
use claude_hooks.Rules.{RuleMatch, Matcher, MatchContext}
use claude_hooks.Rules.Patterns.{Pattern, any_mode}
use claude_hooks.Rules.Patterns.Cache.{
  PatternCache, get_pattern, get_pattern-compiled, Coherent, compiled,
}
use claude_hooks.Rules.Matchers.{
  repo_pattern_matcher, branch_pattern_matcher, file_pattern_matcher, command_pattern_matcher,
  all_matchers,
}
use claude_hooks.Rules.Matchers.Builder.{
  MatcherBuilder, add_pattern_matcher, add_advanced_pattern_matcher, make_advanced, Factory,
  SingleFactory, MultiFactory, built, add_simple_matchers, use_advanced, parse_pattern_mode,
}
use claude_hooks.Rules.Matchers.Build.{
  build_matcher_legacy, build_matcher_advanced, build_matcher, single_matcher, multi_matcher,
  content_matcher_with_opts, content_multi_matcher,
}
use claude_hooks.Rules.Matchers.Steps.{
  Condition, Represents, Makes, pattern_given, add_pattern_matcher-Represents, Outcome,
  built-Outcome, simple_conditions, simple_matchers-Represents,
}
use claude_hooks.Rules.Matchers.Options.{Set, advanced_step, simple_matchers-Set}
use claude_hooks.Rules.Matchers.Conditions.{
  compiled_condition, content_condition, cached, content_factory, legacy_conditions, match_options,
  advanced_pattern, advanced_content, advanced_conditions, conditions_of,
}

module _ (regex_compile : Text → Result Text (Text → Bool)) (validate_pattern : Text → Bool)
    (match_unvalidated : Text → Text → Bool) (ctx : MatchContext) where
  abbrev Stands : List Condition → MatcherBuilder → Type 0
  Stands ss b = Represents regex_compile validate_pattern match_unvalidated ctx ss b

  bind_same :
      (make : Pattern → Matcher) (r s : Result Text Pattern)
      → r ≡ s
      → (r >>= λ x. ok (some (make x))) ≡ (s >>= λ x. ok (some (make x)))
  bind_same make r s e = rw e refl

  cached-Makes :
      (make : Pattern → Matcher)
      → Makes regex_compile validate_pattern match_unvalidated ctx
          (cached regex_compile validate_pattern match_unvalidated make)
          (compiled_condition regex_compile validate_pattern match_unvalidated make)
  cached-Makes make p c h =
      let got = get_pattern-compiled regex_compile validate_pattern match_unvalidated p c h in
      (
        got.0,
        bind_same make (get_pattern regex_compile validate_pattern match_unvalidated p c).1
            (compiled regex_compile validate_pattern match_unvalidated p) got.1,
      )

  legacy_step :
      (p : Text) (factory : Factory) (make : Text → Condition)
      → Makes regex_compile validate_pattern match_unvalidated ctx factory make
      → (ss : List Condition) (b : MatcherBuilder) → Stands ss b
      → Stands (pattern_given p make ∷ ss) (add_pattern_matcher p factory b)
  legacy_step p factory make k ss b h =
      add_pattern_matcher-Represents regex_compile validate_pattern match_unvalidated ctx p factory
        make k ss b h

  cached_step :
      (p : Text) (make : Pattern → Matcher) (ss : List Condition) (b : MatcherBuilder)
      → Stands ss b
      → Stands
          (pattern_given p
              (compiled_condition regex_compile validate_pattern match_unvalidated make)
            ∷ ss)
          (add_pattern_matcher p (cached regex_compile validate_pattern match_unvalidated make) b)
  cached_step p make ss b h =
      legacy_step p (cached regex_compile validate_pattern match_unvalidated make)
        (compiled_condition regex_compile validate_pattern match_unvalidated make)
        (cached-Makes make) ss b h

  abbrev pub Builds : List Condition → PatternCache × Condition → Type 0
  Builds ss out =
      Outcome regex_compile validate_pattern match_unvalidated ctx ss out.1
      × Coherent regex_compile validate_pattern match_unvalidated out.0

  finish : (ss : List Condition) (b : MatcherBuilder) → Stands ss b → Builds ss (b.cache, built b)
  finish ss b h = (built-Outcome regex_compile validate_pattern match_unvalidated ctx ss b h, h.1)

  build_matcher_legacy-Builds :
      (m : RuleMatch) (c : PatternCache)
      → Coherent regex_compile validate_pattern match_unvalidated c
      → Builds
          (legacy_conditions regex_compile validate_pattern match_unvalidated m)
          (build_matcher_legacy regex_compile validate_pattern match_unvalidated m c)
  unfolding build_matcher_legacy all_matchers
  build_matcher_legacy-Builds m c h =
      let start : MatcherBuilder = record {
        matchers = [];
        failure = none;
        opts = record { case_insensitive = false; negate = false };
        mode = any_mode;
        cache = c;
      } in
      let b1 = add_simple_matchers m start in
      let s1 = simple_conditions m in
      let h1 =
        simple_matchers-Represents regex_compile validate_pattern match_unvalidated ctx m start
          ((tt, refl), h) in
      let b2 =
        add_pattern_matcher m.repo_pattern
          (cached regex_compile validate_pattern match_unvalidated repo_pattern_matcher) b1 in
      let s2 =
        pattern_given m.repo_pattern
          (compiled_condition regex_compile validate_pattern match_unvalidated repo_pattern_matcher)
        ∷ s1 in
      let h2 = cached_step m.repo_pattern repo_pattern_matcher s1 b1 h1 in
      let b3 =
        add_pattern_matcher m.branch_pattern
          (cached regex_compile validate_pattern match_unvalidated branch_pattern_matcher) b2 in
      let s3 =
        pattern_given m.branch_pattern (
          compiled_condition regex_compile validate_pattern match_unvalidated
            branch_pattern_matcher)
        ∷ s2 in
      let h3 = cached_step m.branch_pattern branch_pattern_matcher s2 b2 h2 in
      let b4 =
        add_pattern_matcher m.file_pattern
          (cached regex_compile validate_pattern match_unvalidated file_pattern_matcher) b3 in
      let s4 =
        pattern_given m.file_pattern
          (compiled_condition regex_compile validate_pattern match_unvalidated file_pattern_matcher)
        ∷ s3 in
      let h4 = cached_step m.file_pattern file_pattern_matcher s3 b3 h3 in
      let b5 =
        add_pattern_matcher m.content_pattern
          (content_factory regex_compile validate_pattern match_unvalidated) b4 in
      let s5 =
        pattern_given m.content_pattern
          (content_condition regex_compile validate_pattern match_unvalidated)
        ∷ s4 in
      let h5 =
        legacy_step m.content_pattern
          (content_factory regex_compile validate_pattern match_unvalidated)
          (content_condition regex_compile validate_pattern match_unvalidated) (λ p d k. (k, refl))
          s4 b4 h4 in
      let b6 =
        add_pattern_matcher m.command_pattern
          (cached regex_compile validate_pattern match_unvalidated command_pattern_matcher) b5 in
      let h6 = cached_step m.command_pattern command_pattern_matcher s5 b5 h5 in
      finish (legacy_conditions regex_compile validate_pattern match_unvalidated m) b6 h6

  -- The builder stands for the conditions and has the options of the rule.
  abbrev Stood : RuleMatch → List Condition → MatcherBuilder → Type 0
  Stood m ss b = Stands ss b × Set (parse_pattern_mode m.pattern_mode) (match_options m) b

  abbrev content_single : SingleFactory
  content_single = content_matcher_with_opts regex_compile validate_pattern match_unvalidated

  abbrev content_multi : MultiFactory
  content_multi = content_multi_matcher regex_compile validate_pattern match_unvalidated

  step :
      (m : RuleMatch) (p : Text) (ps : List Text) (single : SingleFactory) (multi : MultiFactory)
      (ss : List Condition) (b : MatcherBuilder)
      → Stood m ss b
      → Stood m
          (make_advanced p ps single multi (parse_pattern_mode m.pattern_mode) (match_options m)
            ∷ ss)
          (add_advanced_pattern_matcher p ps single multi b)
  step m p ps single multi ss b h =
      advanced_step regex_compile validate_pattern match_unvalidated ctx
        (parse_pattern_mode m.pattern_mode) (match_options m) p ps single multi ss b h.0 h.1

  abbrev add_advanced : Text → List Text → (Pattern → Matcher) → MatcherBuilder → MatcherBuilder
  add_advanced p ps make b =
      add_advanced_pattern_matcher p ps
        (single_matcher regex_compile validate_pattern match_unvalidated make)
        (multi_matcher regex_compile validate_pattern match_unvalidated make) b

  options_step :
      (m : RuleMatch) (p : Text) (ps : List Text) (make : Pattern → Matcher) (ss : List Condition)
      (b : MatcherBuilder)
      → Stood m ss b
      → Stood m
          (advanced_pattern regex_compile validate_pattern match_unvalidated m p ps make ∷ ss)
          (add_advanced p ps make b)
  options_step m p ps make ss b h =
      step m p ps (single_matcher regex_compile validate_pattern match_unvalidated make)
        (multi_matcher regex_compile validate_pattern match_unvalidated make) ss b h

  build_matcher_advanced-Builds :
      (m : RuleMatch) (c : PatternCache)
      → Coherent regex_compile validate_pattern match_unvalidated c
      → Builds
          (advanced_conditions regex_compile validate_pattern match_unvalidated m)
          (build_matcher_advanced regex_compile validate_pattern match_unvalidated m c)
  unfolding build_matcher_advanced all_matchers
  build_matcher_advanced-Builds m c h =
      let start : MatcherBuilder = record {
        matchers = [];
        failure = none;
        opts = match_options m;
        mode = parse_pattern_mode m.pattern_mode;
        cache = c;
      } in
      let b1 = add_simple_matchers m start in
      let s1 = simple_conditions m in
      let h1 : Stood m s1 b1 = (
        simple_matchers-Represents regex_compile validate_pattern match_unvalidated ctx m start
            ((tt, refl), h),
        simple_matchers-Set (parse_pattern_mode m.pattern_mode) (match_options m) m start
            (refl, refl),
      ) in
      let b2 = add_advanced m.repo_pattern m.repo_patterns repo_pattern_matcher b1 in
      let s2 =
        advanced_pattern regex_compile validate_pattern match_unvalidated m m.repo_pattern
          m.repo_patterns repo_pattern_matcher
        ∷ s1 in
      let h2 = options_step m m.repo_pattern m.repo_patterns repo_pattern_matcher s1 b1 h1 in
      let b3 = add_advanced m.branch_pattern m.branch_patterns branch_pattern_matcher b2 in
      let s3 =
        advanced_pattern regex_compile validate_pattern match_unvalidated m m.branch_pattern
          m.branch_patterns branch_pattern_matcher
        ∷ s2 in
      let h3 = options_step m m.branch_pattern m.branch_patterns branch_pattern_matcher s2 b2 h2 in
      let b4 = add_advanced m.file_pattern m.file_patterns file_pattern_matcher b3 in
      let s4 =
        advanced_pattern regex_compile validate_pattern match_unvalidated m m.file_pattern
          m.file_patterns file_pattern_matcher
        ∷ s3 in
      let h4 = options_step m m.file_pattern m.file_patterns file_pattern_matcher s3 b3 h3 in
      let b5 =
        add_advanced_pattern_matcher m.content_pattern m.content_patterns content_single
          content_multi b4 in
      let s5 = advanced_content regex_compile validate_pattern match_unvalidated m ∷ s4 in
      let h5 = step m m.content_pattern m.content_patterns content_single content_multi s4 b4 h4 in
      let b6 = add_advanced m.command_pattern m.command_patterns command_pattern_matcher b5 in
      let h6 =
        options_step m m.command_pattern m.command_patterns command_pattern_matcher s5 b5 h5 in
      finish (advanced_conditions regex_compile validate_pattern match_unvalidated m) b6 h6.0

  -- Whatever a coherent pattern cache holds, building the matcher of a rule leaves it coherent, and
  -- either every condition compiles and the matcher matches where all of them hold, or the error is
  -- that of one of the conditions.
  pub build_matcher-Builds :
      (m : RuleMatch) (c : PatternCache)
      → Coherent regex_compile validate_pattern match_unvalidated c
      → Builds
          (conditions_of regex_compile validate_pattern match_unvalidated m)
          (build_matcher regex_compile validate_pattern match_unvalidated (some m) c)
  unfolding build_matcher
  build_matcher-Builds m c h = elim (Bool-cases (use_advanced m)) [
    | inl y ↦ rw y (build_matcher_advanced-Builds m c h)
    | inr n ↦ rw n (build_matcher_legacy-Builds m c h)
  ]
