-- ===== src/Rules/Matchers/Steps.antt =====
-- What each step of the matcher builder does to the conditions it stands for
-- (matcherBuilder in internal/rules/matcher.go).
use claude_hooks.Common.{
  ◌≡◌, refl, Bool, true, false, ◌&&◌, List, [], ◌∷◌, ◌++◌, Option, none, some, if◌then◌else◌, All,
  In, inl, inr, arith,
}
use claude_hooks.Common.Text.{Text, is_empty}
use claude_hooks.Common.Result.{Result, ok, err}
use claude_hooks.Rules.{RuleMatch, Matcher, MatchContext, or_always}
use claude_hooks.Rules.Patterns.Cache.{PatternCache, Coherent}
use claude_hooks.Rules.Matchers.{
  remote_matcher, validator_type_matcher, tool_type_matcher, event_type_matcher, composite_matcher,
  all_matchers,
}
use claude_hooks.Rules.Matchers.Builder.{
  MatcherBuilder, append_matcher, with_cache, take_result, unless_failed, add_simple, add_given,
  add_pattern_matcher, add_advanced_pattern_matcher, make_advanced, Factory, SingleFactory,
  MultiFactory, built_or, built, add_simple_matchers,
}

-- A condition: not given, given, or one that does not compile.
abbrev pub Condition : Type 0
Condition = Result Text (Option Matcher)

abbrev pub compiles : Condition → Bool
compiles (ok x) = true
compiles (err e) = false

abbrev pub holds : Condition → MatchContext → Bool
holds (ok none) ctx = true
holds (ok (some m)) ctx = m ctx
holds (err e) ctx = false

abbrev pub all_hold : List Condition → MatchContext → Bool
all_hold [] ctx = true
all_hold (s ∷ ss) ctx = all_hold ss ctx && holds s ctx

abbrev pub given : Text → (Text → Matcher) → Condition
given t make = if is_empty t then ok none else ok (some (make t))

-- The condition of a pattern that may be empty.
abbrev pub pattern_given : Text → (Text → Condition) → Condition
pattern_given p make = if is_empty p then ok none else make p

-- What the fields of a rule that need no compiling ask for.
abbrev pub simple_conditions : RuleMatch → List Condition
simple_conditions m =
    given m.event_type event_type_matcher
    ∷ given m.tool_type tool_type_matcher
    ∷ given m.match_remote remote_matcher
    ∷ given m.match_type validator_type_matcher
    ∷ []

all_matchers-append :
    (ms : List Matcher) (m : Matcher) (ctx : MatchContext)
    → all_matchers (ms ++ (m ∷ [])) ctx ≡ (all_matchers ms ctx && m ctx)
unfolding all_matchers
all_matchers-append [] m ctx = ground arith
all_matchers-append (n ∷ ms) m ctx = ground (arith, all_matchers-append ms m ctx)

module _ (regex_compile : Text → Result Text (Text → Bool)) (validate_pattern : Text → Bool)
    (match_unvalidated : Text → Text → Bool) (ctx : MatchContext) where
  abbrev pub IsCoherent : PatternCache → Type 0
  IsCoherent c = Coherent regex_compile validate_pattern match_unvalidated c

  -- What the outcome says of the conditions.
  abbrev pub Status : Option Text → List Matcher → List Condition → Type 0
  Status none ms ss = All (λ s. compiles s ≡ true) ss × (all_matchers ms ctx ≡ all_hold ss ctx)
  Status (some e) ms ss = In (err e) ss

  abbrev pub Represents : List Condition → MatcherBuilder → Type 0
  Represents ss b = Status b.failure b.matchers ss × IsCoherent b.cache

  Status-skip :
      (o : Option Text) (ms : List Matcher) (ss : List Condition)
      → Status o ms ss
      → Status o ms (ok none ∷ ss)
  Status-skip none ms ss h = ((refl, h.0), ground (arith, h.1))
  Status-skip (some x) ms ss h = inr h

  Status-add :
      (o : Option Text) (ms : List Matcher) (ss : List Condition) (m : Matcher)
      → Status o ms ss
      → Status o (ms ++ (m ∷ [])) (ok (some m) ∷ ss)
  Status-add none ms ss m h = ((refl, h.0), rw (all_matchers-append ms m ctx, h.1) refl)
  Status-add (some x) ms ss m h = inr h

  Status-failed :
      (o : Option Text) (ms : List Matcher) (s : Condition) (ss : List Condition) (x : Text)
      → o ≡ some x
      → Status o ms ss
      → Status o ms (s ∷ ss)
  Status-failed none ms s ss x e h = ground arith
  Status-failed (some y) ms s ss x e h = inr h

  pub take_result-Represents :
      (s : Condition) (ss : List Condition) (b : MatcherBuilder)
      → Represents ss b
      → Represents (s ∷ ss) (take_result s b)
  take_result-Represents (ok none) ss b h = (Status-skip b.failure b.matchers ss h.0, h.1)
  take_result-Represents (ok (some m)) ss b h = (Status-add b.failure b.matchers ss m h.0, h.1)
  take_result-Represents (err x) ss b h = (inl refl, h.1)

  unless_failed-Represents :
      (s : Condition) (ss : List Condition) (b next : MatcherBuilder) (o : Option Text)
      → b.failure ≡ o
      → Represents ss b
      → Represents (s ∷ ss) next
      → Represents (s ∷ ss) (unless_failed o b next)
  unless_failed-Represents s ss b next none e h n = n
  unless_failed-Represents s ss b next (some x) e h n =
      (Status-failed b.failure b.matchers s ss x e h.0, h.1)

  add_given-Represents :
      (t : Text) (make : Text → Matcher) (ss : List Condition) (b : MatcherBuilder)
      → Represents ss b
      → Represents (given t make ∷ ss) (add_given t make b)
  unfolding add_given add_simple
  add_given-Represents [] make ss b h = take_result-Represents (ok none) ss b h
  add_given-Represents (c ∷ t) make ss b h =
      unless_failed-Represents (ok (some (make (c ∷ t)))) ss b (append_matcher (make (c ∷ t)) b)
        b.failure refl h (take_result-Represents (ok (some (make (c ∷ t)))) ss b h)

  -- The factory makes the same whatever a coherent cache holds.
  abbrev pub Makes : Factory → (Text → Condition) → Type 0
  Makes factory make =
      (p : Text) (c : PatternCache)
      → IsCoherent c
      → IsCoherent (factory p c).0 × ((factory p c).1 ≡ make p)

  pub add_pattern_matcher-Represents :
      (p : Text) (factory : Factory) (make : Text → Condition)
      → Makes factory make
      → (ss : List Condition) (b : MatcherBuilder) → Represents ss b
      → Represents (pattern_given p make ∷ ss) (add_pattern_matcher p factory b)
  unfolding add_pattern_matcher
  add_pattern_matcher-Represents [] factory make k ss b h =
      unless_failed-Represents (ok none) ss b b b.failure refl h
        (take_result-Represents (ok none) ss b h)
  add_pattern_matcher-Represents (c ∷ p) factory make k ss b h =
      let made = factory (c ∷ p) b.cache in
      let same = k (c ∷ p) b.cache h.1 in
      unless_failed-Represents (make (c ∷ p)) ss b (take_result made.1 (with_cache made.0 b))
        b.failure refl h
        (rw same.1 (take_result-Represents (make (c ∷ p)) ss (with_cache made.0 b) (h.0, same.0)))

  pub add_advanced_pattern_matcher-Represents :
      (p : Text) (ps : List Text) (single : SingleFactory) (multi : MultiFactory)
      (ss : List Condition) (b : MatcherBuilder)
      → Represents ss b
      → Represents
          (make_advanced p ps single multi b.mode b.opts ∷ ss)
          (add_advanced_pattern_matcher p ps single multi b)
  unfolding add_advanced_pattern_matcher
  add_advanced_pattern_matcher-Represents p ps single multi ss b h =
      let s = make_advanced p ps single multi b.mode b.opts in
      unless_failed-Represents s ss b (take_result s b) b.failure refl h
        (take_result-Represents s ss b h)

  -- What a built matcher says of the conditions: they compile, and it matches where all hold; or the
  -- error is that of one of them.
  abbrev pub Outcome : List Condition → Condition → Type 0
  Outcome ss (ok om) = All (λ s. compiles s ≡ true) ss × (or_always om ctx ≡ all_hold ss ctx)
  Outcome ss (err e) = In (err e) ss

  built_or-Outcome :
      (o : Option Text) (ms : List Matcher) (ss : List Condition)
      → Status o ms ss
      → Outcome ss (built_or o ms)
  unfolding composite_matcher all_matchers
  built_or-Outcome none [] ss h = h
  built_or-Outcome none (m ∷ []) ss h = (h.0, ground (arith, h.1))
  built_or-Outcome none (m ∷ n ∷ ms) ss h = h
  built_or-Outcome (some e) ms ss h = h

  pub built-Outcome :
      (ss : List Condition) (b : MatcherBuilder) → Represents ss b → Outcome ss (built b)
  unfolding built
  built-Outcome ss b h = built_or-Outcome b.failure b.matchers ss h.0

  pub simple_matchers-Represents :
      (m : RuleMatch) (b : MatcherBuilder)
      → Represents [] b
      → Represents (simple_conditions m) (add_simple_matchers m b)
  simple_matchers-Represents m b h =
      let b1 = add_given m.match_type validator_type_matcher b in
      let h1 = add_given-Represents m.match_type validator_type_matcher [] b h in
      let s1 = given m.match_type validator_type_matcher ∷ [] in
      let b2 = add_given m.match_remote remote_matcher b1 in
      let h2 = add_given-Represents m.match_remote remote_matcher s1 b1 h1 in
      let s2 = given m.match_remote remote_matcher ∷ s1 in
      let b3 = add_given m.tool_type tool_type_matcher b2 in
      let h3 = add_given-Represents m.tool_type tool_type_matcher s2 b2 h2 in
      let s3 = given m.tool_type tool_type_matcher ∷ s2 in
      add_given-Represents m.event_type event_type_matcher s3 b3 h3
