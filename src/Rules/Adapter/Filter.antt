-- ===== src/Rules/Adapter/Filter.antt =====
-- A rule that matches in a context is one that applies to the context's validator type
-- (HasRulesForValidator in internal/rules/adapter.go).
use claude_hooks.Common.{
  ◌≡◌, refl, sym, ◌∙◌, Bool, true, false, List, [], ◌∷◌, Option, none, some, All, inl, inr,
  Bool-cases, arith, map, ℕ, zero, suc, ap, drop,
}
use claude_hooks.Common.Text.{Text, is_empty}
use claude_hooks.Hook.{Context}
use claude_hooks.Common.Result.{Result, ok, err}
use claude_hooks.Rules.{
  RuleMatch, Matcher, MatchContext, CompiledRule, Registry, or_always, first_match, evaluate,
  not_matched, hook_match_context,
}
use claude_hooks.Rules.Patterns.Cache.{PatternCache, Coherent}
use claude_hooks.Rules.Matchers.{validator_type_matcher}
use claude_hooks.Rules.Matchers.Build.{build_matcher}
use claude_hooks.Rules.Matchers.Builder.{use_advanced}
use claude_hooks.Rules.Matchers.Steps.{
  Condition, all_hold, holds, given, simple_conditions, Outcome,
}
use claude_hooks.Rules.Matchers.Conditions.{conditions_of, legacy_conditions, advanced_conditions}
use claude_hooks.Rules.Matchers.Composition.{build_matcher-Builds}
use claude_hooks.Rules.Adapter.{
  RuleEngine, RuleValidatorAdapter, type_applies, filter_by_validator, has_any, applicable, checked,
  check_rules, has_rules_for_validator,
}

-- The conditions after the first hold, where all hold.
all_hold-tail :
    (s : Condition) (ss : List Condition) (ctx : MatchContext)
    → all_hold (s ∷ ss) ctx ≡ true
    → all_hold ss ctx ≡ true
all_hold-tail s ss ctx h = ground (arith, h)

given-type :
    (m : RuleMatch) (ctx : MatchContext)
    → holds (given m.match_type validator_type_matcher) ctx ≡ true
    → type_applies ctx.validator_type (some m) ≡ true
unfolding validator_type_matcher
given-type m ctx h = elim (Bool-cases (is_empty m.match_type)) [
  | inl e ↦ rw e refl
  | inr e ↦ rw e (rw e at h)
]

-- The first conditions may be left out.
all_hold-drop :
    (n : ℕ) (ss : List Condition) (ctx : MatchContext)
    → all_hold ss ctx ≡ true
    → all_hold (drop n ss) ctx ≡ true
all_hold-drop zero ss ctx h = h
all_hold-drop (suc n) [] ctx h = h
all_hold-drop (suc n) (s ∷ ss) ctx h = all_hold-drop n ss ctx (all_hold-tail s ss ctx h)

simple_conditions-type :
    (m : RuleMatch) (ctx : MatchContext)
    → all_hold (simple_conditions m) ctx ≡ true
    → type_applies ctx.validator_type (some m) ≡ true
simple_conditions-type m ctx h = given-type m ctx (all_hold-drop 3 (simple_conditions m) ctx h)

abbrev is_empty_list {ℓ} : {A : Type ℓ} → List A → Bool
is_empty_list [] = true
is_empty_list (x ∷ xs) = false

abbrev value_of : Condition → Option Matcher
value_of (ok om) = om
value_of (err e) = none

module _ (regex_compile : Text → Result Text (Text → Bool)) (validate_pattern : Text → Bool)
    (match_unvalidated : Text → Text → Bool) where
  conditions_of-type :
      (m : RuleMatch) (ctx : MatchContext)
      → all_hold (conditions_of regex_compile validate_pattern match_unvalidated m) ctx ≡ true
      → type_applies ctx.validator_type (some m) ≡ true
  conditions_of-type m ctx h = elim (Bool-cases (use_advanced m)) [
    | inl e ↦ simple_conditions-type m ctx (
        all_hold-drop 5 (advanced_conditions regex_compile validate_pattern match_unvalidated m) ctx
          (rw e at h))
    | inr e ↦ simple_conditions-type m ctx (
        all_hold-drop 5 (legacy_conditions regex_compile validate_pattern match_unvalidated m) ctx
          (rw e at h))
  ]

  -- The matcher of the rule was built from its conditions.
  abbrev pub IsBuilt : CompiledRule → Type 0
  IsBuilt c =
      (cache : PatternCache) × (om : Option Matcher) × Coherent regex_compile validate_pattern
        match_unvalidated cache
      × ((build_matcher regex_compile validate_pattern match_unvalidated c.rule.conditions cache).1
          ≡ ok om)
      × (c.matcher ≡ or_always om)

  Outcome-all_hold :
      (ctx : MatchContext) (ss : List Condition) (om : Option Matcher) (r : Condition)
      → r ≡ ok om
      → Outcome regex_compile validate_pattern match_unvalidated ctx ss r
      → or_always om ctx ≡ true
      → all_hold ss ctx ≡ true
  Outcome-all_hold ctx ss om (ok x) e o t = sym o.1 ∙ ap (λ y. or_always y ctx) (ap value_of e) ∙ t
  Outcome-all_hold ctx ss om (err x) e o t = ground arith

  built-type_applies :
      (o : Option RuleMatch) (cache : PatternCache) (om : Option Matcher) (ctx : MatchContext)
      → Coherent regex_compile validate_pattern match_unvalidated cache
      → (build_matcher regex_compile validate_pattern match_unvalidated o cache).1 ≡ ok om
      → or_always om ctx ≡ true
      → type_applies ctx.validator_type o ≡ true
  built-type_applies none cache om ctx h e t = refl
  built-type_applies (some m) cache om ctx h e t = conditions_of-type m ctx (
      Outcome-all_hold ctx (conditions_of regex_compile validate_pattern match_unvalidated m) om
        (build_matcher regex_compile validate_pattern match_unvalidated (some m) cache).1 e
        (build_matcher-Builds regex_compile validate_pattern match_unvalidated ctx m cache h).0 t)

  matching-type_applies :
      (c : CompiledRule) (ctx : MatchContext)
      → IsBuilt c
      → c.matcher ctx ≡ true
      → type_applies ctx.validator_type c.rule.conditions ≡ true
  matching-type_applies c ctx (cache, om, h, e, same) t =
      built-type_applies c.rule.conditions cache om ctx h e (ap (λ f. f ctx) (sym same) ∙ t)

  -- Where no rule applies to a type, none decides.
  first_match-applies :
      (a : Text) (ctx : MatchContext) (r : Registry)
      → All IsBuilt r
      → is_empty_list (filter_by_validator ctx.validator_type r) ≡ true
      → evaluate a ctx r ≡ not_matched a
  unfolding evaluate filter_by_validator first_match
  first_match-applies a ctx [] h e = refl
  first_match-applies a ctx (c ∷ r) h e =
      ground (arith, first_match-applies a ctx r h.1, matching-type_applies c ctx h.0)

  abbrev pub EngineBuilt : Option RuleEngine → Type 0
  EngineBuilt none = Unit
  EngineBuilt (some e) = All IsBuilt e.registry

  map-is_empty : (r : Registry) → has_any (map (λ c. c.rule) r) ≡ false → is_empty_list r ≡ true
  map-is_empty [] h = refl
  map-is_empty (c ∷ r) h = ground arith

  checked-none :
      (suggest : Text → Text) (vtype : Text) (ctx : MatchContext) (o : Option RuleEngine)
      → ctx.validator_type ≡ vtype
      → EngineBuilt o
      → has_any (applicable vtype o) ≡ false
      → checked suggest o ctx ≡ none
  checked-none suggest vtype ctx none v b h = refl
  checked-none suggest vtype ctx (some e) v b h = rw (
      first_match-applies e.default_action ctx e.registry b
        (rw v (map-is_empty (filter_by_validator vtype e.registry) h)))

  -- Where every matcher of the engine was built from its rule's conditions and no rule applies to the
  -- validator's type, checking the rules gives nothing, whatever the contexts are.
  pub check_rules-has_rules_for_validator :
      (suggest : Text → Text) (a : RuleValidatorAdapter) (ctx : Option Context)
      → EngineBuilt a.engine
      → has_rules_for_validator a ≡ false
      → check_rules suggest a ctx ≡ none
  unfolding check_rules has_rules_for_validator
  check_rules-has_rules_for_validator suggest a ctx b h =
      checked-none suggest a.adapter_type
        (hook_match_context ctx a.adapter_type a.git_provider a.file_provider) a.engine refl b h
