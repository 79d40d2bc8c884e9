-- ===== src/Rules/Adapter.antt =====
-- The rules as a validator asks for them (internal/rules/adapter.go, FilterByValidator of
-- internal/rules/evaluator.go). The table of suggestions is a parameter, `suggest`.
pub mod Filter
mod Tests
use claude_hooks.Common.{
  Bool, true, false, not, List, [], ◌∷◌, Option, none, some, if◌then◌else◌, map, select,
}
use claude_hooks.Common.Text.{Text, codes, is_empty, text_eq}
use claude_hooks.Hook.{Context}
use claude_hooks.Validator.{ValidationResult, pass, fail, warn, fail_with_ref, warn_with_ref}
use claude_hooks.Rules.{
  Registry, Rule, RuleMatch, RuleAction, RuleResult, matched, not_matched, GitContext, FileContext,
  MatchContext, hook_match_context, evaluate, get_enabled,
}
use claude_hooks.Rules.Matchers.{validator_type_matcher}

-- `RuleEngine`: its registry and the action where no rule matches.
pub record RuleEngine : Type 0 where
  pub registry : Registry
  pub default_action : Text

-- The providers are functions without arguments, or nil: what they give stands for them.
pub record RuleValidatorAdapter : Type 0 where
  pub engine : Option RuleEngine
  pub adapter_type : Text
  pub git_provider : Option GitContext
  pub file_provider : Option FileContext

module _ (suggest : Text → Text) where
  unfoldable pub convert_action : RuleAction → Option ValidationResult
  unfolding text_eq
  convert_action a =
      if text_eq a.action_type (codes "block")
      then some (
          if not (is_empty a.action_reference)
          then fail_with_ref suggest a.action_reference a.action_message
          else fail a.action_message)
      else if text_eq a.action_type (codes "warn")
      then some (
          if not (is_empty a.action_reference)
          then warn_with_ref suggest a.action_reference a.action_message
          else warn a.action_message)
      else if text_eq a.action_type (codes "allow")
      then some pass
      else none

  abbrev pub convert_result : RuleResult → Option ValidationResult
  convert_result (not_matched default_action) = none
  convert_result (matched c) = convert_action c.action

  abbrev pub checked : Option RuleEngine → MatchContext → Option ValidationResult
  checked none ctx = none
  checked (some e) ctx = convert_result (evaluate e.default_action ctx e.registry)

  -- `CheckRulesWithContext`.
  unfoldable pub check_rules_with_context :
      RuleValidatorAdapter
      → Option Context
      → Option GitContext
      → Option FileContext
      → Option ValidationResult
  check_rules_with_context a ctx git file =
      checked a.engine (hook_match_context ctx a.adapter_type git file)

  -- `CheckRules`.
  unfoldable pub check_rules : RuleValidatorAdapter → Option Context → Option ValidationResult
  unfolding check_rules_with_context
  check_rules a ctx = check_rules_with_context a ctx a.git_provider a.file_provider

-- A context that has only the type.
abbrev pub type_context : Text → MatchContext
type_context vtype = record {
  hook_context = none;
  git_context = none;
  file_context = none;
  validator_type = vtype;
  command = [];
}

abbrev pub type_applies : Text → Option RuleMatch → Bool
type_applies vtype none = true
type_applies vtype (some m) =
    if is_empty m.match_type then true else validator_type_matcher m.match_type (type_context vtype)

unfoldable pub filter_by_validator : Text → Registry → Registry
filter_by_validator vtype r = select (λ c. type_applies vtype c.rule.conditions) (get_enabled r)

abbrev pub applicable : Text → Option RuleEngine → List Rule
applicable vtype none = []
applicable vtype (some e) = map (λ c. c.rule) (filter_by_validator vtype e.registry)

-- `GetApplicableRules` and `HasRulesForValidator`.
unfoldable pub get_applicable_rules : RuleValidatorAdapter → List Rule
unfolding filter_by_validator
get_applicable_rules a = applicable a.adapter_type a.engine

-- `len(rules) > 0`.
abbrev pub has_any : List Rule → Bool
has_any [] = false
has_any (rule ∷ rest) = true

unfoldable pub has_rules_for_validator : RuleValidatorAdapter → Bool
unfolding get_applicable_rules
has_rules_for_validator a = has_any (get_applicable_rules a)
