-- ===== src/Rules.antt =====
-- The rule engine: rules, their registry and the evaluator (internal/rules/types.go, registry.go,
-- evaluator.go, engine.go). The conditions of a rule are compiled by `build`, a parameter that
-- Matchers/Build fills; a matcher is a predicate on contexts. Sorting is by insertion.
pub mod Adapter
pub mod Matchers
pub mod Merging
pub mod Patterns
pub mod Sorting
pub mod Evaluation
mod Tests
use Prim.Native.Nat.{compare, Ordering}
use claude_hooks.Common.{
  ℕ, ◌+◌, Bool, true, false, List, [], ◌∷◌, Option, none, some, if◌then◌else◌, length, select, map,
}
use claude_hooks.Common.Int.{ℤ, pos_part, neg_part}
use claude_hooks.Common.Text.{Text, is_empty, text_eq, compare_text}
use claude_hooks.Common.Result.{Result, ok, err, ◌>>=◌}
use claude_hooks.Hook.{Context, get_command}

pub record GitContext : Type 0 where
  pub repo_root : Text
  pub remote : Text
  pub branch : Text
  pub is_in_repo : Bool

pub record FileContext : Type 0 where
  pub path : Text
  pub content : Text

pub record MatchContext : Type 0 where
  pub hook_context : Option Context
  pub git_context : Option GitContext
  pub file_context : Option FileContext
  pub validator_type : Text
  pub command : Text

pub record RuleMatch : Type 0 where
  pub match_type : Text
  pub repo_pattern : Text
  pub repo_patterns : List Text
  pub match_remote : Text
  pub branch_pattern : Text
  pub branch_patterns : List Text
  pub file_pattern : Text
  pub file_patterns : List Text
  pub content_pattern : Text
  pub content_patterns : List Text
  pub command_pattern : Text
  pub command_patterns : List Text
  pub tool_type : Text
  pub event_type : Text
  pub case_insensitive : Bool
  pub pattern_mode : Text

-- The type is one of the texts "block", "warn" and "allow".
pub record RuleAction : Type 0 where
  pub action_type : Text
  pub action_message : Text
  pub action_reference : Text

pub record Rule : Type 0 where
  pub name : Text
  pub description : Text
  pub enabled : Bool
  pub priority : ℤ
  pub conditions : Option RuleMatch
  pub rule_action : Option RuleAction

abbrev pub Matcher : Type 0
Matcher = MatchContext → Bool

-- The action of a compiled rule is never nil: it stands beside the rule.
pub record CompiledRule : Type 0 where
  pub rule : Rule
  pub action : RuleAction
  pub matcher : Matcher

abbrev pub Registry : Type 0
Registry = List CompiledRule

abbrev pub compare_ℤ : ℤ → ℤ → Ordering
compare_ℤ a b = compare (pos_part a + neg_part b) (pos_part b + neg_part a)

-- Higher priority first, then by name.
unfoldable pub compare_rules : CompiledRule → CompiledRule → Ordering
unfolding compare_text
compare_rules a b =
    let by_name = compare_text a.rule.name b.rule.name in
    elim (compare_ℤ b.rule.priority a.rule.priority) [
      | Ordering.lt ↦ Ordering.lt
      | Ordering.eq ↦ by_name
      | Ordering.gt ↦ Ordering.gt
    ]

-- `a` may stand before `b`.
abbrev pub in_order : CompiledRule → CompiledRule → Bool
in_order a b = elim (compare_rules a b) [ Ordering.gt ↦ false | _ ↦ true ]

unfoldable pub place : CompiledRule → Registry → Registry
unfolding compare_rules
place c [] = c ∷ []
place c (d ∷ r) = let rest = place c r in if in_order c d then c ∷ (d ∷ r) else d ∷ rest

unfoldable pub sort_rules : Registry → Registry
unfolding place
sort_rules [] = []
sort_rules (c ∷ r) = place c (sort_rules r)

-- The rule with the name of `c` is overwritten in place; otherwise `c` goes to the end.
unfoldable pub put : CompiledRule → Registry → Registry
unfolding text_eq
put c [] = c ∷ []
put c (d ∷ r) = let rest = put c r in if text_eq d.rule.name c.rule.name then c ∷ r else d ∷ rest

pub data RuleError : Type 0 where
  empty_name nil_action bad_matcher : RuleError

abbrev pub or_always : Option Matcher → Matcher
or_always none ctx = true
or_always (some m) ctx = m ctx

module _ (build : Option RuleMatch → Result Text (Option Matcher)) where
  abbrev pub add_built :
      Rule → RuleAction → Result Text (Option Matcher) → Registry → Result RuleError Registry
  add_built rule act (err e) r = err bad_matcher
  add_built rule act (ok m) r =
      ok (sort_rules (put (record { rule = rule; action = act; matcher = or_always m }) r))

  abbrev pub add_acting : Rule → Option RuleAction → Registry → Result RuleError Registry
  add_acting rule none r = err nil_action
  add_acting rule (some act) r = add_built rule act (build rule.conditions) r

  -- `Add` of a rule that is not nil.
  unfoldable pub add : Rule → Registry → Result RuleError Registry
  add rule r = if is_empty rule.name then err empty_name else add_acting rule rule.rule_action r

  unfoldable pub add_all : List Rule → Registry → Result RuleError Registry
  unfolding add
  add_all [] r = ok r
  add_all (rule ∷ rules) r = add rule r >>= λ r1. add_all rules r1

-- `Remove`: the registry without the first rule of the name, and whether there was one.
unfoldable pub remove : Text → Registry → Registry × Bool
unfolding text_eq
remove n [] = ([], false)
remove n (c ∷ r) =
    let (rest, found) = remove n r in if text_eq c.rule.name n then (r, true) else (c ∷ rest, found)

unfoldable pub get : Text → Registry → Option CompiledRule
unfolding text_eq
get n [] = none
get n (c ∷ r) = if text_eq c.rule.name n then some c else get n r

abbrev pub get_enabled : Registry → Registry
get_enabled r = select (λ c. c.rule.enabled) r

abbrev pub size : Registry → ℕ
size r = length r

abbrev pub clear : Registry → Registry
clear r = []

unfoldable pub put_all : Registry → Registry → Registry
unfolding put
put_all [] r = r
put_all (c ∷ cs) r = put_all cs (put c r)

-- `Merge`: the rules of the source take precedence.
unfoldable pub merge : Registry → Registry → Registry
unfolding put_all sort_rules
merge source r = sort_rules (put_all source r)

-- `RuleResult`: what matched, or the action taken by default.
pub data RuleResult : Type 0 where
  matched : CompiledRule → RuleResult
  not_matched : Text → RuleResult

abbrev pub result_action : RuleResult → Text
result_action (matched c) = c.action.action_type
result_action (not_matched default_action) = default_action

unfoldable pub first_match : Text → MatchContext → Registry → RuleResult
first_match default_action ctx [] = not_matched default_action
first_match default_action ctx (c ∷ r) =
    if c.matcher ctx then matched c else first_match default_action ctx r

-- `Evaluate`, which stops at the first match whatever `stopOnFirstMatch` says.
unfoldable pub evaluate : Text → MatchContext → Registry → RuleResult
unfolding first_match
evaluate default_action ctx r = first_match default_action ctx (get_enabled r)

unfoldable pub evaluate_all : MatchContext → Registry → List RuleResult
evaluate_all ctx r = map matched (select (λ c. c.matcher ctx) (get_enabled r))

unfoldable pub find_matching_rules : MatchContext → Registry → List Rule
find_matching_rules ctx r = map (λ c. c.rule) (select (λ c. c.matcher ctx) (get_enabled r))

-- `EvaluateHook` of the engine.
abbrev pub hook_match_context :
    Option Context → Text → Option GitContext → Option FileContext → MatchContext
hook_match_context ctx vtype git file = record {
  hook_context = ctx;
  git_context = git;
  file_context = file;
  validator_type = vtype;
  command = elim ctx [ none ↦ [] | some c ↦ get_command c ];
}
