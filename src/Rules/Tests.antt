-- ===== src/Rules/Tests.antt =====
-- Registries of concrete rules, and the theorems at them.
use claude_hooks.Common.{◌≡◌, refl, true, not, [], ◌∷◌, Option, none, some}
use claude_hooks.Common.Int.{ℤ, pos, negsuc}
use claude_hooks.Common.Text.{Text, codes, is_empty}
use claude_hooks.Common.Result.{Result, ok, OnOk}
use claude_hooks.Rules.{
  Rule, RuleMatch, Matcher, MatchContext, CompiledRule, add, merge, get, evaluate, result_action,
  hook_match_context,
}
use claude_hooks.Rules.Sorting.{IsRegistry, Added, add-Added}
use claude_hooks.Rules.Evaluation.{Decides, evaluate-Decides}

-- A rule without conditions matches everything; one with conditions, commands only.
abbrev build : Option RuleMatch → Result Text (Option Matcher)
build none = ok none
build (some m) = ok (some (λ ctx. not (is_empty ctx.command)))

abbrev rule_of : Text → ℤ → Text → Rule
rule_of n p act = record {
  name = n;
  description = [];
  enabled = true;
  priority = p;
  conditions = none;
  rule_action = some (record { action_type = act; action_message = []; action_reference = [] });
}

abbrev compiled_of : Text → ℤ → Text → CompiledRule
compiled_of n p act = record {
  rule = rule_of n p act;
  action = record { action_type = act; action_message = []; action_reference = [] };
  matcher = λ ctx. true;
}

abbrev low : CompiledRule
low = compiled_of (codes "b") (negsuc 2) (codes "warn")

abbrev high : CompiledRule
high = compiled_of (codes "a") (pos 10) (codes "block")

abbrev no_context : MatchContext
no_context = hook_match_context none (codes "git.push") none none

add-Added_example :
    OnOk
      (Added build (rule_of (codes "a") (pos 10) (codes "block")) (low ∷ []))
      (add build (rule_of (codes "a") (pos 10) (codes "block")) (low ∷ []))
unfolding get
add-Added_example =
    add-Added build (rule_of (codes "a") (pos 10) (codes "block")) (low ∷ []) (tt, (refl, tt))

two_rules-IsRegistry : IsRegistry (high ∷ low ∷ [])
unfolding get claude_hooks.Rules.compare_rules
two_rules-IsRegistry = ((refl, tt), (refl, (refl, tt)))

blocked :
    result_action (evaluate (codes "allow") no_context (merge (high ∷ []) (low ∷ [])))
    ≡ codes "block"
unfolding evaluate merge
blocked = refl

evaluate-Decides_example :
    Decides no_context
      (codes "allow")
      (high ∷ low ∷ [])
      (evaluate (codes "allow") no_context (high ∷ low ∷ []))
evaluate-Decides_example =
    evaluate-Decides no_context (codes "allow") (high ∷ low ∷ []) two_rules-IsRegistry.0
