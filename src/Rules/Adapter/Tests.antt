-- ===== src/Rules/Adapter/Tests.antt =====
-- An engine with one rule for git validators, asked by a validator of files.
use claude_hooks.Common.{◌≡◌, refl, Bool, true, false, [], ◌∷◌, none, some}
use claude_hooks.Common.Int.{pos}
use claude_hooks.Common.Text.{Text, codes, text_eq, has_prefix}
use claude_hooks.Common.Result.{Result, err}
use claude_hooks.Validator.{fail}
use claude_hooks.Rules.{RuleMatch, CompiledRule, or_always}
use claude_hooks.Rules.Patterns.Cache.{new_pattern_cache}
use claude_hooks.Rules.Matchers.{validator_type_matcher, type_matches, cut_suffix}
use claude_hooks.Rules.Matchers.Builder.{built, add_given, add_simple, add_pattern_matcher}
use claude_hooks.Rules.Matchers.Build.{build_matcher, build_matcher_legacy}
use claude_hooks.Rules.Adapter.{RuleValidatorAdapter, check_rules}
use claude_hooks.Rules.Adapter.Filter.{EngineBuilt}

abbrev git_conditions : RuleMatch
git_conditions = record {
  match_type = codes "git.*";
  repo_pattern = [];
  repo_patterns = [];
  match_remote = [];
  branch_pattern = [];
  branch_patterns = [];
  file_pattern = [];
  file_patterns = [];
  content_pattern = [];
  content_patterns = [];
  command_pattern = [];
  command_patterns = [];
  tool_type = [];
  event_type = [];
  case_insensitive = false;
  pattern_mode = [];
}

abbrev git_rule : CompiledRule
git_rule = record {
  rule = record {
    name = codes "no-git";
    description = [];
    enabled = true;
    priority = pos 1;
    conditions = some git_conditions;
    rule_action = none;
  };
  action = record {
    action_type = codes "block";
    action_message = codes "no";
    action_reference = [];
  };
  matcher = or_always (some (validator_type_matcher (codes "git.*")));
}

abbrev asked_by : Text → RuleValidatorAdapter
asked_by vtype = record {
  engine = some (record { registry = git_rule ∷ []; default_action = codes "allow" });
  adapter_type = vtype;
  git_provider = none;
  file_provider = none;
}

abbrev no_regex : Text → Result Text (Text → Bool)
no_regex p = err (codes "none")

built_example :
    EngineBuilt no_regex (λ p. false) (λ p s. false) (asked_by (codes "file.markdown")).engine
unfolding build_matcher build_matcher_legacy built add_given add_simple add_pattern_matcher
built_example =
    ((new_pattern_cache, some (validator_type_matcher (codes "git.*")), (tt, tt), refl, refl), tt)

blocks_push : check_rules (λ ref. []) (asked_by (codes "git.push")) none ≡ some (fail (codes "no"))
unfolding check_rules claude_hooks.Rules.evaluate validator_type_matcher type_matches text_eq
    has_prefix cut_suffix claude_hooks.Rules.Adapter.convert_action
blocks_push = refl
