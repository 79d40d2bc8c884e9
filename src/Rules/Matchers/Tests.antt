-- ===== src/Rules/Matchers/Tests.antt =====
-- Concrete conditions and patterns, and the theorems at them. Regular expressions and globs are
-- stood for by texts that must occur.
use claude_hooks.Common.{◌≡◌, refl, Bool, true, false, [], ◌∷◌, Option, none, some}
use claude_hooks.Common.Text.{Text, codes, contains_text, text_eq, has_prefix}
use claude_hooks.Common.Result.{Result, ok, err}
use claude_hooks.Rules.{RuleMatch, MatchContext, or_always}
use claude_hooks.Rules.Patterns.{
  any_mode, all_mode, is_negated, compile_pattern_with_options, detect_pattern_type, strip_negation,
  new_glob_pattern, compile_multi_pattern, negated_pattern, new_regex_pattern, any_matches,
  multi_pattern,
}
use claude_hooks.Rules.Patterns.Cache.{new_pattern_cache}
use claude_hooks.Rules.Patterns.Negation.{compile_multi_pattern-dual, verdict, not_verdict, multi}
use claude_hooks.Rules.Matchers.{
  type_matches, validator_type_matcher, cut_suffix, remote_matcher, composite_matcher,
}
use claude_hooks.Rules.Matchers.Builder.{
  built, add_advanced_pattern_matcher, add_given, add_simple, add_pattern_matcher,
  parse_pattern_mode,
}
use claude_hooks.Rules.Matchers.Build.{build_matcher, build_matcher_legacy, build_matcher_advanced}
use claude_hooks.Rules.Matchers.Conditions.{conditions_of}
use claude_hooks.Rules.Matchers.Composition.{Builds, build_matcher-Builds}

-- A regular expression that is empty does not compile.
unfoldable compile_occurs : Text → Result Text (Text → Bool)
unfolding contains_text
compile_occurs [] = err (codes "empty")
compile_occurs (c ∷ p) = ok (λ s. contains_text s (c ∷ p))

abbrev all_valid : Text → Bool
all_valid p = true

unfoldable occurs : Text → Text → Bool
unfolding contains_text
occurs p s = contains_text s p

abbrev conditions : RuleMatch
conditions = record {
  match_type = codes "git.*";
  repo_pattern = [];
  repo_patterns = [];
  match_remote = codes "origin";
  branch_pattern = codes "!main";
  branch_patterns = [];
  file_pattern = [];
  file_patterns = [];
  content_pattern = [];
  content_patterns = [];
  command_pattern = [];
  command_patterns = codes "push" ∷ codes "fetch" ∷ [];
  tool_type = [];
  event_type = [];
  case_insensitive = false;
  pattern_mode = [];
}

abbrev on_feature : MatchContext
on_feature = record {
  hook_context = none;
  git_context = some (record {
    repo_root = codes "/r";
    remote = codes "origin";
    branch = codes "feature";
    is_in_repo = true;
  });
  file_context = none;
  validator_type = codes "git.push";
  command = codes "git fetch origin";
}

abbrev answer : Result Text (Option (MatchContext → Bool)) → Option Bool
answer (ok om) = some (or_always om on_feature)
answer (err e) = none

matches_feature :
    answer (build_matcher compile_occurs all_valid occurs (some conditions) new_pattern_cache).1
    ≡ some true
unfolding build_matcher build_matcher_advanced built add_advanced_pattern_matcher add_given
    add_simple compile_pattern_with_options detect_pattern_type is_negated strip_negation
    new_glob_pattern compile_multi_pattern validator_type_matcher text_eq cut_suffix remote_matcher
    negated_pattern occurs any_matches multi_pattern parse_pattern_mode type_matches
    composite_matcher has_prefix
matches_feature = refl

build_matcher-Builds_example :
    Builds compile_occurs all_valid occurs on_feature
      (conditions_of compile_occurs all_valid occurs conditions)
      (build_matcher compile_occurs all_valid occurs (some conditions) new_pattern_cache)
build_matcher-Builds_example =
    build_matcher-Builds compile_occurs all_valid occurs on_feature conditions new_pattern_cache
      (tt, tt)

compile_multi_pattern-dual_example :
    verdict
      (multi compile_occurs all_valid occurs false (codes "!main" ∷ codes "!dev" ∷ []) any_mode)
      (codes "main")
    ≡ not_verdict (
        verdict
          (multi compile_occurs all_valid occurs false (codes "main" ∷ codes "dev" ∷ []) all_mode)
          (codes "main"))
unfolding is_negated
compile_multi_pattern-dual_example =
    compile_multi_pattern-dual compile_occurs all_valid occurs false
      (codes "main" ∷ codes "dev" ∷ []) (refl, (refl, tt)) all_mode (codes "main")

-- Without options, the `!` of a content pattern belongs to the regular expression.
abbrev not_todo : RuleMatch
not_todo = record {
  match_type = [];
  repo_pattern = [];
  repo_patterns = [];
  match_remote = [];
  branch_pattern = [];
  branch_patterns = [];
  file_pattern = [];
  file_patterns = [];
  content_pattern = codes "!todo";
  content_patterns = [];
  command_pattern = [];
  command_patterns = [];
  tool_type = [];
  event_type = [];
  case_insensitive = false;
  pattern_mode = [];
}

abbrev on_clean_file : MatchContext
on_clean_file = record {
  hook_context = none;
  git_context = none;
  file_context = some (record { path = codes "a"; content = codes "done" });
  validator_type = [];
  command = [];
}

abbrev answer_file : Result Text (Option (MatchContext → Bool)) → Option Bool
answer_file (ok om) = some (or_always om on_clean_file)
answer_file (err e) = none

content_negation_ignored :
    answer_file (build_matcher compile_occurs all_valid occurs (some not_todo) new_pattern_cache).1
    ≡ some false
unfolding build_matcher build_matcher_legacy built add_pattern_matcher add_given new_regex_pattern
    compile_occurs has_prefix composite_matcher
content_negation_ignored = refl
