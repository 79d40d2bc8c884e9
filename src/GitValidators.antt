-- ===== src/GitValidators.antt =====
-- What the validators of git commands share (internal/validators/git/remote_helper.go and the
-- interface of internal/git/runner.go). A runner is the record of what git answers; an answer with an
-- error is `none`. The text of a parse error is a parameter.
pub mod Add
pub mod Branch
pub mod Commit
pub mod CommitContent
pub mod CommitMessage
pub mod CommitParser
pub mod CommitRules
pub mod NoVerify
pub mod Remotes
pub mod Templates
mod Tests
use claude_hooks.Common.{
  Bool, true, false, not, ◌||◌, List, [], ◌∷◌, ◌++◌, Option, none, some, if◌then◌else◌, get_or,
}
use claude_hooks.Common.Text.{Text, codes, text_eq, is_empty, compare_text}
use claude_hooks.Common.Map.{Map, lookup}
use claude_hooks.Common.Result.{Result, ok, err}
use claude_hooks.Shell.{ShellParser}
use claude_hooks.Hook.{Context, get_command}
use claude_hooks.Parser.{Command, ParseError, ParseResult, parse_bash}
use claude_hooks.Parser.Git.{GitCommand, GitError, parse_git_command}
use claude_hooks.Validator.{ValidationResult, pass, fail_with_ref}
use claude_hooks.Rules.Adapter.{RuleValidatorAdapter, check_rules}
use claude_hooks.GitValidators.Templates.{cross, push_remote_not_found}
use Prim.Native.Nat.{Ordering}

pub record GitRunner : Type 0 where
  pub is_in_repo : Bool
  pub staged_files : Option (List Text)
  pub modified_files : Option (List Text)
  pub untracked_files : Option (List Text)
  pub repo_root : Option Text
  pub remote_url : Text → Option Text
  pub current_branch : Option Text
  pub branch_remote : Text → Option Text
  pub remotes : Option (Map Text)

-- What a validator works with: its rule adapter, git in the current directory and in another one.
pub record Setting : Type 0 where
  pub suggest : Text → Text
  pub shell : ShellParser
  pub error_text : ParseError → Text
  pub rule_adapter : Option RuleValidatorAdapter
  pub git_runner : GitRunner
  pub runner_for_path : Text → GitRunner

-- The result of the rules, if there is an adapter.
abbrev pub rule_result : Setting → Context → Option ValidationResult
rule_result v ctx = elim v.rule_adapter [
  | none ↦ none
  | some a ↦ check_rules v.suggest a (some ctx)
]

abbrev pub no_args : List Text → Bool
no_args [] = true
no_args (a ∷ rest) = false

-- Whether the first argument is a given word.
abbrev pub starts_with_word : Text → List Text → Bool
starts_with_word w [] = false
starts_with_word w (a ∷ rest) = text_eq a w

-- The rest of the loop of `ValidateGitSubcommand` at one command.
abbrev pub after_parse :
    (GitCommand → ValidationResult)
    → Text
    → ValidationResult
    → Result GitError GitCommand
    → ValidationResult
after_parse check sub rest (err e) = rest
after_parse check sub rest (ok g) =
    if not (text_eq g.subcommand sub) then rest else if not (check g).passed then check g else rest

unfoldable pub validate_each :
    (GitCommand → ValidationResult) → Text → List Command → ValidationResult
unfolding text_eq parse_git_command
validate_each check sub [] = pass
validate_each check sub (c ∷ cs) =
    let rest = validate_each check sub cs in
    if not (text_eq c.name (codes "git")) || no_args c.args
    then rest
    else after_parse check sub rest (parse_git_command c)

abbrev pub validate_parsed :
    (GitCommand → ValidationResult) → Text → Result ParseError ParseResult → ValidationResult
validate_parsed check sub (err e) = pass
validate_parsed check sub (ok r) = validate_each check sub r.commands

unfoldable pub validate_git_subcommand :
    Setting → Text → (GitCommand → ValidationResult) → Context → ValidationResult
unfolding parse_bash validate_each
validate_git_subcommand v sub check ctx = get_or (rule_result v ctx) (
    if is_empty (get_command ctx)
    then pass
    else validate_parsed check sub (parse_bash v.shell (get_command ctx)))

-- `sort.Strings`, by insertion.
abbrev pub text_before : Text → Text → Bool
text_before s t = elim (compare_text s t) [ Ordering.lt ↦ true | _ ↦ false ]

unfoldable pub place_text : Text → List Text → List Text
unfolding compare_text
place_text s [] = s ∷ []
place_text s (t ∷ ts) =
    let rest = place_text s ts in if text_before t s then t ∷ rest else s ∷ t ∷ ts

unfoldable pub sort_texts : List Text → List Text
unfolding place_text
sort_texts [] = []
sort_texts (s ∷ ss) = place_text s (sort_texts ss)

abbrev pub names : Map Text → List Text
names [] = []
names ((name, url) ∷ m) = name ∷ names m

-- The remotes with their URLs, in the order of the names.
abbrev pub with_urls : Map Text → List Text → List (Text × Text)
with_urls m [] = []
with_urls m (name ∷ ns) = (name, get_or (lookup name m) []) ∷ with_urls m ns

unfoldable pub format_remote_not_found_error : Text → Map Text → Text
unfolding lookup sort_texts push_remote_not_found
format_remote_not_found_error remote m =
    push_remote_not_found remote (with_urls m (sort_texts (names m)))

abbrev pub not_there : Setting → Text → Text → Text → Option (Map Text) → ValidationResult
not_there v remote ref header none =
    fail_with_ref v.suggest ref
      (header ++ codes "\n\n" ++ cross ++ codes "Remote '" ++ remote ++ codes "' does not exist")
not_there v remote ref header (some m) =
    fail_with_ref v.suggest ref (header ++ codes "\n\n" ++ format_remote_not_found_error remote m)

abbrev pub by_url : Setting → Text → Text → Text → GitRunner → Option Text → ValidationResult
by_url v remote ref header runner none = not_there v remote ref header runner.remotes
by_url v remote ref header runner (some url) = pass

unfoldable pub validate_remote_exists : Setting → Text → GitRunner → Text → Text → ValidationResult
unfolding format_remote_not_found_error
validate_remote_exists v remote runner ref header =
    by_url v remote ref header runner (runner.remote_url remote)
