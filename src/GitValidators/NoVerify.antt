-- ===== src/GitValidators/NoVerify.antt =====
-- The validator against git commit --no-verify (internal/validators/git/no_verify.go).
pub mod Bypass
use claude_hooks.Common.{Bool, false, not, ◌||◌, List, [], ◌∷◌, if◌then◌else◌, get_or}
use claude_hooks.Common.Text.{codes, text_eq}
use claude_hooks.Common.Result.{Result, ok, err}
use claude_hooks.Hook.{Context, get_command}
use claude_hooks.Parser.{Command, ParseError, ParseResult, parse_bash}
use claude_hooks.Parser.Git.{GitCommand, GitError, parse_git_command, has_flag}
use claude_hooks.Validator.{ValidationResult, pass, warn, fail_with_ref, add_detail}
use claude_hooks.Validator.Reference.{ref_of}
use claude_hooks.GitValidators.Templates.{git_no_verify}
use claude_hooks.GitValidators.{Setting, rule_result, starts_with_word}

unfoldable pub no_verify_used : Result GitError GitCommand → Bool
unfolding has_flag
no_verify_used (err e) = false
no_verify_used (ok g) = has_flag g (codes "--no-verify") || has_flag g (codes "-n")

unfoldable pub refused : Setting → ValidationResult
unfolding add_detail
refused v = add_detail (codes "help") git_no_verify (
    fail_with_ref v.suggest (ref_of (codes "GIT021"))
      (codes "Git commit --no-verify is not allowed"))

unfoldable pub check_commands : Setting → List Command → ValidationResult
unfolding text_eq parse_git_command no_verify_used refused
check_commands v [] = pass
check_commands v (c ∷ cs) =
    let rest = check_commands v cs in
    if not (text_eq c.name (codes "git")) || not (starts_with_word (codes "commit") c.args)
    then rest
    else if no_verify_used (parse_git_command c)
    then refused v
    else rest

abbrev pub check_parsed : Setting → Result ParseError ParseResult → ValidationResult
check_parsed v (err e) = warn (codes "Failed to parse command")
check_parsed v (ok r) = check_commands v r.commands

unfoldable pub validate_no_verify : Setting → Context → ValidationResult
unfolding parse_bash check_commands
validate_no_verify v ctx =
    get_or (rule_result v ctx) (check_parsed v (parse_bash v.shell (get_command ctx)))
