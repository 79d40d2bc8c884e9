-- ===== src/GitValidators/Remotes.antt =====
-- The validators of git push and git fetch (internal/validators/git/push.go, fetch.go).
pub mod Passing
use claude_hooks.Common.{
  Bool, not, ◌&&◌, List, [], ◌∷◌, ◌++◌, Option, none, some, if◌then◌else◌, select, is_some,
}
use claude_hooks.Common.Text.{Text, codes, is_empty, contains, has_prefix, join}
use claude_hooks.Common.Map.{Map, lookup}
use claude_hooks.Hook.{Context}
use claude_hooks.Parser.Git.{GitCommand, get_working_directory}
use claude_hooks.Validator.{ValidationResult, pass, fail_with_ref}
use claude_hooks.Validator.Reference.{ref_of}
use claude_hooks.GitValidators.Templates.{push_blocked_remote}
use claude_hooks.GitValidators.{
  GitRunner, Setting, names, no_args, validate_git_subcommand, validate_remote_exists,
}

-- The fields that the validator reads; a validator without a configuration has empty ones.
pub record PushConfig : Type 0 where
  pub blocked_remotes : List Text
  pub allowed_remote_priority : List Text

abbrev pub runner_for : Setting → GitCommand → GitRunner
runner_for v g =
    let dir = get_working_directory g in
    if not (is_empty dir) then v.runner_for_path dir else v.git_runner

abbrev pub tracked_remote : GitRunner → Option Text → Text
tracked_remote r none = codes "origin"
tracked_remote r (some branch) = elim (r.branch_remote branch) [
  | none ↦ codes "origin"
  | some remote ↦ remote
]

-- The first argument that is no flag.
unfoldable pub first_plain : List Text → Text
unfolding has_prefix
first_plain [] = []
first_plain (a ∷ rest) =
    let later = first_plain rest in if not (has_prefix a (codes "-")) then a else later

unfoldable pub push_remote : GitCommand → GitRunner → Text
unfolding first_plain
push_remote g r = if no_args g.args then tracked_remote r r.current_branch else first_plain g.args

abbrev pub priority_of : PushConfig → List Text
priority_of c =
    if no_args c.allowed_remote_priority
    then codes "origin" ∷ codes "upstream" ∷ []
    else c.allowed_remote_priority

abbrev pub not_blocked : PushConfig → Text → Bool
not_blocked c name = not (contains c.blocked_remotes name)

unfoldable pub suggested_remotes : PushConfig → Map Text → List Text
unfolding lookup contains
suggested_remotes c m = select (λ p. is_some (lookup p m) && not_blocked c p) (priority_of c)

unfoldable pub available_remotes : PushConfig → Map Text → List Text
unfolding contains
available_remotes c m = select (not_blocked c) (names m)

abbrev pub blocked_message : Setting → PushConfig → Text → Option (Map Text) → Text
blocked_message v c remote none =
    push_blocked_remote remote (join (codes ", ") c.blocked_remotes) [] []
blocked_message v c remote (some m) =
    let suggested = suggested_remotes c m in
    let available = if no_args suggested then available_remotes c m else [] in
    push_blocked_remote remote (join (codes ", ") c.blocked_remotes) (join (codes ", ") suggested)
      (join (codes ", ") available)

unfoldable pub validate_not_blocked_remote :
    Setting → PushConfig → Text → GitRunner → ValidationResult
unfolding contains join suggested_remotes available_remotes
validate_not_blocked_remote v c remote r =
    if no_args c.blocked_remotes
    then pass
    else if not_blocked c remote
    then pass
    else fail_with_ref v.suggest (ref_of (codes "GIT025")) (blocked_message v c remote r.remotes)

-- The mark 🚫 in UTF-8, and the header of a failure.
abbrev pub failure_header : Text → Text
failure_header sub =
    240 ∷ 159 ∷ 154 ∷ 171 ∷ 32 ∷ (codes "Git " ++ sub ++ codes " validation failed:")

unfoldable pub validate_push_command : Setting → PushConfig → GitCommand → ValidationResult
unfolding push_remote get_working_directory validate_not_blocked_remote validate_remote_exists
validate_push_command v c g =
    let r = runner_for v g in
    let remote = push_remote g r in
    if not r.is_in_repo
    then pass
    else if is_empty remote
    then pass
    else if not (validate_not_blocked_remote v c remote r).passed
    then validate_not_blocked_remote v c remote r
    else validate_remote_exists v remote r (ref_of (codes "GIT007")) (failure_header (codes "push"))

unfoldable pub validate_push : Setting → PushConfig → Context → ValidationResult
unfolding validate_git_subcommand validate_push_command
validate_push v c ctx = validate_git_subcommand v (codes "push") (validate_push_command v c) ctx

unfoldable pub validate_fetch_command : Setting → GitCommand → ValidationResult
unfolding first_plain get_working_directory validate_remote_exists
validate_fetch_command v g =
    let r = runner_for v g in
    let remote = first_plain g.args in
    if not r.is_in_repo
    then pass
    else if is_empty remote
    then pass
    else validate_remote_exists v remote r (ref_of (codes "GIT024"))
        (failure_header (codes "fetch"))

unfoldable pub validate_fetch : Setting → Context → ValidationResult
unfolding validate_git_subcommand validate_fetch_command
validate_fetch v ctx = validate_git_subcommand v (codes "fetch") (validate_fetch_command v) ctx
