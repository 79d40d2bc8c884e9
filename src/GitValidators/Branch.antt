-- ===== src/GitValidators/Branch.antt =====
-- The validator of branch names (internal/validators/git/branch.go). The regular expressions of a
-- name are written out as tests of its bytes.
pub mod Names
use claude_hooks.Common.{
  Bool, true, false, not, ◌&&◌, ◌||◌, List, [], ◌∷◌, ◌++◌, ◌==◌, Option, none, some, if◌then◌else◌,
  get_or, any, leb, map,
}
use claude_hooks.Common.Text.{
  Text, codes, text_eq, is_empty, contains, contains_byte, to_lower, cut, join,
}
use claude_hooks.Common.Result.{Result, ok, err}
use claude_hooks.Hook.{Context, get_command}
use claude_hooks.Parser.{Command, ParseError, ParseResult, parse_bash}
use claude_hooks.Parser.Git.{GitCommand, GitError, parse_git_command, has_flag}
use claude_hooks.Validator.{ValidationResult, pass, warn, fail_with_ref}
use claude_hooks.Validator.Reference.{ref_of}
use claude_hooks.GitValidators.Templates.{
  branch_space_error, branch_uppercase, branch_pattern, branch_missing_parts, branch_invalid_type,
}
use claude_hooks.GitValidators.{Setting, no_args, rule_result}
use Prim.Native.Nat.{ℕ}

-- A validator without a configuration has empty lists and no flags.
pub record BranchConfig : Type 0 where
  pub protected_branches : List Text
  pub valid_types : List Text
  pub require_type : Option Bool
  pub allow_uppercase : Option Bool

abbrev pub or_default : List Text → List Text → List Text
or_default xs ds = if no_args xs then ds else xs

abbrev pub get_protected_branches : BranchConfig → List Text
get_protected_branches c = or_default c.protected_branches (map codes ("main" ∷ "master" ∷ []))

abbrev pub get_valid_types : BranchConfig → List Text
get_valid_types c = or_default c.valid_types (
    map codes (
      "feat" ∷ "fix" ∷ "docs" ∷ "style" ∷ "refactor" ∷ "test" ∷ "chore" ∷ "ci" ∷ "build" ∷ "perf"
      ∷ []))

abbrev pub is_require_type : BranchConfig → Bool
is_require_type c = get_or c.require_type true

abbrev pub is_allow_uppercase : BranchConfig → Bool
is_allow_uppercase c = get_or c.allow_uppercase false

abbrev pub checkout_create_flags : List Text
checkout_create_flags = map codes ("-b" ∷ "--branch" ∷ [])

abbrev pub switch_create_flags : List Text
switch_create_flags = map codes ("-c" ∷ "--create" ∷ "-C" ∷ "--force-create" ∷ [])

abbrev pub branch_delete_flags : List Text
branch_delete_flags = map codes ("-d" ∷ "-D" ∷ "--delete" ∷ [])

abbrev pub branch_query_flags : List Text
branch_query_flags = map codes (
    "-a" ∷ "--all" ∷ "-r" ∷ "--remotes" ∷ "-l" ∷ "--list" ∷ "--contains" ∷ "--no-contains"
    ∷ "--merged" ∷ "--no-merged" ∷ "--points-at" ∷ "-v" ∷ "--verbose" ∷ "-vv" ∷ "--sort"
    ∷ "--format" ∷ "--show-current" ∷ "--column" ∷ "--no-column" ∷ "-m" ∷ "-M" ∷ "--move" ∷ "-c"
    ∷ "-C" ∷ "--copy" ∷ [])

unfoldable pub has_any_flag : GitCommand → List Text → Bool
unfolding has_flag
has_any_flag g flags = any (λ f. has_flag g f) flags

-- The flag after a given one.
unfoldable pub flag_after : Text → List Text → Option Text
unfolding text_eq
flag_after flag [] = none
flag_after flag (f ∷ []) = none
flag_after flag (f ∷ (next ∷ rest)) =
    let later = flag_after flag (next ∷ rest) in if text_eq f flag then some next else later

unfoldable pub after_any : List Text → List Text → Option Text
unfolding flag_after
after_any [] flags = none
after_any (flag ∷ more) flags =
    let later = after_any more flags in
    elim (flag_after flag flags) [ none ↦ later | some name ↦ some name ]

abbrev pub first_arg : List Text → Text
first_arg [] = []
first_arg (a ∷ rest) = a

unfoldable pub extract_branch_name : GitCommand → Text
unfolding text_eq after_any
extract_branch_name g =
    if text_eq g.subcommand (codes "checkout")
    then get_or (after_any checkout_create_flags g.flags) (first_arg g.args)
    else if text_eq g.subcommand (codes "branch")
    then first_arg g.args
    else if text_eq g.subcommand (codes "switch")
    then get_or (after_any switch_create_flags g.flags) (first_arg g.args)
    else []

abbrev pub is_lower : ℕ → Bool
is_lower c = leb b'a' c && leb c b'z'

-- `[a-z]`, and `[a-zA-Z]` where upper case is allowed.
abbrev pub is_type_byte : Bool → ℕ → Bool
is_type_byte upper c = is_lower c || (upper && (leb b'A' c && leb c b'Z'))

-- `[a-z0-9-]` and `[a-zA-Z0-9-]`.
abbrev pub is_name_byte : Bool → ℕ → Bool
is_name_byte upper c = is_type_byte upper c || ((leb b'0' c && leb c b'9') || c == b'-')

-- One byte or more of a kind.
abbrev pub all_bytes : (ℕ → Bool) → Text → Bool
all_bytes p [] = true
all_bytes p (c ∷ s) = p c && all_bytes p s

abbrev pub some_bytes : (ℕ → Bool) → Text → Bool
some_bytes p s = not (is_empty s) && all_bytes p s

abbrev pub two_parts : Bool → Text × Option Text → Bool
two_parts upper (kind, none) = false
two_parts upper (kind, some name) =
    some_bytes (is_type_byte upper) kind && some_bytes (is_name_byte upper) name

-- `^[a-z]+/[a-z0-9-]+$`, and with upper case letters where they are allowed.
unfoldable pub matches_pattern : Bool → Text → Bool
unfolding cut
matches_pattern upper name = two_parts upper (cut b'/' name)

unfoldable pub type_valid : Text → List Text → Bool
unfolding text_eq to_lower
type_valid kind types = any (λ t. text_eq kind (to_lower t)) types

module _ (v : Setting) (c : BranchConfig) where
  abbrev pub bad_name : Text → ValidationResult
  bad_name msg = fail_with_ref v.suggest (ref_of (codes "GIT020")) msg

  abbrev pub check_type : Text → Text × Option Text → ValidationResult
  check_type name (kind, none) = bad_name (branch_missing_parts name)
  check_type name (kind, some description) =
      if type_valid (if is_allow_uppercase c then to_lower kind else kind) (get_valid_types c)
      then pass
      else bad_name (branch_invalid_type kind (join (codes ", ") (get_valid_types c)))

  unfoldable pub validate_branch_name : Text → ValidationResult
  unfolding contains text_eq to_lower matches_pattern cut type_valid join
  validate_branch_name name =
      if contains (get_protected_branches c) name
      then pass
      else if not (is_allow_uppercase c) && not (text_eq name (to_lower name))
      then bad_name (branch_uppercase name (to_lower name))
      else if not (is_require_type c)
      then pass
      else if not (matches_pattern (is_allow_uppercase c) name)
      then bad_name (branch_pattern name)
      else check_type name (cut b'/' name)

  unfoldable pub validate_branch_creation : GitCommand → Option ValidationResult
  unfolding extract_branch_name contains_byte validate_branch_name
  validate_branch_creation g =
      let name = extract_branch_name g in
      if is_empty name
      then none
      else if contains_byte 32 name
      then some (bad_name branch_space_error)
      else some (validate_branch_name name)

  abbrev pub validate_checkout : GitCommand → Option ValidationResult
  validate_checkout g =
      if not (has_any_flag g checkout_create_flags) then none else validate_branch_creation g

  abbrev pub validate_branch : GitCommand → Option ValidationResult
  validate_branch g =
      if has_any_flag g branch_delete_flags
      then none
      else if has_any_flag g branch_query_flags
      then none
      else validate_branch_creation g

  abbrev pub validate_switch : GitCommand → Option ValidationResult
  validate_switch g =
      if not (has_any_flag g switch_create_flags) then none else validate_branch_creation g

  unfoldable pub validate_git_command : GitCommand → Option ValidationResult
  unfolding text_eq has_any_flag validate_branch_creation
  validate_git_command g =
      if text_eq g.subcommand (codes "checkout")
      then validate_checkout g
      else if text_eq g.subcommand (codes "branch")
      then validate_branch g
      else if text_eq g.subcommand (codes "switch")
      then validate_switch g
      else none

  abbrev pub or_rest : Option ValidationResult → ValidationResult → ValidationResult
  or_rest none rest = rest
  or_rest (some r) rest = if not r.passed then r else rest

  abbrev pub check_parsed_git : Result GitError GitCommand → ValidationResult → ValidationResult
  check_parsed_git (err e) rest = rest
  check_parsed_git (ok g) rest = or_rest (validate_git_command g) rest

  unfoldable pub check_commands : List Command → ValidationResult
  unfolding text_eq parse_git_command validate_git_command
  check_commands [] = pass
  check_commands (d ∷ ds) =
      let rest = check_commands ds in
      if not (text_eq d.name (codes "git"))
      then rest
      else check_parsed_git (parse_git_command d) rest

  abbrev pub check_parsed : Result ParseError ParseResult → ValidationResult
  check_parsed (err e) = warn (codes "Failed to parse command: " ++ v.error_text e)
  check_parsed (ok r) = check_commands r.commands

  unfoldable pub validate_branches : Context → ValidationResult
  unfolding parse_bash check_commands
  validate_branches ctx =
      get_or (rule_result v ctx) (check_parsed (parse_bash v.shell (get_command ctx)))
