-- ===== src/GitValidators/Add.antt =====
-- The validator of git add (internal/validators/git/add.go). `path_match` stands for filepath.Match:
-- `none` is an invalid pattern.
pub mod Blocked
use claude_hooks.Common.{
  Bool, true, false, not, ◌&&◌, ◌||◌, List, [], ◌∷◌, ◌++◌, Option, none, some, if◌then◌else◌,
  get_or, select, drop, length, ◌-◌, leb, take,
}
use claude_hooks.Common.Text.{Text, codes, text_eq, is_empty, has_prefix, trim_space}
use claude_hooks.Common.Paths.{clean}
use claude_hooks.Common.Result.{Result, ok, err}
use claude_hooks.Hook.{Context, get_command}
use claude_hooks.Parser.{Command, ParseError, ParseResult, parse_bash}
use claude_hooks.Validator.{ValidationResult, pass, warn, fail_with_ref, add_detail}
use claude_hooks.Validator.Reference.{ref_of}
use claude_hooks.GitValidators.Templates.{git_add_tmp_files}
use claude_hooks.GitValidators.{Setting, no_args, starts_with_word, rule_result}

-- `skip_next` says that the flag before takes the argument as its value.
unfoldable pub extract_from : Bool → List Text → List Text
unfolding trim_space text_eq has_prefix clean
extract_from skip_next [] = []
extract_from skip_next (a ∷ rest) =
    let skipped = extract_from false rest in
    let after_flag = extract_from (text_eq a (codes "--chmod")) rest in
    if skip_next
    then skipped
    else if is_empty a || is_empty (trim_space a)
    then skipped
    else if has_prefix a (codes "-")
    then after_flag
    else if text_eq a (codes ".")
    then skipped
    else clean a ∷ skipped

unfoldable pub extract_file_paths : List Text → List Text
unfolding extract_from
extract_file_paths args = extract_from false args

abbrev pub is_git_add_command : Command → Bool
is_git_add_command c = text_eq c.name (codes "git") && starts_with_word (codes "add") c.args

-- `strings.TrimSuffix`.
unfoldable pub trim_suffix : Text → Text → Text
unfolding text_eq
trim_suffix s suffix =
    let kept = length s - length suffix in
    if leb (length suffix) (length s) && text_eq (drop kept s) suffix then take kept s else s

unfoldable pub pattern_prefix : Text → Text
unfolding trim_suffix
pattern_prefix p = trim_suffix (trim_suffix p (codes "/*")) (codes "/**")

abbrev pub below_prefix : Text → Text → Bool
below_prefix file p =
    has_prefix file (pattern_prefix p ++ codes "/") || text_eq file (pattern_prefix p)

module _ (path_match : Text → Text → Option Bool) where
  unfoldable pub is_file_blocked : Text → List Text → Bool
  unfolding has_prefix pattern_prefix text_eq
  is_file_blocked file [] = false
  is_file_blocked file (p ∷ ps) =
      let rest = is_file_blocked file ps in
      elim (path_match p file) [
        | none ↦ rest
        | some matched ↦ if matched then true else if below_prefix file p then true else rest
      ]

  abbrev pub check_files_against_patterns : List Text → List Text → List Text
  check_files_against_patterns files patterns = select (λ f. is_file_blocked f patterns) files

  unfoldable pub find_blocked_files : List Command → List Text → List Text
  unfolding text_eq extract_file_paths is_file_blocked
  find_blocked_files [] patterns = []
  find_blocked_files (c ∷ cs) patterns =
      let rest = find_blocked_files cs patterns in
      if not (is_git_add_command c)
      then rest
      else check_files_against_patterns (extract_file_paths (drop 1 c.args)) patterns ++ rest

  abbrev pub get_blocked_patterns : List Text → List Text
  get_blocked_patterns configured = if no_args configured then codes "tmp/*" ∷ [] else configured

  abbrev pub report_blocked : Setting → List Text → ValidationResult
  report_blocked v [] = pass
  report_blocked v (f ∷ fs) =
      add_detail (codes "help") (git_add_tmp_files (f ∷ fs)) (
        fail_with_ref v.suggest (ref_of (codes "GIT019")) (codes "Attempting to add blocked files"))

  abbrev pub check_parsed : Setting → List Text → Result ParseError ParseResult → ValidationResult
  check_parsed v configured (err e) = warn (codes "Failed to parse command: " ++ v.error_text e)
  check_parsed v configured (ok r) =
      report_blocked v (find_blocked_files r.commands (get_blocked_patterns configured))

  -- `configured` are the patterns of the configuration, if there is one.
  unfoldable pub validate_add : Setting → List Text → Context → ValidationResult
  unfolding parse_bash find_blocked_files add_detail
  validate_add v configured ctx = get_or (rule_result v ctx) (
      if not v.git_runner.is_in_repo then pass else elim v.git_runner.repo_root [
        | none ↦ pass
        | some root ↦ check_parsed v configured (parse_bash v.shell (get_command ctx))
      ])
