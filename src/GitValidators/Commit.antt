-- ===== src/GitValidators/Commit.antt =====
-- The validator of git commit (internal/validators/git/commit.go). `read_file` gives the content of
-- the file of a message, or the text of the error.
pub mod Checks
use claude_hooks.Common.{
  ℕ, Bool, true, false, not, ◌&&◌, ◌||◌, List, [], ◌∷◌, ◌++◌, Option, none, some, if◌then◌else◌,
  get_or, length, select,
}
use claude_hooks.Common.Text.{Text, codes, text_eq, is_empty, trim_space, join}
use claude_hooks.Common.Result.{Result, ok, err}
use claude_hooks.Hook.{Context, get_command}
use claude_hooks.Parser.{Command, ParseError, ParseResult, parse_bash}
use claude_hooks.Parser.Git.{GitCommand, GitError, parse_git_command, has_flag, get_flag_value}
use claude_hooks.Validator.{ValidationResult, pass, warn, fail, fail_with_ref, add_detail}
use claude_hooks.Validator.Reference.{ref_of}
use claude_hooks.GitValidators.Templates.{git_commit_flags, git_commit_no_staged}
use claude_hooks.GitValidators.{Setting, rule_result}
use claude_hooks.GitValidators.Branch.{or_default}
use claude_hooks.GitValidators.CommitMessage.{CommitMessageConfig, validate_message}

pub record CommitConfig : Type 0 where
  pub required_flags : List Text
  pub check_staging_area : Option Bool
  pub message_config : CommitMessageConfig

abbrev pub get_required_flags : CommitConfig → List Text
get_required_flags c = or_default c.required_flags (codes "-s" ∷ codes "-S" ∷ [])

-- The long form counts for a short flag.
unfoldable pub has_required : GitCommand → Text → Bool
unfolding has_flag text_eq
has_required g flag =
    if text_eq flag (codes "-s")
    then has_flag g flag || has_flag g (codes "--signoff")
    else if text_eq flag (codes "-S")
    then has_flag g flag || has_flag g (codes "--gpg-sign")
    else has_flag g flag

abbrev pub missing_flags : GitCommand → List Text → List Text
missing_flags g flags = select (λ f. not (has_required g f)) flags

abbrev pub is_add : Result GitError GitCommand → Bool
is_add (err e) = false
is_add (ok g) = text_eq g.subcommand (codes "add")

unfoldable pub has_git_add_in_chain : List Command → Bool
unfolding text_eq parse_git_command
has_git_add_in_chain [] = false
has_git_add_in_chain (c ∷ cs) =
    (text_eq c.name (codes "git") && is_add (parse_git_command c)) || has_git_add_in_chain cs

unfoldable pub should_check_staging : GitCommand → Bool → Bool
unfolding has_flag
should_check_staging g has_add =
    (not (has_flag g (codes "--amend")) && not (has_flag g (codes "--allow-empty"))) && not has_add

unfoldable pub first_value : GitCommand → List Text → Text
unfolding get_flag_value
first_value g [] = []
first_value g (flag ∷ flags) =
    let later = first_value g flags in
    if not (is_empty (get_flag_value g flag)) then get_flag_value g flag else later

abbrev pub count : Option (List Text) → ℕ
count none = 0
count (some files) = length files

module _ (v : Setting) (compile : Text → Option (Text → Option Text)) (analyze : Text → List Text)
    (read_file : Text → Result Text Text) where
  abbrev pub report_missing : GitCommand → List Text → ValidationResult
  report_missing g [] = pass
  report_missing g (f ∷ fs) =
      add_detail (codes "help") (git_commit_flags (join (codes " ") g.args)) (
        fail_with_ref v.suggest (ref_of (codes "GIT010"))
          (codes "Git commit missing required flags: " ++ join (codes " ") (f ∷ fs)))

  unfoldable pub check_flags : CommitConfig → GitCommand → ValidationResult
  unfolding has_required add_detail join
  check_flags c g = report_missing g (missing_flags g (get_required_flags c))

  abbrev pub no_staged : ValidationResult
  no_staged =
      add_detail (codes "help")
        (git_commit_no_staged (count v.git_runner.modified_files)
          (count v.git_runner.untracked_files))
        (fail_with_ref v.suggest (ref_of (codes "GIT003")) (codes "No files staged for commit"))

  abbrev pub staged_result : Option (List Text) → ValidationResult
  staged_result none = pass
  staged_result (some []) = no_staged
  staged_result (some (f ∷ fs)) = pass

  unfoldable pub check_staging_area_of : CommitConfig → GitCommand → ValidationResult
  unfolding has_flag add_detail
  check_staging_area_of c g =
      if not (get_or c.check_staging_area true)
      then pass
      else if (has_flag g (codes "-a") || has_flag g (codes "-A")) || has_flag g (codes "--all")
      then pass
      else if not v.git_runner.is_in_repo
      then pass
      else staged_result v.git_runner.staged_files

  abbrev pub trimmed : Text → Result Text Text → Result Text Text
  trimmed path (err e) =
      err (codes "failed to read commit message file " ++ path ++ codes ": " ++ e)
  trimmed path (ok s) = ok (trim_space s)

  unfoldable pub extract_commit_message : GitCommand → Result Text Text
  unfolding first_value trim_space
  extract_commit_message g =
      let path = first_value g (codes "-F" ∷ codes "--file" ∷ []) in
      let inline = first_value g (codes "-m" ∷ codes "--message" ∷ []) in
      if not (is_empty path)
      then trimmed path (read_file path)
      else if not (is_empty inline)
      then ok (trim_space inline)
      else ok []

  abbrev pub check_message : CommitConfig → Result Text Text → ValidationResult
  check_message c (err e) = fail (codes "Failed to read commit message: " ++ e)
  check_message c (ok message) =
      if is_empty message
      then pass
      else validate_message compile analyze v.suggest c.message_config message

  abbrev pub then_message : CommitConfig → GitCommand → ValidationResult
  then_message c g =
      if not (get_or c.message_config.message_enabled true)
      then pass
      else check_message c (extract_commit_message g)

  -- The first of two checks that fails.
  abbrev pub and_then : ValidationResult → ValidationResult → ValidationResult
  and_then r next = if not r.passed then r else next

  unfoldable pub validate_git_commit : CommitConfig → GitCommand → Bool → ValidationResult
  unfolding check_flags should_check_staging check_staging_area_of extract_commit_message
      validate_message
  validate_git_commit c g has_add = and_then (check_flags c g) (
      if should_check_staging g has_add
      then and_then (check_staging_area_of c g) (then_message c g)
      else then_message c g)

  abbrev pub commit_or_rest :
      CommitConfig → Bool → ValidationResult → Result GitError GitCommand → ValidationResult
  commit_or_rest c has_add rest (err e) = rest
  commit_or_rest c has_add rest (ok g) =
      if not (text_eq g.subcommand (codes "commit")) then rest else validate_git_commit c g has_add

  -- Only the first commit of the line is validated.
  unfoldable pub first_commit : CommitConfig → Bool → List Command → ValidationResult
  unfolding text_eq parse_git_command validate_git_commit
  first_commit c has_add [] = pass
  first_commit c has_add (d ∷ ds) =
      let rest = first_commit c has_add ds in
      if not (text_eq d.name (codes "git"))
      then rest
      else commit_or_rest c has_add rest (parse_git_command d)

  abbrev pub check_parsed : CommitConfig → Result ParseError ParseResult → ValidationResult
  check_parsed c (err e) = warn (codes "Failed to parse command: " ++ v.error_text e)
  check_parsed c (ok r) = first_commit c (has_git_add_in_chain r.commands) r.commands

  unfoldable pub validate_commit : CommitConfig → Context → ValidationResult
  unfolding parse_bash has_git_add_in_chain first_commit
  validate_commit c ctx =
      get_or (rule_result v ctx) (check_parsed c (parse_bash v.shell (get_command ctx)))
