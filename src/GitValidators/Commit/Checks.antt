-- ===== src/GitValidators/Commit/Checks.antt =====
-- What the validator of git commit asks for, and of which commits (internal/validators/git/commit.go).
use claude_hooks.Common.{
  Bool, true, false, not, ◌||◌, List, Option, none, some, if◌then◌else◌, get_or,
}
use claude_hooks.Common.Text.{Text, codes, text_eq, is_empty}
use claude_hooks.Common.Result.{Result, ok, err}
use claude_hooks.Parser.{Command}
use claude_hooks.Parser.Git.{GitCommand, GitError, parse_git_command, has_flag}
use claude_hooks.Validator.{ValidationResult}
use claude_hooks.GitValidators.{Setting, no_args}
use claude_hooks.GitValidators.CommitMessage.{validate_message}
use claude_hooks.GitValidators.Commit.{
  CommitConfig, check_staging_area_of, extract_commit_message, then_message, and_then,
}

-- No commit command: no git, no parse, or another subcommand.
abbrev pub other_subcommand : Result GitError GitCommand → Bool
other_subcommand (err e) = true
other_subcommand (ok g) = not (text_eq g.subcommand (codes "commit"))

abbrev pub is_other : Command → Bool
is_other d = not (text_eq d.name (codes "git")) || other_subcommand (parse_git_command d)

module _ (v : Setting) (compile : Text → Option (Text → Option Text)) (analyze : Text → List Text)
    (read_file : Text → Result Text Text) where
  module _ (c : CommitConfig) (g : GitCommand) where
    -- Some file is staged, or it cannot be told.
    abbrev pub has_staged : Option (List Text) → Bool
    has_staged none = true
    has_staged (some files) = not (no_args files)

    abbrev pub staging_fine : Bool
    staging_fine =
        not (get_or c.check_staging_area true)
        || (((has_flag g (codes "-a") || has_flag g (codes "-A")) || has_flag g (codes "--all"))
            || (not v.git_runner.is_in_repo || has_staged v.git_runner.staged_files))

    -- A message is read that passes, or none is given.
    abbrev pub text_fine : Result Text Text → Bool
    text_fine (err e) = false
    text_fine (ok message) =
        is_empty message
        || (validate_message compile analyze v.suggest c.message_config message).passed

    abbrev pub message_fine : Bool
    message_fine =
        not (get_or c.message_config.message_enabled true)
        || text_fine (extract_commit_message v compile analyze read_file g)

    abbrev after_flags : Bool → ValidationResult
    after_flags b =
        if b
        then and_then v compile analyze read_file
            (check_staging_area_of v compile analyze read_file c g)
            (then_message v compile analyze read_file c g)
        else then_message v compile analyze read_file c g
