-- ===== src/GitValidators/Tests.antt =====
-- The validators of git commands on concrete commands.
use claude_hooks.Common.{◌≡◌, refl, Bool, true, false, List, [], ◌∷◌, Option, none, some, map}
use claude_hooks.Common.Text.{Text, codes, text_eq, contains_byte}
use claude_hooks.Common.Result.{Result, ok, err}
use claude_hooks.Parser.{Command, ParseResult, CmdType}
use claude_hooks.Parser.Git.{GitCommand, parse_git_command, start_command}
use claude_hooks.GitValidators.{GitRunner, Setting}
use claude_hooks.GitValidators.Remotes.{PushConfig}
use claude_hooks.GitValidators.NoVerify.{check_commands, no_verify_used}
use claude_hooks.GitValidators.NoVerify.Bypass.{with_args, refused_but_with_directory}
use claude_hooks.GitValidators.Add.{check_parsed, find_blocked_files}
use claude_hooks.Validator.{add_detail}
use claude_hooks.Validator.Reference.{ref_of}
use claude_hooks.GitValidators.Branch.{BranchConfig, extract_branch_name}
use claude_hooks.GitValidators.CommitParser.{TitleParseResult, parse_title, runs}
use claude_hooks.GitValidators.CommitParser.Titles.{title_text, parse_title-title_text}
use claude_hooks.GitValidators.CommitRules.{
  RuleResult, infra_scope_misuse_rule, body_line_length_rule, list_formatting_rule,
}
use claude_hooks.GitValidators.CommitContent.{pr_reference_rule, ai_attribution_rule}
use claude_hooks.GitValidators.CommitMessage.{
  no_message_config, validate_message, select_primary_reference, references,
}
use claude_hooks.GitValidators.CommitMessage.Passing.{Acceptable, validate_message-Acceptable}
use claude_hooks.GitValidators.CommitMessage.Priority.{First, select_primary_reference-First}
use claude_hooks.GitValidators.Commit.{CommitConfig}

abbrev in_repository : GitRunner
in_repository = record {
  is_in_repo = true;
  staged_files = some [];
  modified_files = none;
  untracked_files = none;
  repo_root = some (codes "/r");
  remote_url = λ name. some name;
  current_branch = none;
  branch_remote = λ name. none;
  remotes = none;
}

abbrev test_setting : Setting
test_setting = record {
  suggest = λ r. [];
  shell = λ text. none;
  error_text = λ e. [];
  rule_adapter = none;
  git_runner = in_repository;
  runner_for_path = λ path. in_repository;
}

abbrev git_command : List Text → Command
git_command words = record {
  name = codes "git";
  args = words;
  location = record { line = 1; column = 1 };
  cmd_type = CmdType.simple;
  raw = [];
  working_directory = [];
}

abbrev no_patterns : Text → Option (Text → Option Text)
no_patterns p = none

abbrev no_warnings : Text → List Text
no_warnings body = []

abbrev no_files : Text → Result Text Text
no_files path = err (codes "no such file")

abbrev api_title : TitleParseResult
api_title = record {
  kind = codes "feat";
  scope = codes "api/v2";
  exclamation = true;
  description = codes "add a route";
}

parse_title-title_text_example : parse_title (title_text api_title) ≡ some api_title
unfolding runs contains_byte
parse_title-title_text_example = parse_title-title_text api_title refl refl refl

validate_message-Acceptable_example :
    Acceptable no_patterns no_warnings (λ r. []) no_message_config (codes "feat(api): add a route")
unfolding validate_message infra_scope_misuse_rule body_line_length_rule list_formatting_rule
    pr_reference_rule ai_attribution_rule
validate_message-Acceptable_example =
    validate_message-Acceptable no_patterns no_warnings (λ r. []) no_message_config
      (codes "feat(api): add a route") refl refl

abbrev body_result : RuleResult
body_result = record { errors = codes "e" ∷ []; reference = ref_of (codes "GIT005") }

abbrev title_result : RuleResult
title_result = record { errors = codes "e" ∷ []; reference = ref_of (codes "GIT004") }

select_primary_reference-First_example :
    First
      (select_primary_reference (body_result ∷ title_result ∷ []))
      (references (body_result ∷ title_result ∷ []))
select_primary_reference-First_example =
    select_primary_reference-First body_result (title_result ∷ [])

abbrev default_commit : CommitConfig
default_commit = record {
  required_flags = [];
  check_staging_area = none;
  message_config = no_message_config;
}

abbrev commit_of : List Text → GitCommand
commit_of fs = record (start_command (codes "commit") [] []) { flags = fs }

abbrev bare_commit : GitCommand
bare_commit = start_command (codes "commit") [] []

abbrev default_branch : BranchConfig
default_branch = record {
  protected_branches = [];
  valid_types = [];
  require_type = none;
  allow_uppercase = none;
}

abbrev no_upstream : PushConfig
no_upstream = record { blocked_remotes = codes "upstream" ∷ []; allowed_remote_priority = [] }

abbrev push_of : Text → GitCommand
push_of remote = record (start_command (codes "push") [] []) { args = remote ∷ [] }

refused_but_with_directory_example :
    ((check_commands test_setting
        (with_args (git_command []) (codes "commit" ∷ codes "--no-verify" ∷ []) ∷ [])).passed
      ≡ false)
    × ((check_commands test_setting (
          with_args
            (git_command [])
            (codes "-C" ∷ (codes "." ∷ (codes "commit" ∷ codes "--no-verify" ∷ [])))
          ∷ [])).passed
        ≡ true)
unfolding parse_git_command no_verify_used text_eq
refused_but_with_directory_example =
    refused_but_with_directory test_setting (git_command []) (codes ".") (codes "--no-verify" ∷ [])
      refl refl

abbrev no_match : Text → Text → Option Bool
no_match pattern file = some false

abbrev adding : ParseResult
adding = record {
  commands = git_command (codes "add" ∷ codes "./tmp/x" ∷ []) ∷ [];
  file_writes = [];
  git_operations = [];
}

-- A file below tmp is refused, whatever its name is matched with.
adding_refused : (check_parsed no_match test_setting [] (ok adding)).passed ≡ false
unfolding find_blocked_files add_detail
adding_refused = refl

abbrev branch_name_of : List Text → Option Text
branch_name_of words = elim (parse_git_command (git_command words)) [
  | err e ↦ none
  | ok g ↦ some (extract_branch_name g)
]

-- The flag after -b is taken for the name of the branch.
flag_for_name :
    branch_name_of (map codes ("checkout" ∷ "-b" ∷ "feat/x" ∷ "--track" ∷ []))
    ≡ some (codes "--track")
unfolding parse_git_command extract_branch_name
flag_for_name = refl

-- The name after -C is not read.
no_name : branch_name_of (map codes ("switch" ∷ "-C" ∷ "Any Name" ∷ [])) ≡ some []
unfolding parse_git_command extract_branch_name
no_name = refl
