-- ===== src/Dispatcher/Tests.antt =====
-- Dispatches at concrete contexts, and the theorems at them.
use claude_hooks.Common.{
  ◌≤◌, ◌≡◌, ◌↔◌, refl, Bool, true, false, List, [], ◌∷◌, ◌++◌, Option, none, some, arith, is_some,
}
use claude_hooks.Common.Int.{pos}
use claude_hooks.Common.Text.{Text, codes}
use claude_hooks.Hook.{Context, pre_tool_use, bash}
use claude_hooks.Shell.{ShellParser, statement}
use claude_hooks.Session.{SessionInfo, SessionConfig, poisoned}
use claude_hooks.Session.Tracker.{Tracker}
use claude_hooks.Validator.{Validator, Category, cpu, io, git, fail, pass, fail_with_ref}
use claude_hooks.Validator.Reference.{ref_of}
use claude_hooks.Validator.Registry.{always}
use claude_hooks.Dispatcher.{
  ValidationError, any_blocks, token_assignment, extract_session_poison_codes,
}
use claude_hooks.Dispatcher.Executor.{failures, execute_sequential}
use claude_hooks.Dispatcher.Dispatch.{
  Dispatcher, AuditEntry, State, Readings, dispatch, release, release_source,
}
use claude_hooks.Dispatcher.Poisoning.{held_poisoned, blocked_iff_poisoned}
use claude_hooks.Dispatcher.Hint.{file_with_token}
use claude_hooks.Dispatcher.Release.{
  unreferenced-released, Releases, release_source_iff, release-logs_no_codes,
}
use claude_hooks.Dispatcher.Pools.{
  Slots, slots, Workers, Steps, done, next, acquire, finish, here, there, start, IsDone, all_done,
}
use claude_hooks.Dispatcher.Pools.Results.{tally, same_errors, running_in, pool_bound}
use claude_hooks.Dispatcher.Pools.Completion.{completes}

abbrev on_command : Text → Context
on_command s = record {
  event_type = pre_tool_use;
  tool_name = bash;
  tool_input = record {
    command = s;
    file_path = [];
    path = [];
    content = [];
    old_string = [];
    new_string = [];
    pattern_text = [];
    additional = [];
  };
  notification_type = [];
  raw_json = [];
  session_id = codes "s1";
  tool_use_id = [];
  transcript_path = [];
}

-- Two validators that fail, one of them with a reference, and one that passes.
abbrev commit_validator : Validator
commit_validator = record {
  validator_name = codes "validate-commit";
  validate = λ c. fail_with_ref (λ ref. codes "use -s") (ref_of (codes "GIT001")) (codes "no -s");
  category = git;
}

abbrev push_validator : Validator
push_validator = record {
  validator_name = codes "validate-push";
  validate = λ c. fail (codes "no");
  category = git;
}

abbrev quiet_validator : Validator
quiet_validator = record {
  validator_name = codes "validate-file";
  validate = λ c. pass;
  category = cpu;
}

abbrev three : List Validator
three = commit_validator ∷ quiet_validator ∷ push_validator ∷ []

abbrev small : Slots
small = record { cpu_slots = 1; io_slots = 1; git_slots = 1 }

abbrev two : List Validator
two = commit_validator ∷ push_validator ∷ []

-- The second validator runs first: its error comes first.
abbrev push_first : List ValidationError
push_first =
    failures (on_command []) (push_validator ∷ [])
    ++ failures (on_command []) (commit_validator ∷ [])

abbrev any_error : ValidationError → Bool
any_error e = true

same_errors_example :
    tally any_error push_first
    ≡ tally any_error (execute_sequential (λ _. false) (on_command []) two)
same_errors_example =
    same_errors (on_command []) small two push_first
      (all_done
        (next (acquire (there here) refl)
          (next (finish here) (next (acquire here refl) (next (finish here) done))))
        (refl, refl))
      any_error

pool_bound_example :
    let w : Workers = record {
      waiting = quiet_validator ∷ push_validator ∷ [];
      running = commit_validator ∷ [];
      results = [];
      free = record { cpu_slots = 1; io_slots = 1; git_slots = 0 };
    } in
    (running_in git w ≤ slots git small) × (w.running ≡ [] → slots git w.free ≡ slots git small)
pool_bound_example =
    pool_bound (on_command []) false small three _ git (next (acquire here refl) done)

abbrev one_finished : Workers
one_finished = record {
  waiting = push_validator ∷ [];
  running = [];
  results = failures (on_command []) (commit_validator ∷ []);
  free = small;
}

small_positive : (c : Category) → 1 ≤ slots c small
small_positive cpu = omega arith
small_positive io = omega arith
small_positive git = omega arith

completes_example : (w' : Workers) × Steps (on_command []) false (start small three) w' × IsDone w'
completes_example =
    completes (on_command []) false small three small_positive (start small three) done

-- A shell in which every text is one call without words.
abbrev plain_shell : ShellParser
plain_shell s = some (record { nodes = statement [] [] [] ∷ []; last = [] })

abbrev committing : Dispatcher Unit
committing = record {
  registry = record { validator = commit_validator; predicate = always } ∷ [];
  execute = execute_sequential (λ _. false);
  exception_checker = none;
  logs_audit = true;
  shell = plain_shell;
  time_text = λ t. codes "noon";
  working_dir = codes "/w";
}

abbrev enabled_config : Option SessionConfig
enabled_config = some (record { enabled = some true; state_file = []; max_session_age = pos 1000 })

abbrev tracker_with : List (Text × SessionInfo) → Tracker
tracker_with m = record {
  sessions = m;
  last_updated = 0;
  config = enabled_config;
  state_file = [];
  max_session_age = pos 1000;
}

abbrev state_of : Tracker → State Unit
state_of t = record { tracker = some t; checker_state = tt; audit_log = [] }

abbrev clock : Readings
clock = record { at_check = 10; at_release = 11; at_release_log = 12; at_end = 13; at_end_log = 14 }

abbrev poisoned_info : SessionInfo
poisoned_info = record {
  session_id = codes "s1";
  status = poisoned;
  poisoned_at = some 5;
  poison_codes = codes "GIT001" ∷ [];
  poison_message = codes "no -s";
  command_count = 1;
  last_activity = 5;
}

abbrev poisoned_tracker : Tracker
poisoned_tracker = tracker_with ((codes "s1", poisoned_info) ∷ [])

blocks_first :
    any_blocks (dispatch committing clock (on_command (codes "x")) (state_of (tracker_with []))).0
    ≡ true
unfolding dispatch execute_sequential
blocks_first = refl

blocked_iff_poisoned_example :
    held_poisoned
      (codes "s1")
      (dispatch committing clock (on_command (codes "x")) (state_of (tracker_with []))).1.tracker
    ≡ any_blocks (dispatch committing clock (on_command (codes "x")) (state_of (tracker_with []))).0
blocked_iff_poisoned_example =
    blocked_iff_poisoned committing clock (on_command (codes "x")) refl (omega arith)
      (tracker_with []) (state_of (tracker_with [])) refl refl

release-logs_no_codes_example :
    (e : AuditEntry) × ((release committing clock
        (on_command (codes "x"))
        (codes "env_var")
        poisoned_tracker
        (state_of poisoned_tracker)).audit_log
      ≡ e ∷ [])
    × (e.entry_session ≡ codes "s1")
    × (e.source ≡ codes "env_var")
    × (e.entry_codes ≡ [])
release-logs_no_codes_example =
    release-logs_no_codes committing clock (on_command (codes "x")) refl (codes "env_var")
      poisoned_tracker (state_of poisoned_tracker) refl

release_source_iff_example :
    (is_some (release_source plain_shell (codes "ls") (codes "GIT001" ∷ [])) ≡ true)
    ↔ Releases plain_shell (codes "ls") (codes "GIT001") []
release_source_iff_example = release_source_iff plain_shell (codes "ls") (codes "GIT001") [] refl

abbrev unreferenced_error : ValidationError
unreferenced_error = record {
  validator = codes "validate-push";
  message = codes "no";
  details = [];
  should_block = true;
  reference = [];
  fix_hint = [];
}

unreferenced-released_example :
    release_source plain_shell (codes "ls") (extract_session_poison_codes (unreferenced_error ∷ []))
    ≡ some (codes "env_var")
unreferenced-released_example =
    unreferenced-released plain_shell (codes "ls") (unreferenced_error ∷ []) (refl, tt) refl

-- What the hint tells to write in front of a command.
abbrev hinted : Text
hinted = token_assignment (codes "GIT001" ∷ codes "SHELL01" ∷ []) ++ codes " git status"

abbrev hint_parser : ShellParser
hint_parser s = some (file_with_token (codes "GIT001" ∷ codes "SHELL01" ∷ []) [] [] [] [] [])
