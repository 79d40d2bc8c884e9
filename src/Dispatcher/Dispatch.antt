-- ===== src/Dispatcher/Dispatch.antt =====
-- The dispatcher (internal/dispatcher/dispatcher.go). The executor is a function; the exception
-- checker is an interface with a state of its own. `IsPoisoned` gives a pointer into the tracker's
-- map, so the session's codes are read from the tracker as it is when they are used.
use claude_hooks.Common.{
  ℕ, Bool, true, false, not, ◌&&◌, List, [], ◌∷◌, ◌++◌, Option, none, some, if◌then◌else◌, ltb,
  length, take,
}
use claude_hooks.Common.Text.{Text, codes, is_empty}
use claude_hooks.Common.Map.{lookup}
use claude_hooks.Common.Result.{Result, ok, err}
use claude_hooks.Hook.{
  Context, pre_tool_use, write, get_command, event_eq, is_bash_tool, has_session_id,
}
use claude_hooks.Shell.{ShellParser}
use claude_hooks.Parser.{FileWrite, ParseResult, ParseError, parse_bash}
use claude_hooks.Session.{SessionInfo, session_enabled}
use claude_hooks.Session.Tracker.{Tracker, is_poisoned, poison, unpoison, record_command}
use claude_hooks.Session.Unpoison.{check_full, contains_unpoison_attempt, source_string}
use claude_hooks.Validator.{Validator}
use claude_hooks.Validator.Registry.{Registry, find_validators}
use claude_hooks.Dispatcher.{
  ValidationError, any_blocks, extract_session_poison_codes, extract_session_poison_message,
  create_poisoned_session_error,
}

-- `ExceptionChecker`: the error to report, nil if it is dropped, and whether it was bypassed.
pub record ExceptionChecker (S : Type 0) : Type 0 where
  pub checker_enabled : Bool
  pub check_exception : Context → ValidationError → S → (Option ValidationError × Bool) × S

-- What a dispatcher is built from. `logs_audit` is false for a nil audit logger and for one that is
-- disabled; `time_text` is the local calendar.
pub record Dispatcher (S : Type 0) : Type 0 where
  pub registry : Registry
  pub execute : Context → List Validator → List ValidationError
  pub exception_checker : Option (ExceptionChecker S)
  pub logs_audit : Bool
  pub shell : ShellParser
  pub time_text : ℕ → Text
  pub working_dir : Text

pub data AuditAction : Type 0 where
  audit_poison audit_unpoison : AuditAction

pub record AuditEntry : Type 0 where
  pub timestamp : ℕ
  pub action : AuditAction
  pub entry_session : Text
  pub entry_codes : List Text
  pub source : Text
  pub command : Text
  pub entry_message : Text
  pub entry_dir : Text

pub record State (S : Type 0) : Type 0 where
  pub tracker : Option Tracker
  pub checker_state : S
  pub audit_log : List AuditEntry

-- The readings of the clock in one dispatch.
pub record Readings : Type 0 where
  pub at_check : ℕ
  pub at_release : ℕ
  pub at_release_log : ℕ
  pub at_end : ℕ
  pub at_end_log : ℕ

-- The command of an audit entry, cut after 500 bytes.
abbrev pub truncate_command : Text → Text
truncate_command s = if ltb 500 (length s) then take 500 s ++ codes "..." else s

-- The source of the token that releases a session with codes `cs`, if the command releases it: an
-- acknowledgement, or an attempt at one whose check gives an error.
unfoldable pub release_source : ShellParser → Text → List Text → Option Text
unfolding check_full contains_unpoison_attempt
release_source sh command cs = if is_empty command then none else elim (check_full sh command cs) [
  | err e ↦ if contains_unpoison_attempt command then some (codes "lenient_fallback") else none
  | ok a ↦ if a.acknowledged then some (source_string a.source) else none
]

-- The codes behind a pointer to the session's entry.
unfoldable pub pointed_codes : Text → Tracker → List Text
unfolding lookup
pointed_codes sid t = elim (lookup sid t.sessions) [ none ↦ [] | some info ↦ info.poison_codes ]

-- `errors = append(errors, modifiedErr)` where it is not nil.
abbrev pub keep_error : Option ValidationError → List ValidationError → List ValidationError
keep_error none es = es
keep_error (some e) es = e ∷ es

-- The Write that a file write of a Bash command stands for; the fields that are not set are empty.
abbrev pub synthetic_context : FileWrite → Context
synthetic_context fw = record {
  event_type = pre_tool_use;
  tool_name = write;
  tool_input = record {
    command = [];
    file_path = fw.path;
    path = [];
    content = fw.content;
    old_string = [];
    new_string = [];
    pattern_text = [];
    additional = [];
  };
  notification_type = [];
  raw_json = [];
  session_id = [];
  tool_use_id = [];
  transcript_path = [];
}

module _ {S : Type 0} where
  unfoldable pub check_all :
      ExceptionChecker S → Context → List ValidationError → S → List ValidationError × S
  check_all c ctx [] s = ([], s)
  check_all c ctx (e ∷ es) s =
      let (found, s1) = c.check_exception ctx e s in
      let (rest, s2) = check_all c ctx es s1 in (keep_error found.0 rest, s2)

  unfoldable pub apply_exception_checking :
      Option (ExceptionChecker S) → Context → List ValidationError → S → List ValidationError × S
  unfolding check_all
  apply_exception_checking none ctx es s = (es, s)
  apply_exception_checking (some c) ctx es s =
      if not c.checker_enabled then (es, s) else check_all c ctx es s

  abbrev pub run_found : Dispatcher S → Context → List Validator → S → List ValidationError × S
  run_found d ctx [] s = ([], s)
  run_found d ctx (v ∷ vs) s =
      apply_exception_checking d.exception_checker ctx (d.execute ctx (v ∷ vs)) s

  unfoldable pub run_validators : Dispatcher S → Context → S → List ValidationError × S
  unfolding find_validators apply_exception_checking
  run_validators d ctx s = run_found d ctx (find_validators ctx d.registry) s

  unfoldable pub validate_writes : Dispatcher S → List FileWrite → S → List ValidationError × S
  unfolding run_validators
  validate_writes d [] s = ([], s)
  validate_writes d (fw ∷ fws) s =
      let (es, s1) = run_validators d (synthetic_context fw) s in
      let (rest, s2) = validate_writes d fws s1 in (es ++ rest, s2)

  abbrev pub validate_parsed :
      Dispatcher S → Result ParseError ParseResult → S → List ValidationError × S
  validate_parsed d (err e) s = ([], s)
  validate_parsed d (ok r) s = validate_writes d r.file_writes s

  unfoldable pub validate_bash_file_writes : Dispatcher S → Context → S → List ValidationError × S
  unfolding validate_writes
  validate_bash_file_writes d ctx s = validate_parsed d (parse_bash d.shell (get_command ctx)) s

  -- The validators on the context and, before a Bash command runs, on its file writes.
  unfoldable pub validate_all : Dispatcher S → Context → S → List ValidationError × S
  unfolding run_validators validate_bash_file_writes
  validate_all d ctx s =
      let (es, s1) = run_validators d ctx s in
      let (synthetic, s2) = validate_bash_file_writes d ctx s1 in
      if event_eq ctx.event_type pre_tool_use && is_bash_tool ctx
      then (es ++ synthetic, s2)
      else (es, s1)

  unfoldable pub log_session_audit_entry :
      Dispatcher S → ℕ → Context → AuditAction → List Text → Text → Text → State S → State S
  log_session_audit_entry d now ctx act cs src msg st = if not d.logs_audit then st else record st {
    audit_log =
        st.audit_log
        ++ (record {
          timestamp = now;
          action = act;
          entry_session = ctx.session_id;
          entry_codes = cs;
          source = src;
          command = truncate_command (get_command ctx);
          entry_message = msg;
          entry_dir = d.working_dir;
        }
            ∷ []);
  }

  -- Unpoisoning comes first, so the codes that are logged are those that it leaves.
  unfoldable pub release : Dispatcher S → Readings → Context → Text → Tracker → State S → State S
  unfolding unpoison pointed_codes log_session_audit_entry
  release d r ctx src t st =
      let t' = unpoison r.at_release ctx.session_id t in
      log_session_audit_entry d r.at_release_log ctx audit_unpoison
        (pointed_codes ctx.session_id t') src [] (record st { tracker = some t' })

  abbrev pub release_by :
      Dispatcher S → Readings → Context → Option Text → Tracker → State S → Bool × State S
  release_by d r ctx none t st = (false, st)
  release_by d r ctx (some src) t st = (true, release d r ctx src t st)

  unfoldable pub check_unpoison_acknowledgment :
      Dispatcher S → Readings → Context → SessionInfo → Tracker → State S → Bool × State S
  unfolding release_source release
  check_unpoison_acknowledgment d r ctx info t st =
      release_by d r ctx (release_source d.shell (get_command ctx) info.poison_codes) t st

  -- A nil error is left out; a poisoned session never gives one.
  abbrev pub fast_fail :
      Dispatcher S → SessionInfo → Bool × State S → Option (List ValidationError) × State S
  fast_fail d info (true, st) = (none, st)
  fast_fail d info (false, st) =
      (some (keep_error (create_poisoned_session_error d.time_text (some info)) []), st)

  abbrev pub gate_poisoned :
      Dispatcher S
      → Readings
      → Context
      → Bool × Option SessionInfo
      → Tracker
      → State S
      → Option (List ValidationError) × State S
  gate_poisoned d r ctx (true, some info) t st =
      fast_fail d info (check_unpoison_acknowledgment d r ctx info t st)
  gate_poisoned d r ctx _ t st = (none, st)

  -- The first part of `Dispatch`: the errors with which it returns at once, if it does.
  unfoldable pub session_gate :
      Dispatcher S
      → Readings
      → Context
      → Option Tracker
      → State S
      → Option (List ValidationError) × State S
  unfolding is_poisoned check_unpoison_acknowledgment create_poisoned_session_error
  session_gate d r ctx none st = (none, st)
  session_gate d r ctx (some t) st =
      if session_enabled t.config && has_session_id ctx
      then gate_poisoned d r ctx (is_poisoned r.at_check ctx.session_id t) t st
      else (none, st)

  abbrev pub poison_session :
      Dispatcher S → Readings → Context → List ValidationError → Tracker → State S → State S
  poison_session d r ctx es t st =
      let cs = extract_session_poison_codes es in
      let message = extract_session_poison_message es in
      log_session_audit_entry d r.at_end_log ctx audit_poison cs [] message
        (record st { tracker = some (poison r.at_end ctx.session_id cs message t) })

  abbrev pub settle_session :
      Dispatcher S → Readings → Context → List ValidationError → Tracker → State S → State S
  settle_session d r ctx es t st =
      if any_blocks es
      then poison_session d r ctx es t st
      else record st { tracker = some (record_command r.at_end ctx.session_id t) }

  -- The last part of `Dispatch`.
  unfoldable pub settle :
      Dispatcher S → Readings → Context → List ValidationError → Option Tracker → State S → State S
  unfolding log_session_audit_entry poison record_command extract_session_poison_codes
      extract_session_poison_message
  settle d r ctx es none st = st
  settle d r ctx es (some t) st =
      if session_enabled t.config && has_session_id ctx then settle_session d r ctx es t st else st

  abbrev pub after_gate :
      Dispatcher S
      → Readings
      → Context
      → Option (List ValidationError) × State S
      → List ValidationError × State S
  after_gate d r ctx (some es, st) = (es, st)
  after_gate d r ctx (none, st) =
      let (es, s) = validate_all d ctx st.checker_state in
      (es, settle d r ctx es st.tracker (record st { checker_state = s }))

  unfoldable pub dispatch :
      Dispatcher S → Readings → Context → State S → List ValidationError × State S
  unfolding session_gate validate_all settle
  dispatch d r ctx st = after_gate d r ctx (session_gate d r ctx st.tracker st)
