-- ===== src/Exceptions/Handler.antt =====
-- The exception handler with its engine (internal/exceptions/handler.go, engine.go), and the
-- checker that the dispatcher calls (internal/dispatcher/exception.go).
pub mod Bypass
use claude_hooks.Common.{
  ℕ, Bool, true, false, not, List, [], ◌∷◌, ◌++◌, Option, none, some, if◌then◌else◌, ltb, length,
  take,
}
use claude_hooks.Common.Text.{Text, codes, is_empty, text_eq}
use claude_hooks.Common.Result.{Result, ok, err}
use claude_hooks.Hook.{Context, get_command}
use claude_hooks.Shell.{ShellParser}
use claude_hooks.Validator.Reference.{extract_error_code}
use claude_hooks.Dispatcher.{ValidationError}
use claude_hooks.Dispatcher.Dispatch.{ExceptionChecker}
use claude_hooks.Exceptions.{
  ExceptionsConfig, exceptions_enabled, get_token_prefix, Token, source_string, AuditEntry,
}
use claude_hooks.Exceptions.Policy.{PolicyDecision, match_policy}
use claude_hooks.Exceptions.RateLimiter.{RateLimiter, CheckResult, check, record_usage}
use claude_hooks.Exceptions.TokenParser.{TokenError, empty_command, ParseResult, parse, new_parser}

-- What a handler is built from. `shell_error` is the text of the shell parser's error, `logs_audit`
-- says whether audit logging is enabled.
pub record Handler : Type 0 where
  pub config : Option ExceptionsConfig
  pub shell : ShellParser
  pub shell_error : Text → Text
  pub logs_audit : Bool
  pub working_dir : Text

pub record HandlerState : Type 0 where
  pub limiter : RateLimiter
  pub audit_log : List AuditEntry

-- The readings of the clock in one check.
pub record Times : Type 0 where
  pub at_entry : ℕ
  pub at_check : ℕ
  pub at_record : ℕ

-- The command of an audit entry, cut after 200 bytes.
abbrev pub truncate_command : Text → Text
truncate_command s = if not (ltb 200 (length s)) then s else take 200 s ++ codes "..."

-- `ExceptionResult`: an allowed one always has its audit entry.
pub data ExceptionResult : Type 0 where
  denied : Text → Option AuditEntry → ExceptionResult
  granted : Text → AuditEntry → ExceptionResult

-- `EvaluateRequest`; the working directory is the handler's.
pub record EvaluateRequest : Type 0 where
  pub command : Text
  pub validator_name : Text
  pub error_code : Text

abbrev pub audit_entry : Handler → ℕ → EvaluateRequest → ParseResult → PolicyDecision → AuditEntry
audit_entry h now req r decision = record {
  timestamp = now;
  entry_code = r.token.error_code;
  validator_name = req.validator_name;
  allowed = decision.allowed;
  entry_reason = r.token.reason;
  denial_reason = if not decision.allowed then decision.reason else [];
  source = source_string r.source;
  command = truncate_command req.command;
  working_dir = h.working_dir;
  repository = h.working_dir;
}

abbrev pub decide : Handler → ℕ → EvaluateRequest → ParseResult → PolicyDecision → ExceptionResult
decide h now req r decision =
    if decision.allowed
    then granted decision.reason (audit_entry h now req r decision)
    else denied decision.reason (some (audit_entry h now req r decision))

abbrev pub token_error_text : Handler → Text → TokenError → Text
token_error_text h command empty_command = codes "empty command"
token_error_text h command _ = h.shell_error command ++ codes ": failed to parse command"

-- The token's code has to be the one that the validator gave, if it gave one.
abbrev pub matches_code : Text → Token → Bool
matches_code c t = if not (is_empty c) then text_eq t.error_code c else true

abbrev pub evaluate_parsed :
    Handler → ℕ → EvaluateRequest → Result TokenError (Option ParseResult) → ExceptionResult
evaluate_parsed h now req (err e) =
    denied (codes "failed to parse command: " ++ token_error_text h req.command e) none
evaluate_parsed h now req (ok none) = denied (codes "no exception token found") none
evaluate_parsed h now req (ok (some r)) =
    if not (matches_code req.error_code r.token)
    then denied
        (codes "token error code "
          ++ (r.token.error_code ++ (codes " does not match expected " ++ req.error_code)))
        none
    else decide h now req r (match_policy h.config r.token)

-- `Engine.Evaluate`.
unfoldable pub evaluate : Handler → ℕ → EvaluateRequest → ExceptionResult
evaluate h now req =
    if not (exceptions_enabled h.config)
    then denied (codes "exception system is disabled") none
    else evaluate_parsed h now req
        (parse (new_parser h.shell (get_token_prefix h.config)) req.command)

pub record CheckRequest : Type 0 where
  pub context : Context
  pub validator_name : Text
  pub error_code : Text
  pub error_message : Text

pub record CheckResponse : Type 0 where
  pub bypassed : Bool
  pub reason : Text
  pub error_code : Text
  pub token_reason : Text
  pub rate_limit_info : Option CheckResult

abbrev pub refuse : Text → Text → Option CheckResult → CheckResponse
refuse why c info = record {
  bypassed = false;
  reason = why;
  error_code = c;
  token_reason = [];
  rate_limit_info = info;
}

unfoldable pub log_audit_entry : Handler → Option AuditEntry → HandlerState → HandlerState
log_audit_entry h none st = st
log_audit_entry h (some e) st =
    if not h.logs_audit then st else record st { audit_log = st.audit_log ++ (e ∷ []) }

abbrev pub handle_rate_limit_denial :
    Handler → AuditEntry → CheckResult → HandlerState → CheckResponse × HandlerState
handle_rate_limit_denial h e result st = (
  refuse result.reason e.entry_code (some result),
  log_audit_entry h (some (record e { allowed = false; denial_reason = result.reason })) st,
)

abbrev pub handle_allowed_exception :
    Handler → Times → AuditEntry → CheckResult → HandlerState → CheckResponse × HandlerState
handle_allowed_exception h t e result st = (
  record {
    bypassed = true;
    reason = codes "exception allowed";
    error_code = e.entry_code;
    token_reason = e.entry_reason;
    rate_limit_info = some result;
  },
  log_audit_entry h (some e)
      (record st { limiter = record_usage t.at_record e.entry_code st.limiter }),
)

abbrev pub check_rate :
    Handler
    → Times
    → AuditEntry
    → CheckResult × RateLimiter
    → HandlerState
    → CheckResponse × HandlerState
check_rate h t e (result, limiter) st =
    if not result.allowed
    then handle_rate_limit_denial h e result (record st { limiter = limiter })
    else handle_allowed_exception h t e result (record st { limiter = limiter })

abbrev pub handle_evaluated :
    Handler → Times → Text → ExceptionResult → HandlerState → CheckResponse × HandlerState
handle_evaluated h t c (denied why entry) st = (refuse why c none, log_audit_entry h entry st)
handle_evaluated h t c (granted why e) st =
    check_rate h t e (check t.at_check e.entry_code st.limiter) st

abbrev pub evaluate_request : CheckRequest → EvaluateRequest
evaluate_request req = record {
  command = get_command req.context;
  validator_name = req.validator_name;
  error_code = req.error_code;
}

-- `Handler.Check`.
unfoldable pub check_bypass :
    Handler → Times → CheckRequest → HandlerState → CheckResponse × HandlerState
check_bypass h t req st =
    if not (exceptions_enabled h.config)
    then (refuse (codes "exception system is disabled") [] none, st)
    else if is_empty (get_command req.context)
    then (refuse (codes "no command to parse") [] none, st)
    else handle_evaluated h t req.error_code (evaluate h t.at_entry (evaluate_request req)) st

-- `formatBypassedMessage`.
abbrev pub format_bypassed_message : Text → Text → Text
format_bypassed_message msg why =
    if not (is_empty why)
    then msg ++ (codes " [BYPASSED: " ++ (why ++ codes "]"))
    else msg ++ codes " [BYPASSED]"

-- The error as a warning.
abbrev pub bypassed_error : ValidationError → CheckResponse → ValidationError
bypassed_error e resp = record e {
  message = format_bypassed_message e.message resp.token_reason;
  should_block = false;
}

abbrev pub check_request : Context → ValidationError → Text → CheckRequest
check_request ctx e c = record {
  context = ctx;
  validator_name = e.validator;
  error_code = c;
  error_message = e.message;
}

abbrev pub apply_response :
    ValidationError → CheckResponse × HandlerState → (Option ValidationError × Bool) × HandlerState
apply_response e (resp, st) =
    if not resp.bypassed then ((some e, false), st) else ((some (bypassed_error e resp), true), st)

-- `DefaultExceptionChecker.CheckException`.
unfoldable pub check_exception :
    Handler
    → Times
    → Context
    → ValidationError
    → HandlerState
    → (Option ValidationError × Bool) × HandlerState
check_exception h t ctx e st =
    let c = extract_error_code e.reference in
    if not (exceptions_enabled h.config)
    then ((some e, false), st)
    else if not e.should_block
    then ((some e, false), st)
    else if is_empty c
    then ((some e, false), st)
    else apply_response e (check_bypass h t (check_request ctx e c) st)

-- The checker that a dispatcher is built with.
abbrev pub exception_checker : Handler → Times → ExceptionChecker HandlerState
exception_checker h t = record {
  checker_enabled = exceptions_enabled h.config;
  check_exception = check_exception h t;
}
