-- ===== src/Dispatcher.antt =====
-- Validation errors and what a session is poisoned with (internal/dispatcher/dispatcher.go,
-- session_error.go, `toValidationError` of executor.go).
pub mod Executor
pub mod Dispatch
pub mod Poisoning
pub mod Hint
pub mod Release
pub mod Pools
mod Tests
use claude_hooks.Common.{
  ℕ, Bool, true, not, ◌&&◌, List, [], ◌∷◌, ◌++◌, Option, none, some, if◌then◌else◌, any,
}
use claude_hooks.Common.Text.{Text, codes, is_empty, join, trim_prefix}
use claude_hooks.Common.Map.{Map, insert}
use claude_hooks.Session.{SessionInfo, info_poisoned}
use claude_hooks.Validator.{Validator, ValidationResult}
use claude_hooks.Validator.Reference.{code, ref_of}

pub record ValidationError : Type 0 where
  pub validator : Text
  pub message : Text
  pub details : Map Text
  pub should_block : Bool
  pub reference : Text
  pub fix_hint : Text

-- `Error`.
abbrev pub error_string : ValidationError → Text
error_string e =
    if not (is_empty e.message) then e.validator ++ (codes ": " ++ e.message) else e.validator

abbrev pub short_name : Text → Text
short_name name = trim_prefix name (codes "validate-")

abbrev pub to_validation_error : Validator → ValidationResult → ValidationError
to_validation_error v r = record {
  validator = v.validator_name;
  message = r.message;
  details = r.details;
  should_block = r.should_block;
  reference = r.reference;
  fix_hint = r.fix_hint;
}

abbrev pub blocks : ValidationError → Bool
blocks e = e.should_block

-- `ShouldBlock`.
abbrev pub any_blocks : List ValidationError → Bool
any_blocks es = any blocks es

-- The blocking errors and the warnings, each in order.
abbrev pub categorize_errors : List ValidationError → List ValidationError × List ValidationError
categorize_errors [] = ([], [])
categorize_errors (e ∷ es) =
    let (blocking, warnings) = categorize_errors es in
    if e.should_block then (e ∷ blocking, warnings) else (blocking, e ∷ warnings)

unfoldable pub extract_session_poison_codes : List ValidationError → List Text
unfolding code
extract_session_poison_codes [] = []
extract_session_poison_codes (e ∷ es) =
    let rest = extract_session_poison_codes es in
    if e.should_block && not (is_empty e.reference) then code e.reference ∷ rest else rest

-- The message of the first blocking error that has one.
unfoldable pub extract_session_poison_message : List ValidationError → Text
extract_session_poison_message [] = []
extract_session_poison_message (e ∷ es) =
    let rest = extract_session_poison_message es in
    if e.should_block && not (is_empty e.message) then e.message else rest

abbrev pub ref_session_poisoned : Text
ref_session_poisoned = ref_of (codes "SESS001")

-- The codes as an acknowledgement lists them.
unfoldable pub codes_token : List Text → Text
unfolding join
codes_token cs = join (codes ",") cs

abbrev pub token_assignment : List Text → Text
token_assignment cs = codes "KLACK=\"SESS:" ++ (codes_token cs ++ codes "\"")

abbrev pub original_error : Text → Map Text
original_error [] = []
original_error (c ∷ m) = (codes "original_error", codes "Original error: " ++ (c ∷ m)) ∷ []

abbrev pub unpoison_detail : List Text → Text
unpoison_detail cs =
    codes "To unpoison: "
    ++ (token_assignment cs ++ (codes " command  # or comment: # SESS:" ++ codes_token cs))

-- `time_text` is `time.Format` in the local calendar.
unfoldable pub poisoned_error : (ℕ → Text) → SessionInfo → ValidationError
unfolding codes_token join insert
poisoned_error time_text info =
    let at : Text = elim info.poisoned_at [ none ↦ [] | some t ↦ time_text t ] in
    record {
      validator = codes "session-poisoned";
      message =
          codes "Blocked: session poisoned by "
          ++ (join (codes ", ") info.poison_codes ++ (codes " at " ++ at));
      details =
          insert (codes "unpoison") (unpoison_detail info.poison_codes)
            (original_error info.poison_message);
      should_block = true;
      reference = ref_session_poisoned;
      fix_hint =
          codes "Acknowledge violations to unpoison: "
          ++ (token_assignment info.poison_codes ++ codes " your_command");
    }

-- `createPoisonedSessionError`, nil without a poisoned session.
unfoldable pub create_poisoned_session_error :
    (ℕ → Text) → Option SessionInfo → Option ValidationError
unfolding poisoned_error
create_poisoned_session_error time_text none = none
create_poisoned_session_error time_text (some info) =
    if not (info_poisoned info) then none else some (poisoned_error time_text info)
