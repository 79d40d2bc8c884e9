-- ===== src/Exceptions.antt =====
-- The configuration of the exception workflow and its types (pkg/config/exceptions.go,
-- internal/exceptions/types.go). A nil pointer is `none`.
pub mod RateLimiter
pub mod Policy
pub mod TokenParser
pub mod Handler
mod Tests
use claude_hooks.Common.{ℕ, Bool, true, false, List, [], Option, none, some, if◌then◌else◌, get_or}
use claude_hooks.Common.Int.{ℤ, pos}
use claude_hooks.Common.Text.{Text, codes, is_empty}
use claude_hooks.Common.Map.{Map, lookup}

pub record PolicyConfig : Type 0 where
  pub policy_enabled : Option Bool
  pub allow_exception : Option Bool
  pub require_reason : Option Bool
  pub min_reason_length : Option ℤ
  pub valid_reasons : List Text
  pub policy_per_hour : Option ℤ
  pub policy_per_day : Option ℤ

pub record RateLimitConfig : Type 0 where
  pub rate_enabled : Option Bool
  pub rate_per_hour : Option ℤ
  pub rate_per_day : Option ℤ
  pub rate_state_file : Text

-- The map holds pointers to policies, which may be nil too.
pub record ExceptionsConfig : Type 0 where
  pub enabled : Option Bool
  pub policies : Map (Option PolicyConfig)
  pub rate_limit : Option RateLimitConfig
  pub token_prefix : Text

abbrev pub exceptions_enabled : Option ExceptionsConfig → Bool
exceptions_enabled none = true
exceptions_enabled (some c) = get_or c.enabled true

abbrev pub get_token_prefix : Option ExceptionsConfig → Text
get_token_prefix none = codes "EXC"
get_token_prefix (some c) = if is_empty c.token_prefix then codes "EXC" else c.token_prefix

-- Reading a missing key of the map gives nil.
unfoldable pub get_policy : Option ExceptionsConfig → Text → Option PolicyConfig
unfolding lookup
get_policy none c = none
get_policy (some cfg) c = get_or (lookup c cfg.policies) none

abbrev pub is_policy_enabled : Option PolicyConfig → Bool
is_policy_enabled none = true
is_policy_enabled (some p) = get_or p.policy_enabled true

abbrev pub is_exception_allowed : Option PolicyConfig → Bool
is_exception_allowed none = true
is_exception_allowed (some p) = get_or p.allow_exception true

abbrev pub is_reason_required : Option PolicyConfig → Bool
is_reason_required none = false
is_reason_required (some p) = get_or p.require_reason false

abbrev pub get_min_reason_length : Option PolicyConfig → ℤ
get_min_reason_length none = pos 10
get_min_reason_length (some p) = get_or p.min_reason_length (pos 10)

abbrev pub get_valid_reasons : Option PolicyConfig → List Text
get_valid_reasons none = []
get_valid_reasons (some p) = p.valid_reasons

abbrev pub policy_max_per_hour : Option PolicyConfig → ℤ
policy_max_per_hour none = pos 0
policy_max_per_hour (some p) = get_or p.policy_per_hour (pos 0)

abbrev pub policy_max_per_day : Option PolicyConfig → ℤ
policy_max_per_day none = pos 0
policy_max_per_day (some p) = get_or p.policy_per_day (pos 0)

abbrev pub is_rate_limit_enabled : Option RateLimitConfig → Bool
is_rate_limit_enabled none = true
is_rate_limit_enabled (some r) = get_or r.rate_enabled true

abbrev pub global_max_per_hour : Option RateLimitConfig → ℤ
global_max_per_hour none = pos 10
global_max_per_hour (some r) = get_or r.rate_per_hour (pos 10)

abbrev pub global_max_per_day : Option RateLimitConfig → ℤ
global_max_per_day none = pos 50
global_max_per_day (some r) = get_or r.rate_per_day (pos 50)

abbrev pub get_rate_state_file : Option RateLimitConfig → Text
get_rate_state_file none = codes "~/.klaudiush/exception_state.json"
get_rate_state_file (some r) =
    if is_empty r.rate_state_file
    then codes "~/.klaudiush/exception_state.json"
    else r.rate_state_file

-- An acknowledgement token, EXC:CODE:REASON.
pub record Token : Type 0 where
  pub prefix : Text
  pub error_code : Text
  pub reason : Text
  pub raw : Text

pub data TokenSource : Type 0 where
  unknown_source comment env_var : TokenSource

abbrev pub source_string : TokenSource → Text
source_string comment = codes "comment"
source_string env_var = codes "env_var"
source_string unknown_source = codes "unknown"

pub record AuditEntry : Type 0 where
  pub timestamp : ℕ
  pub entry_code : Text
  pub validator_name : Text
  pub allowed : Bool
  pub entry_reason : Text
  pub denial_reason : Text
  pub source : Text
  pub command : Text
  pub working_dir : Text
  pub repository : Text
