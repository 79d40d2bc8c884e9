-- ===== src/Exceptions/Tests.antt =====
-- Tokens, policies and limits at concrete values, and the theorems at them.
use claude_hooks.Common.{
  ℕ, ◌≡◌, ◌↔◌, ◌⊎◌, refl, true, false, List, [], ◌∷◌, Option, none, some, arith,
}
use claude_hooks.Common.Int.{pos, ◌≤ℤ◌}
use claude_hooks.Common.Text.{Text, codes, is_empty}
use claude_hooks.Common.Result.{ok}
use claude_hooks.Hook.{Context, pre_tool_use, bash}
use claude_hooks.Shell.{ShellParser, statement, part, no_parts, lit, dbl_quoted}
use claude_hooks.Validator.Reference.{ref_of}
use claude_hooks.Dispatcher.{ValidationError}
use claude_hooks.Exceptions.{
  RateLimitConfig, exceptions_enabled, get_token_prefix, is_rate_limit_enabled,
}
use claude_hooks.Exceptions.RateLimiter.{RateLimiter, new_rate_limiter, check}
use claude_hooks.Exceptions.RateLimiter.Limits.{
  HasQuota, check_allowed_iff, WithinLimits, attempt, attempt-WithinLimits,
}
use claude_hooks.Exceptions.RateLimiter.Windows.{attempts, hourly_quota}
use claude_hooks.Exceptions.TokenParser.{ParseResult, parse, new_parser, parse_token}
use claude_hooks.Exceptions.TokenParser.Accepts.{parse_token-exception_text}
use claude_hooks.Exceptions.Handler.{Handler, HandlerState, Times, CheckRequest, check_bypass}
use claude_hooks.Exceptions.Handler.Bypass.{Grants, check_bypass_iff}
use claude_hooks.Exceptions.Handler.Bypass.Effects.{check_bypass-WithinLimits}

-- Two exceptions an hour.
abbrev two_per_hour : Option RateLimitConfig
two_per_hour = some (record {
  rate_enabled = none;
  rate_per_hour = some (pos 2);
  rate_per_day = none;
  rate_state_file = [];
})

abbrev fresh : RateLimiter
fresh = new_rate_limiter 100 two_per_hour none

abbrev git022 : Text
git022 = codes "GIT022"

abbrev three_attempts : List (ℕ × ℕ × Text)
three_attempts = (200, 201, git022) ∷ (300, 301, codes "SEC001") ∷ (400, 401, git022) ∷ []

third_denied : (attempts three_attempts fresh).0 ≡ 2
unfolding attempts claude_hooks.Common.Int.◌+ℤ◌
third_denied = refl

check_allowed_iff_example :
    ((check 200 git022 fresh).0.allowed ≡ true)
    ↔ ((is_rate_limit_enabled two_per_hour ≡ false) ⊎ HasQuota fresh 200 git022)
check_allowed_iff_example = check_allowed_iff fresh 200 git022

fresh-WithinLimits : WithinLimits fresh
unfolding claude_hooks.Exceptions.RateLimiter.usage
    claude_hooks.Exceptions.RateLimiter.get_policy_limits
fresh-WithinLimits =
    ((λ p. omega arith), (λ p. omega arith), (λ c p. omega arith), (λ c p. omega arith))

attempt-WithinLimits_example : WithinLimits (attempt 200 201 git022 fresh).1
attempt-WithinLimits_example = attempt-WithinLimits 200 201 git022 fresh refl fresh-WithinLimits

hourly_quota_example : pos ((attempts three_attempts fresh).0) ≤ℤ pos 2
hourly_quota_example =
    hourly_quota 100 two_per_hour none three_attempts refl (omega arith)
      ((refl, refl), ((refl, refl), ((refl, refl), tt)))

parse_token-exception_text_example :
    parse_token (codes "EXC") (codes "EXC:GIT022:hotfix")
    ≡ ok (record {
      prefix = codes "EXC";
      error_code = git022;
      reason = codes "hotfix";
      raw = codes "EXC:GIT022:hotfix";
    })
unfolding claude_hooks.Common.Text.is_space claude_hooks.Shell.is_error_code
parse_token-exception_text_example = parse_token-exception_text git022 (codes "hotfix") refl (
  (refl, refl),
  ((refl, refl), ((refl, refl), ((refl, refl), ((refl, refl), ((refl, refl), tt))))),
)

-- KLACK="EXC:GIT022:hot%20fix" git push
abbrev with_token : ShellParser
with_token s = some (record {
  nodes =
      statement
        (record {
          name = some (codes "KLACK");
          value =
              some
                (part (dbl_quoted (part (lit (codes "EXC:GIT022:hot%20fix")) no_parts)) no_parts);
        }
          ∷ [])
        [] []
      ∷ [];
  last = [];
})

abbrev handler : Handler
handler = record {
  config = none;
  shell = with_token;
  shell_error = λ s. codes "syntax error";
  logs_audit = true;
  working_dir = codes "/w";
}

abbrev at_two_hundred : Times
at_two_hundred = record { at_entry = 199; at_check = 200; at_record = 201 }

abbrev on_command : Text → Context
on_command s = record {
  event_type = pre_tool_use;
  tool_name = bash;
  tool_input = record {
    command = s;
    file_path = [];
    path = [];
    content = [];
    old_string = [];
    new_string = [];
    pattern_text = [];
    additional = [];
  };
  notification_type = [];
  raw_json = [];
  session_id = codes "s1";
  tool_use_id = [];
  transcript_path = [];
}

abbrev request : CheckRequest
request = record {
  context = on_command (codes "x");
  validator_name = codes "validate-push";
  error_code = git022;
  error_message = codes "no";
}

abbrev fresh_state : HandlerState
fresh_state = record { limiter = fresh; audit_log = [] }

bypass : (check_bypass handler at_two_hundred request fresh_state).0.bypassed ≡ true
unfolding check_bypass claude_hooks.Exceptions.Handler.evaluate parse check
    claude_hooks.Exceptions.Policy.match_policy claude_hooks.Exceptions.Handler.log_audit_entry
    claude_hooks.Common.Text.text_eq
bypass = refl

check_bypass_iff_example :
    ((check_bypass handler at_two_hundred request fresh_state).0.bypassed ≡ true) ↔ (
      (exceptions_enabled none ≡ true)
      × (is_empty (codes "x") ≡ false)
      × ((r : ParseResult) × (parse (new_parser with_token (get_token_prefix none)) (codes "x")
            ≡ ok (some r))
          × Grants handler at_two_hundred fresh_state request r))
check_bypass_iff_example = check_bypass_iff handler at_two_hundred fresh_state request

check_bypass-WithinLimits_example :
    WithinLimits (check_bypass handler at_two_hundred request fresh_state).1.limiter
check_bypass-WithinLimits_example =
    check_bypass-WithinLimits handler at_two_hundred request fresh_state refl fresh-WithinLimits

abbrev push_error : ValidationError
push_error = record {
  validator = codes "validate-push";
  message = codes "no";
  details = [];
  should_block = true;
  reference = ref_of git022;
  fix_hint = [];
}
