-- ===== src/Exceptions/Policy.antt =====
-- The policy of an error code (internal/exceptions/policy.go). A missing policy is the default one,
-- all of whose fields are nil, so both are `none` here. The request's token is never nil.
use claude_hooks.Common.{
  Bool, true, false, not, ◌&&◌, ◌||◌, List, [], ◌++◌, Option, none, some, if◌then◌else◌, any,
  length, ltb,
}
use claude_hooks.Common.Int.{pos, ltb_ℤ}
use claude_hooks.Common.Text.{
  Text, codes, is_empty, text_eq, has_prefix, trim_space, to_lower, itoa,
}
use claude_hooks.Exceptions.{
  PolicyConfig, ExceptionsConfig, exceptions_enabled, get_policy, is_policy_enabled,
  is_exception_allowed, is_reason_required, get_min_reason_length, get_valid_reasons, Token,
}

pub record PolicyDecision : Type 0 where
  pub allowed : Bool
  pub reason : Text
  pub required_reason : Bool
  pub provided_reason : Text

abbrev pub deny : Text → PolicyDecision
deny why = record { allowed = false; reason = why; required_reason = false; provided_reason = [] }

-- A reason matches an approved one that it begins with, whatever the case.
unfoldable pub is_valid_reason : List Text → Text → Bool
unfolding trim_space to_lower text_eq has_prefix
is_valid_reason valids reason =
    let lowered = to_lower (trim_space reason) in
    any
      (λ valid.
        text_eq lowered (to_lower (trim_space valid))
        || has_prefix lowered (to_lower (trim_space valid)))
      valids

abbrev pub deny_reason : Text → Text → PolicyDecision
deny_reason why given = record {
  allowed = false;
  reason = why;
  required_reason = true;
  provided_reason = given;
}

abbrev pub approve_reason : List Text → Text → PolicyDecision
approve_reason valids given =
    if ltb 0 (length valids) && not (is_valid_reason valids given)
    then deny_reason (codes "reason not in approved list") given
    else record { allowed = true; reason = []; required_reason = true; provided_reason = given }

unfoldable pub validate_reason : Option PolicyConfig → Text → PolicyDecision
unfolding trim_space is_valid_reason itoa
validate_reason p text =
    let given = trim_space text in
    let min_length = get_min_reason_length p in
    if is_empty given
    then deny_reason (codes "reason is required but not provided") []
    else if ltb_ℤ (pos (length given)) min_length
    then deny_reason
        (codes "reason too short (minimum " ++ (itoa min_length ++ codes " characters)")) given
    else approve_reason (get_valid_reasons p) given

abbrev pub allow_by : Option PolicyConfig → Token → PolicyDecision
allow_by p t = record {
  allowed = true;
  reason = codes "policy allows exception for " ++ t.error_code;
  required_reason = is_reason_required p;
  provided_reason = t.reason;
}

abbrev pub decide_reason : Option PolicyConfig → Token → PolicyDecision
decide_reason p t =
    let decision = validate_reason p t.reason in
    if is_reason_required p
    then if not decision.allowed then decision else allow_by p t
    else allow_by p t

-- `Match`.
unfoldable pub match_policy : Option ExceptionsConfig → Token → PolicyDecision
unfolding get_policy validate_reason
match_policy cfg t =
    let p = get_policy cfg t.error_code in
    if not (exceptions_enabled cfg)
    then deny (codes "exception system is disabled")
    else if not (is_policy_enabled p)
    then deny (codes "policy for " ++ (t.error_code ++ codes " is disabled"))
    else if not (is_exception_allowed p)
    then deny (codes "exceptions not allowed for " ++ t.error_code)
    else decide_reason p t

abbrev pub has_explicit_policy : Option ExceptionsConfig → Text → Bool
has_explicit_policy cfg c = elim (get_policy cfg c) [ none ↦ false | some p ↦ true ]
