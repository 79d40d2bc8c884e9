-- ===== src/Exceptions/Handler/Bypass.antt =====
-- When a validation error is bypassed, and what a bypass leaves behind
-- (internal/exceptions/handler.go, engine.go, internal/dispatcher/exception.go).
pub mod Effects
use claude_hooks.Common.{
  ◌≡◌, ◌≢◌, ◌↔◌, ◌⊎◌, refl, sym, ◌∙◌, true, false, not, [], ◌∷◌, Option, none, some, inl, inr,
  Bool-cases, if_true, if_false,
}
use claude_hooks.Common.Text.{Text, is_empty, text_eq_iff}
use claude_hooks.Common.Result.{Result, ok, err}
use claude_hooks.Hook.{get_command}
use claude_hooks.Exceptions.{exceptions_enabled, get_token_prefix, Token, AuditEntry}
use claude_hooks.Exceptions.Policy.{match_policy}
use claude_hooks.Exceptions.RateLimiter.{RateLimiter, CheckResult, check}
use claude_hooks.Exceptions.RateLimiter.Limits.{HasQuota, check_allowed_iff}
use claude_hooks.Exceptions.TokenParser.{TokenError, ParseResult, parse, new_parser}
use claude_hooks.Exceptions.Handler.{
  Handler, HandlerState, Times, denied, granted, audit_entry, decide, matches_code, evaluate,
  evaluate_parsed, CheckRequest, check_rate, handle_evaluated, evaluate_request, check_bypass,
}

matches_code_iff :
    (c : Text) (t : Token) → (matches_code c t ≡ true) ↔ ((c ≡ []) ⊎ (t.error_code ≡ c))
matches_code_iff [] t = ((λ h. inl refl), (λ h. refl))
matches_code_iff (b ∷ c) t = (
  (λ h. inr ((text_eq_iff t.error_code (b ∷ c)).0 h)),
  (λ h. elim h [ inl e ↦ cc | inr e ↦ (text_eq_iff t.error_code (b ∷ c)).1 e ]),
)

module _ (h : Handler) (t : Times) (st : HandlerState) where
  check_rate-bypassed :
      (e : AuditEntry) (p : CheckResult × RateLimiter)
      → (check_rate h t e p st).0.bypassed ≡ p.0.allowed
  check_rate-bypassed e (result, limiter) = elim (Bool-cases result.allowed) [
    | inl y ↦ rw y
    | inr n ↦ rw n
  ]

  module _ (req : CheckRequest) where
    -- The limiter lets a code through.
    abbrev Quota : Text → Type 0
    Quota c =
        (claude_hooks.Exceptions.is_rate_limit_enabled st.limiter.config ≡ false)
        ⊎ HasQuota st.limiter t.at_check c

    -- The token is for the error, if that has a code, and policy and limiter allow it.
    abbrev pub Grants : ParseResult → Type 0
    Grants r =
        ((req.error_code ≡ []) ⊎ (r.token.error_code ≡ req.error_code))
        × ((match_policy h.config r.token).allowed ≡ true)
        × Quota r.token.error_code

    abbrev tokens : Result TokenError (Option ParseResult)
    tokens = parse (new_parser h.shell (get_token_prefix h.config)) (get_command req.context)

    module _ (on : exceptions_enabled h.config ≡ true)
        (ne : is_empty (get_command req.context) ≡ false) where
      parsed :
          (x : Result TokenError (Option ParseResult))
          → tokens ≡ x
          → evaluate h t.at_entry (evaluate_request req)
            ≡ evaluate_parsed h t.at_entry (evaluate_request req) x
      unfolding evaluate
      parsed x e = rw (evaluate, on, e)

      matched :
          (r : ParseResult)
          → tokens ≡ ok (some r)
          → matches_code req.error_code r.token ≡ true
          → evaluate h t.at_entry (evaluate_request req)
            ≡ decide h t.at_entry (evaluate_request req) r (match_policy h.config r.token)
      matched r e same =
          parsed (ok (some r)) e
          ∙ if_false (not (matches_code req.error_code r.token)) _ _ (rw same)

      pub evaluate-granted :
          (r : ParseResult)
          → tokens ≡ ok (some r)
          → matches_code req.error_code r.token ≡ true
          → (match_policy h.config r.token).allowed ≡ true
          → evaluate h t.at_entry (evaluate_request req)
            ≡ granted
                (match_policy h.config r.token).reason
                (audit_entry h t.at_entry (evaluate_request req) r (match_policy h.config r.token))
      evaluate-granted r e same yes_ = matched r e same ∙ if_true _ _ _ yes_

      pub evaluate-denied :
          (r : ParseResult)
          → tokens ≡ ok (some r)
          → matches_code req.error_code r.token ≡ true
          → (match_policy h.config r.token).allowed ≡ false
          → evaluate h t.at_entry (evaluate_request req)
            ≡ denied (match_policy h.config r.token).reason (
                some (
                  audit_entry h t.at_entry
                    (evaluate_request req)
                    r
                    (match_policy h.config r.token)))
      evaluate-denied r e same no_ = matched r e same ∙ if_false _ _ _ no_

      checked :
          check_bypass h t req st
          ≡ handle_evaluated h t req.error_code (evaluate h t.at_entry (evaluate_request req)) st
      unfolding check_bypass
      checked = rw (check_bypass, on, ne)

      found_iff :
          (r : ParseResult)
          → tokens ≡ ok (some r)
          → ((check_bypass h t req st).0.bypassed ≡ true) ↔ Grants r
      found_iff r e = elim (Bool-cases (matches_code req.error_code r.token)) [
        | inr other ↦
            rw (checked, parsed (ok (some r)) e, other)
              ((λ x. cc), (λ g. sym other ∙ (matches_code_iff req.error_code r.token).1 g.0))
        | inl same ↦ elim (Bool-cases (match_policy h.config r.token).allowed) [
          | inr no_ ↦ rw (checked, evaluate-denied r e same no_) ((λ x. cc), (λ g. cc))
          | inl yes_ ↦
              let entry =
                audit_entry h t.at_entry (evaluate_request req) r (match_policy h.config r.token) in
              let rate =
                check_rate-bypassed entry (check t.at_check r.token.error_code st.limiter) in
              let quota = check_allowed_iff st.limiter t.at_check r.token.error_code in
              rw (checked, evaluate-granted r e same yes_, rate)
                (
                  (λ x. ((matches_code_iff req.error_code r.token).0 same, yes_, quota.0 x)),
                  (λ g. quota.1 g.2),
                )
        ]
      ]

      not_found :
          (x : Result TokenError (Option ParseResult))
          → tokens ≡ x
          → ((r : ParseResult) → x ≢ ok (some r))
          → (check_bypass h t req st).0.bypassed ≡ false
      not_found (ok (some r)) e n = absurd (n r refl)
      not_found (ok none) e n = rw (checked, parsed (ok none) e)
      not_found (err x) e n = rw (checked, parsed (err x) e)

    -- An error is bypassed exactly when exceptions are enabled and the command carries a token for
    -- its code that the policy of the code allows and whose quota is not used up.
    pub check_bypass_iff : ((check_bypass h t req st).0.bypassed ≡ true) ↔ (
        (exceptions_enabled h.config ≡ true)
        × (is_empty (get_command req.context) ≡ false)
        × ((r : ParseResult) × (tokens ≡ ok (some r)) × Grants r))
    check_bypass_iff = elim (Bool-cases (exceptions_enabled h.config)) [
      | inr off ↦ unfold check_bypass in rw off ((λ x. cc), (λ g. cc))
      | inl on ↦ elim (Bool-cases (is_empty (get_command req.context))) [
        | inl empty ↦ unfold check_bypass in rw (on, empty) ((λ x. cc), (λ g. cc))
        | inr ne ↦
            ((λ x. (on, ne, go on ne tokens refl x)), (λ g. (found_iff on ne g.2.0 g.2.1).1 g.2.2))
      ]
    ]
      where
        go :
            (on : exceptions_enabled h.config ≡ true)
            (ne : is_empty (get_command req.context) ≡ false)
            (x : Result TokenError (Option ParseResult))
            → tokens ≡ x
            → (check_bypass h t req st).0.bypassed ≡ true
            → (r : ParseResult) × (tokens ≡ ok (some r)) × Grants r
        go on ne (ok (some r)) e b = (r, e, (found_iff on ne r e).0 b)
        go on ne (ok none) e b = absurd (cc (not_found on ne _ e (λ r q. cc)))
        go on ne (err x) e b = absurd (cc (not_found on ne _ e (λ r q. cc)))
