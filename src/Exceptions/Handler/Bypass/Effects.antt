-- ===== src/Exceptions/Handler/Bypass/Effects.antt =====
-- What a check of the handler changes: the limiter within its limits, and the audit log
-- (internal/exceptions/handler.go, internal/dispatcher/exception.go).
use claude_hooks.Common.{
  ℕ, ◌≡◌, refl, Bool, true, false, not, ◌&&◌, List, [], ◌∷◌, ◌++◌, Option, none, some, inl, inr,
  Bool-cases, All, length,
}
use mathlib.Core.List.{append-nil}
use claude_hooks.Common.Text.{Text, codes, is_empty}
use claude_hooks.Hook.{get_command}
use claude_hooks.Exceptions.{exceptions_enabled, is_rate_limit_enabled, AuditEntry}
use claude_hooks.Exceptions.RateLimiter.{RateLimiter, CheckResult, check, record_usage}
use claude_hooks.Exceptions.RateLimiter.Limits.{WithinLimits, attempt, attempt-WithinLimits}
use claude_hooks.Common.Result.{Result, ok, err}
use claude_hooks.Exceptions.Policy.{PolicyDecision, match_policy}
use claude_hooks.Exceptions.TokenParser.{TokenError, ParseResult}
use claude_hooks.Dispatcher.{ValidationError}
use claude_hooks.Exceptions.Handler.{
  Handler, HandlerState, Times, ExceptionResult, denied, granted, decide, matches_code, evaluate,
  evaluate_parsed, EvaluateRequest, CheckRequest, CheckResponse, log_audit_entry, refuse,
  check_rate, handle_evaluated, evaluate_request, check_bypass,
}

log-limiter :
    (h : Handler) (e : Option AuditEntry) (st : HandlerState)
    → (log_audit_entry h e st).limiter ≡ st.limiter
unfolding log_audit_entry
log-limiter h none st = refl
log-limiter h (some e) st = elim (Bool-cases h.logs_audit) [ inl y ↦ rw y | inr n ↦ rw n ]

module _ (h : Handler) (t : Times) where
  -- The limiter is the one that an attempt leaves.
  check_rate-limiter :
      (e : AuditEntry) (st : HandlerState)
      → (check_rate h t e (check t.at_check e.entry_code st.limiter) st).1.limiter
        ≡ (attempt t.at_check t.at_record e.entry_code st.limiter).1
  unfolding attempt
  check_rate-limiter e st = elim (Bool-cases (check t.at_check e.entry_code st.limiter).0.allowed) [
    | inl y ↦ rw (y, log-limiter)
    | inr n ↦ rw (n, log-limiter)
  ]

  handle_evaluated-WithinLimits :
      (c : Text) (x : ExceptionResult) (st : HandlerState)
      → is_rate_limit_enabled st.limiter.config ≡ true
      → WithinLimits st.limiter
      → WithinLimits (handle_evaluated h t c x st).1.limiter
  handle_evaluated-WithinLimits c (denied why e) st on w = rw log-limiter w
  handle_evaluated-WithinLimits c (granted why e) st on w =
      rw (check_rate-limiter e st)
        (attempt-WithinLimits t.at_check t.at_record e.entry_code st.limiter on w)

  -- With rate limiting on, a check of the handler, whatever it answers, leaves every count of the
  -- limiter within its limit.
  pub check_bypass-WithinLimits :
      (req : CheckRequest) (st : HandlerState)
      → is_rate_limit_enabled st.limiter.config ≡ true
      → WithinLimits st.limiter
      → WithinLimits (check_bypass h t req st).1.limiter
  unfolding check_bypass
  check_bypass-WithinLimits req st on w = elim (Bool-cases (exceptions_enabled h.config)) [
    | inr off ↦ rw off w
    | inl en ↦ elim (Bool-cases (is_empty (get_command req.context))) [
      | inl empty ↦ rw (en, empty) w
      | inr ne ↦
          rw (en, ne)
            (handle_evaluated-WithinLimits req.error_code
              (evaluate h t.at_entry (evaluate_request req)) st on w)
    ]
  ]

  -- The entry that comes with a result says whether it is granted.
  abbrev EntryAgrees : ExceptionResult → Type 0
  EntryAgrees (denied why none) = Unit
  EntryAgrees (denied why (some e)) = e.allowed ≡ false
  EntryAgrees (granted why e) = e.allowed ≡ true

  decide-EntryAgrees :
      (now : ℕ) (req : EvaluateRequest) (r : ParseResult) (d : PolicyDecision)
      → EntryAgrees (decide h now req r d)
  decide-EntryAgrees now req r d = elim (Bool-cases d.allowed) [
    | inl y ↦ rw y refl
    | inr n ↦ rw n refl
  ]

  parsed-EntryAgrees :
      (now : ℕ) (req : EvaluateRequest) (x : Result TokenError (Option ParseResult))
      → EntryAgrees (evaluate_parsed h now req x)
  parsed-EntryAgrees now req (err e) = tt
  parsed-EntryAgrees now req (ok none) = tt
  parsed-EntryAgrees now req (ok (some r)) =
      elim (Bool-cases (matches_code req.error_code r.token)) [
        | inl y ↦ rw y (decide-EntryAgrees now req r (match_policy h.config r.token))
        | inr n ↦ rw n tt
      ]

  evaluate-EntryAgrees : (now : ℕ) (req : EvaluateRequest) → EntryAgrees (evaluate h now req)
  unfolding evaluate
  evaluate-EntryAgrees now req = elim (Bool-cases (exceptions_enabled h.config)) [
    | inl y ↦ rw y (parsed-EntryAgrees now req _)
    | inr n ↦ rw n tt
  ]

  -- What was appended to the audit log says whether the error was bypassed, and a bypass is always
  -- logged where logging is on.
  abbrev pub Logged : HandlerState → CheckResponse × HandlerState → Type 0
  Logged st p =
      (es : List AuditEntry) × (p.1.audit_log ≡ st.audit_log ++ es)
      × All (λ e. e.allowed ≡ p.0.bypassed) es
      × (h.logs_audit ≡ true → p.0.bypassed ≡ true → length es ≡ 1)

  log-Logged :
      (e : AuditEntry) (st : HandlerState) (b : Bool)
      → e.allowed ≡ b
      → (es : List AuditEntry) × ((log_audit_entry h (some e) st).audit_log ≡ st.audit_log ++ es)
        × All (λ a. a.allowed ≡ b) es
        × (h.logs_audit ≡ true → length es ≡ 1)
  unfolding log_audit_entry
  log-Logged e st b same = elim (Bool-cases h.logs_audit) [
    | inl y ↦ rw y (e ∷ [], refl, (same, tt), (λ _. refl))
    | inr n ↦ rw n ([], rw append-nil, tt, (λ q. cc))
  ]

  nothing-Logged :
      (st : HandlerState) (resp : CheckResponse) → resp.bypassed ≡ false → Logged st (resp, st)
  nothing-Logged st resp n = ([], rw append-nil, tt, (λ q b. cc))

  check_rate-Logged :
      (e : AuditEntry) (st : HandlerState) (p : CheckResult × RateLimiter)
      → e.allowed ≡ true
      → Logged st (check_rate h t e p st)
  check_rate-Logged e st (result, limiter) y = elim (Bool-cases result.allowed) [
    | inl a ↦
        let (es, q, all, one) =
          log-Logged e (record st { limiter = record_usage t.at_record e.entry_code limiter }) true
            y in
        rw a (es, q, all, (λ on b. one on))
    | inr n ↦
        let (es, q, all, one) =
          log-Logged (record e { allowed = false; denial_reason = result.reason })
            (record st { limiter = limiter }) false refl in
        rw n (es, q, all, (λ on b. cc))
  ]

  handle_evaluated-Logged :
      (c : Text) (x : ExceptionResult) (st : HandlerState)
      → EntryAgrees x
      → Logged st (handle_evaluated h t c x st)
  handle_evaluated-Logged c (denied why none) st y =
      unfold log_audit_entry in nothing-Logged st (refuse why c none) refl
  handle_evaluated-Logged c (denied why (some e)) st y =
      let (es, q, all, one) = log-Logged e st false y in (es, q, all, (λ on b. cc))
  handle_evaluated-Logged c (granted why e) st y = check_rate-Logged e st _ y

  -- Every entry that a check appends to the audit log says whether the error was bypassed, and a
  -- bypass is logged exactly once where logging is on.
  pub check_bypass-Logged :
      (req : CheckRequest) (st : HandlerState) → Logged st (check_bypass h t req st)
  unfolding check_bypass
  check_bypass-Logged req st = elim (Bool-cases (exceptions_enabled h.config)) [
    | inr off ↦
        rw off (nothing-Logged st (refuse (codes "exception system is disabled") [] none) refl)
    | inl on ↦ elim (Bool-cases (is_empty (get_command req.context))) [
      | inl empty ↦
          rw (on, empty) (nothing-Logged st (refuse (codes "no command to parse") [] none) refl)
      | inr ne ↦
          rw (on, ne)
            (handle_evaluated-Logged req.error_code (evaluate h t.at_entry (evaluate_request req))
              st (evaluate-EntryAgrees t.at_entry (evaluate_request req)))
    ]
  ]

  -- What the dispatcher's checker gives for an error: the error itself, or the error as a warning,
  -- with its validator, details, reference and hint unchanged.
  abbrev pub Answers : ValidationError → (Option ValidationError × Bool) × HandlerState → Type 0
  Answers e p =
      (e' : ValidationError) × (p.0.0 ≡ some e')
      × (e'.should_block ≡ (e.should_block && not p.0.1))
      × (e'.validator ≡ e.validator)
      × (e'.reference ≡ e.reference)
      × (e'.details ≡ e.details)
      × (e'.fix_hint ≡ e.fix_hint)
      × (p.0.1 ≡ true → e.should_block ≡ true)
