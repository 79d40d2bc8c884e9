-- ===== src/Exceptions/RateLimiter/Limits.antt =====
-- When the limiter allows an exception, and that its counts stay within the limits
-- (internal/exceptions/ratelimit.go).
use claude_hooks.Common.{
  ℕ, ◌≡◌, ◌↔◌, ◌⊎◌, refl, Bool, true, false, arith, if◌then◌else◌, ltb, inl, inr, Bool-cases,
  get_or,
}
use mathlib.Core.Path.{subst}
use claude_hooks.Common.Int.{ℤ, pos, ◌+ℤ◌, ◌≤ℤ◌, ◌<ℤ◌, +ℤ_parts}
use claude_hooks.Common.Text.{Text, text_eq, text_eq_iff}
use claude_hooks.Common.Map.{Map, lookup, lookup-insert}
use claude_hooks.Exceptions.{is_rate_limit_enabled, global_max_per_hour, global_max_per_day}
use claude_hooks.Exceptions.RateLimiter.{
  RateLimitState, RateLimiter, usage, bump, truncate, hour, day, reset_hour, reset_day,
  reset_if_expired, get_policy_limits, exceeded, check_limits, check, count_usage, record_usage,
}

-- A limit that is set is not exceeded.
abbrev pub Within : ℤ → ℤ → Type 0
Within limit used = pos 0 <ℤ limit → used ≤ℤ limit

-- The count is below the limit, where there is one.
abbrev pub Under : ℤ → ℤ → Type 0
Under limit used = pos 0 <ℤ limit → used <ℤ limit

exceeded-Under : (limit used : ℤ) → (exceeded limit used ≡ false) ↔ Under limit used
exceeded-Under limit used = ground arith

Under-Within : (limit used : ℤ) → Under limit used → Within limit (used +ℤ pos 1)
Under-Within limit used h = ground (arith, +ℤ_parts used (pos 1))

usage-bump :
    (k c : Text) (m : Map ℤ)
    → usage c (bump k m) ≡ (if text_eq k c then usage c m +ℤ pos 1 else usage c m)
unfolding usage bump
usage-bump k c m =
    ground (arith, text_eq_iff k c, lookup-insert k c (get_or (lookup k m) (pos 0) +ℤ pos 1) m)

-- The four limits, one of them for every code, on a state.
module _ (gh gd : ℤ) (limits : Text → ℤ × ℤ) where
  abbrev pub AllWithin : RateLimitState → Type 0
  AllWithin s =
      Within gh s.global_hourly
      × Within gd s.global_daily
      × ((c : Text) → Within (limits c).0 (usage c s.hourly_usage))
      × ((c : Text) → Within (limits c).1 (usage c s.daily_usage))

  abbrev pub AllUnder : Text → RateLimitState → Type 0
  AllUnder c s =
      Under gh s.global_hourly
      × Under gd s.global_daily
      × Under (limits c).0 (usage c s.hourly_usage)
      × Under (limits c).1 (usage c s.daily_usage)

  check_limits-AllUnder :
      (c : Text) (s : RateLimitState)
      → ((check_limits c s gh gd (limits c).0 (limits c).1).allowed ≡ true) ↔ AllUnder c s
  check_limits-AllUnder c s = ground (
    arith,
    exceeded-Under gh s.global_hourly,
    exceeded-Under gd s.global_daily,
    exceeded-Under (limits c).0 (usage c s.hourly_usage),
    exceeded-Under (limits c).1 (usage c s.daily_usage),
  )

  reset_hour-AllWithin : (now : ℕ) (s : RateLimitState) → AllWithin s → AllWithin (reset_hour now s)
  reset_hour-AllWithin now s h = elim (Bool-cases (ltb s.hour_start (truncate hour now))) [
    | inl e ↦ rw e ((λ p. ground arith), h.1, (λ c p. unfold usage in ground arith), h.3)
    | inr e ↦ rw e h
  ]

  reset_day-AllWithin : (now : ℕ) (s : RateLimitState) → AllWithin s → AllWithin (reset_day now s)
  reset_day-AllWithin now s h = elim (Bool-cases (ltb s.day_start (truncate day now))) [
    | inl e ↦ rw e (h.0, (λ p. ground arith), h.2, (λ c p. unfold usage in ground arith))
    | inr e ↦ rw e h
  ]

  reset_hour-AllUnder :
      (now : ℕ) (c : Text) (s : RateLimitState) → AllUnder c s → AllUnder c (reset_hour now s)
  reset_hour-AllUnder now c s h = elim (Bool-cases (ltb s.hour_start (truncate hour now))) [
    | inl e ↦ rw e ((λ p. ground arith), h.1, (λ p. unfold usage in ground arith), h.3)
    | inr e ↦ rw e h
  ]

  reset_day-AllUnder :
      (now : ℕ) (c : Text) (s : RateLimitState) → AllUnder c s → AllUnder c (reset_day now s)
  reset_day-AllUnder now c s h = elim (Bool-cases (ltb s.day_start (truncate day now))) [
    | inl e ↦ rw e (h.0, (λ p. ground arith), h.2, (λ p. unfold usage in ground arith))
    | inr e ↦ rw e h
  ]

  bump-Within :
      (k c : Text) (limit : ℤ) (m : Map ℤ)
      → Within limit (usage c m)
      → (text_eq k c ≡ true → Under limit (usage c m))
      → Within limit (usage c (bump k m))
  bump-Within k c limit m h u = elim (Bool-cases (text_eq k c)) [
    | inl e ↦ rw (usage-bump, e) (Under-Within limit (usage c m) (u e))
    | inr e ↦ rw (usage-bump, e) h
  ]

  -- One use counted after the four limits allowed it.
  count_usage-AllWithin :
      (now : ℕ) (k : Text) (s : RateLimitState)
      → AllWithin s
      → AllUnder k s
      → AllWithin (count_usage now k s)
  count_usage-AllWithin now k s h u = (
    Under-Within gh s.global_hourly u.0,
    Under-Within gd s.global_daily u.1,
    λ c. bump-Within k c (limits c).0 s.hourly_usage (h.2 c) (λ e.
        subst (λ (j : Text). Under (limits j).0 (usage j s.hourly_usage)) ((text_eq_iff k c).0 e)
          u.2),
    λ c. bump-Within k c (limits c).1 s.daily_usage (h.3 c) (λ e.
        subst (λ (j : Text). Under (limits j).1 (usage j s.daily_usage)) ((text_eq_iff k c).0 e)
          u.3),
  )

module _ (r : RateLimiter) where
  -- No count of the limiter is above a limit that is set.
  abbrev pub WithinLimits : Type 0
  WithinLimits =
      AllWithin (global_max_per_hour r.config) (global_max_per_day r.config) (get_policy_limits r)
        r.state

  -- No limit is used up for a code, in the windows of the time `now`.
  abbrev pub HasQuota : ℕ → Text → Type 0
  HasQuota now c =
      AllUnder (global_max_per_hour r.config) (global_max_per_day r.config) (get_policy_limits r) c
        (reset_if_expired now r.state)

  -- The limiter allows an exception exactly when it is disabled or when, in the hour and the day of
  -- the call, each of the four limits that is set is above its count.
  pub check_allowed_iff :
      (now : ℕ) (c : Text)
      → ((check now c r).0.allowed ≡ true)
        ↔ ((is_rate_limit_enabled r.config ≡ false) ⊎ HasQuota now c)
  unfolding check
  check_allowed_iff now c = elim (Bool-cases (is_rate_limit_enabled r.config)) [
    | inl on ↦
        let under =
          check_limits-AllUnder (global_max_per_hour r.config) (global_max_per_day r.config)
            (get_policy_limits r) c (reset_if_expired now r.state) in
        rw on ((λ h. inr (under.0 h)), (λ h. elim h [ inl off ↦ cc | inr q ↦ under.1 q ]))
    | inr off ↦ rw off ((λ h. inl refl), (λ h. refl))
  ]

  check_limiter :
      (now : ℕ) (c : Text) → (check now c r).1 ≡ record r { state = reset_if_expired now r.state }
  unfolding check
  check_limiter now c = refl

-- An attempt as the handler makes it: a check and, if it allows the exception, a record.
unfoldable pub attempt : ℕ → ℕ → Text → RateLimiter → Bool × RateLimiter
unfolding check record_usage
attempt now later c r =
    let (result, r1) = check now c r in
    (result.allowed, if result.allowed then record_usage later c r1 else r1)

reset-AllWithin :
    (gh gd : ℤ) (limits : Text → ℤ × ℤ) (now : ℕ) (s : RateLimitState)
    → AllWithin gh gd limits s
    → AllWithin gh gd limits (reset_if_expired now s)
unfolding reset_if_expired
reset-AllWithin gh gd limits now s h =
    reset_day-AllWithin gh gd limits now (reset_hour now s)
      (reset_hour-AllWithin gh gd limits now s h)

reset-AllUnder :
    (gh gd : ℤ) (limits : Text → ℤ × ℤ) (now : ℕ) (c : Text) (s : RateLimitState)
    → AllUnder gh gd limits c s
    → AllUnder gh gd limits c (reset_if_expired now s)
unfolding reset_if_expired
reset-AllUnder gh gd limits now c s h =
    reset_day-AllUnder gh gd limits now c (reset_hour now s)
      (reset_hour-AllUnder gh gd limits now c s h)

-- With rate limiting on, an attempt at any two times leaves every count within its limit, whatever
-- the code.
pub attempt-WithinLimits :
    (now later : ℕ) (c : Text) (r : RateLimiter)
    → is_rate_limit_enabled r.config ≡ true
    → WithinLimits r
    → WithinLimits (attempt now later c r).1
unfolding attempt check record_usage get_policy_limits
attempt-WithinLimits now later c r on h =
    let gh = global_max_per_hour r.config in
    let gd = global_max_per_day r.config in
    let limits = get_policy_limits r in
    let s = reset_if_expired now r.state in
    let within = reset-AllWithin gh gd limits now r.state h in
    elim (Bool-cases (check_limits c s gh gd (limits c).0 (limits c).1).allowed) [
      | inl yes_ ↦
          rw (on, yes_)
            (count_usage-AllWithin gh gd limits later c (reset_if_expired later s)
              (reset-AllWithin gh gd limits later s within)
              (reset-AllUnder gh gd limits later c s
                ((check_limits-AllUnder gh gd limits c s).0 yes_)))
      | inr no_ ↦ rw (on, no_) within
    ]
