-- ===== src/Exceptions/RateLimiter/Windows.antt =====
-- What sequences of attempts do: in one hour at most the hourly limit of exceptions is allowed, and
-- the counts per code add up to the global ones (internal/exceptions/ratelimit.go).
use claude_hooks.Common.{
  ℕ, ◌+◌, ◌≡◌, refl, ◌∙◌, ap, Bool, true, false, List, [], ◌∷◌, Option, arith, inl, inr, Bool-cases,
  get_or, All,
}
use mathlib.Core.Path.{subst}
use claude_hooks.Common.Int.{ℤ, pos, pos_part, neg_part, ◌+ℤ◌, ◌≤ℤ◌, ◌<ℤ◌, +ℤ_parts, eq_of_parts}
use claude_hooks.Common.Text.{Text, text_eq}
use claude_hooks.Common.Map.{Map, lookup, insert}
use claude_hooks.Exceptions.{
  RateLimitConfig, ExceptionsConfig, is_rate_limit_enabled, global_max_per_hour,
}
use claude_hooks.Exceptions.RateLimiter.{
  RateLimitState, RateLimiter, new_rate_limiter, usage, bump, truncate, hour, reset_if_expired,
  check, count_usage, record_usage,
}
use claude_hooks.Exceptions.RateLimiter.Limits.{Within, WithinLimits, attempt, attempt-WithinLimits}

-- The sum of the counts of a map.
abbrev pub total : Map ℤ → ℤ
total [] = pos 0
total ((k, n) ∷ m) = n +ℤ total m

-- Writing a count changes the sum by the difference.
total-insert : (c : Text) (v : ℤ) (m : Map ℤ) → total (insert c v m) +ℤ usage c m ≡ total m +ℤ v
unfolding usage lookup insert
total-insert c v [] =
    eq_of_parts _ _
      (omega (arith, +ℤ_parts v (pos 0), +ℤ_parts (v +ℤ pos 0) (pos 0), +ℤ_parts (pos 0) v))
total-insert c v ((j, n) ∷ m) = elim (Bool-cases (text_eq j c)) [
  | inl e ↦ rw e (
      eq_of_parts _ _ (
        omega (
          arith,
          +ℤ_parts (v +ℤ total m) n,
          +ℤ_parts v (total m),
          +ℤ_parts (n +ℤ total m) v,
          +ℤ_parts n (total m),
        )))
  | inr e ↦
      let rest = total-insert c v m in
      let used = get_or (lookup c m) (pos 0) in
      rw e (
        eq_of_parts _ _ (
          omega (
            arith,
            ap pos_part rest,
            ap neg_part rest,
            +ℤ_parts (n +ℤ total (insert c v m)) used,
            +ℤ_parts n (total (insert c v m)),
            +ℤ_parts (n +ℤ total m) v,
            +ℤ_parts n (total m),
            +ℤ_parts (total (insert c v m)) used,
            +ℤ_parts (total m) v,
          )))
]

total-bump : (c : Text) (m : Map ℤ) → total (bump c m) ≡ total m +ℤ pos 1
unfolding bump
total-bump c m =
    let used = usage c m in
    let moved = total-insert c (used +ℤ pos 1) m in
    eq_of_parts _ _ (
      omega (
        arith,
        ap pos_part moved,
        ap neg_part moved,
        +ℤ_parts (total (bump c m)) used,
        +ℤ_parts (total m) (used +ℤ pos 1),
        +ℤ_parts used (pos 1),
        +ℤ_parts (total m) (pos 1),
      ))

-- The counts per code add up to the global counts.
abbrev pub CountsAgree : RateLimitState → Type 0
CountsAgree s = (total s.hourly_usage ≡ s.global_hourly) × (total s.daily_usage ≡ s.global_daily)

reset-CountsAgree :
    (now : ℕ) (s : RateLimitState) → CountsAgree s → CountsAgree (reset_if_expired now s)
unfolding reset_if_expired
reset-CountsAgree now s h = ground (arith, h.0, h.1)

record-CountsAgree :
    (now : ℕ) (c : Text) (s : RateLimitState) → CountsAgree s → CountsAgree (count_usage now c s)
record-CountsAgree now c s h = (
  total-bump c s.hourly_usage ∙ ap (λ (n : ℤ). n +ℤ pos 1) h.0,
  total-bump c s.daily_usage ∙ ap (λ (n : ℤ). n +ℤ pos 1) h.1,
)

-- An attempt keeps the counts per code adding up to the global ones, hourly and daily, whether it
-- is allowed or not and whatever windows end in between.
pub attempt-CountsAgree :
    (now later : ℕ) (c : Text) (r : RateLimiter)
    → CountsAgree r.state
    → CountsAgree (attempt now later c r).1.state
unfolding attempt check record_usage
attempt-CountsAgree now later c r h =
    let agreed = reset-CountsAgree now r.state h in
    elim (Bool-cases (check now c r).0.allowed) [
      | inl e ↦ rw e (
          record-CountsAgree later c (reset_if_expired later (reset_if_expired now r.state))
            (reset-CountsAgree later (reset_if_expired now r.state) agreed))
      | inr e ↦ rw e agreed
    ]

abbrev pub bit : Bool → ℕ
bit true = 1
bit false = 0

-- How many attempts are allowed, and the limiter after them. An attempt is a time of the check, a
-- time of the record, and a code.
unfoldable pub attempts : List (ℕ × ℕ × Text) → RateLimiter → ℕ × RateLimiter
unfolding attempt
attempts [] r = (0, r)
attempts ((now, later, c) ∷ as_) r =
    let (ok_, r1) = attempt now later c r in let (n, r2) = attempts as_ r1 in (bit ok_ + n, r2)

-- Both times of an attempt lie in the hour that starts at `h`.
abbrev pub InHour : ℕ → ℕ × ℕ × Text → Type 0
InHour h (now, later, c) = (truncate hour now ≡ h) × (truncate hour later ≡ h)

-- Nothing is reset within the hour of the window.
same_hour :
    (now h : ℕ) (s : RateLimitState)
    → s.hour_start ≡ h
    → truncate hour now ≡ h
    → (reset_if_expired now s).global_hourly ≡ s.global_hourly
      × ((reset_if_expired now s).hour_start ≡ h)
unfolding reset_if_expired
same_hour now h s e t = (ground (arith, e, t), ground (arith, e, t))

abbrev Counted : ℕ → ℕ → RateLimiter → RateLimiter → Type 0
Counted h n r r' =
    (r'.state.global_hourly ≡ r.state.global_hourly +ℤ pos n)
    × (r'.state.hour_start ≡ h)
    × (r'.config ≡ r.config)

add_none : (a : ℤ) → a ≡ a +ℤ pos 0
add_none a = eq_of_parts _ _ (omega (arith, +ℤ_parts a (pos 0)))

attempt-Counted :
    (now later : ℕ) (c : Text) (h : ℕ) (r : RateLimiter)
    → r.state.hour_start ≡ h
    → InHour h (now, later, c)
    → Counted h (bit (attempt now later c r).0) r (attempt now later c r).1
unfolding attempt check record_usage
attempt-Counted now later c h r e t =
    let first = same_hour now h r.state e t.0 in
    let second = same_hour later h (reset_if_expired now r.state) first.1 t.1 in
    elim (Bool-cases (check now c r).0.allowed) [
      | inl a ↦ rw a (ap (λ (n : ℤ). n +ℤ pos 1) (second.0 ∙ first.0), second.1, refl)
      | inr a ↦ rw a (first.0 ∙ add_none r.state.global_hourly, first.1, refl)
    ]

attempts-Counted :
    (as_ : List (ℕ × ℕ × Text)) (h : ℕ) (r : RateLimiter)
    → r.state.hour_start ≡ h
    → All (InHour h) as_
    → is_rate_limit_enabled r.config ≡ true
    → WithinLimits r
    → Counted h (attempts as_ r).0 r (attempts as_ r).1 × WithinLimits (attempts as_ r).1
unfolding attempts
attempts-Counted [] h r e t on w = ((add_none r.state.global_hourly, e, refl), w)
attempts-Counted ((now, later, c) ∷ as_) h r e t on w =
    let r1 = (attempt now later c r).1 in
    let (g, e1, same) = attempt-Counted now later c h r e t.0 in
    let ((g2, e2, same2), w2) =
      attempts-Counted as_ h r1 e1 t.1 (rw same on) (attempt-WithinLimits now later c r on w) in
    (
      (
        eq_of_parts _ _ (
            omega (
              arith,
              ap pos_part g,
              ap neg_part g,
              ap pos_part g2,
              ap neg_part g2,
              +ℤ_parts r.state.global_hourly (pos (bit (attempt now later c r).0)),
              +ℤ_parts r1.state.global_hourly (pos (attempts as_ r1).0),
              +ℤ_parts r.state.global_hourly
                  (pos (bit (attempt now later c r).0 + (attempts as_ r1).0)),
            )),
        e2,
        same2 ∙ same,
      ),
      w2,
    )

new-WithinLimits :
    (now : ℕ) (rate : Option RateLimitConfig) (cfg : Option ExceptionsConfig)
    → WithinLimits (new_rate_limiter now rate cfg)
new-WithinLimits now rate cfg = (
  (λ p. ground arith),
  (λ p. ground arith),
  (λ c p. unfold usage lookup in ground arith),
  (λ c p. unfold usage lookup in ground arith),
)

-- From a new limiter that is enabled and has an hourly limit, of all attempts made within its first
-- hour no more than the limit are allowed, whatever their codes and policies.
pub hourly_quota :
    (now : ℕ) (rate : Option RateLimitConfig) (cfg : Option ExceptionsConfig)
    → (as_ : List (ℕ × ℕ × Text)) → is_rate_limit_enabled rate ≡ true
    → pos 0 <ℤ global_max_per_hour rate
    → All (InHour (truncate hour now)) as_
    → pos ((attempts as_ (new_rate_limiter now rate cfg)).0) ≤ℤ global_max_per_hour rate
hourly_quota now rate cfg as_ on set_ t =
    let r = new_rate_limiter now rate cfg in
    let ((g, e, same), w) =
      attempts-Counted as_ (truncate hour now) r refl t on (new-WithinLimits now rate cfg) in
    let final = (attempts as_ r).1 in
    let bound : Within (global_max_per_hour rate) final.state.global_hourly =
      subst
        (λ (k : Option RateLimitConfig). Within (global_max_per_hour k) final.state.global_hourly)
        same w.0 in
    omega
      (arith, bound set_, ap pos_part g, ap neg_part g, +ℤ_parts (pos 0) (pos ((attempts as_ r).0)))
