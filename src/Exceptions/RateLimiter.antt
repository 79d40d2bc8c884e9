-- ===== src/Exceptions/RateLimiter.antt =====
-- The rate limiter of exceptions (internal/exceptions/ratelimit.go). Times count nanoseconds from
-- Go's zero time, so that `Truncate` rounds down to a multiple; an operation takes one reading of
-- the clock.
pub mod Limits
pub mod Windows
use claude_hooks.Common.{
  ℕ, ◌-◌, ◌*◌, ◌%◌, Bool, true, false, not, ◌&&◌, [], ◌++◌, Option, if◌then◌else◌, ltb, get_or,
  is_some,
}
use claude_hooks.Common.Int.{ℤ, pos, negsuc, ◌+ℤ◌, ◌-ℤ◌, ltb_ℤ, leb_ℤ, max_ℤ}
use claude_hooks.Common.Text.{Text, codes}
use claude_hooks.Common.Map.{Map, lookup, insert}
use claude_hooks.Exceptions.{
  RateLimitConfig, ExceptionsConfig, get_policy, is_rate_limit_enabled, global_max_per_hour,
  global_max_per_day, policy_max_per_hour, policy_max_per_day, get_rate_state_file,
}

abbrev pub hour : ℕ
hour = 3_600_000_000_000

abbrev pub day : ℕ
day = 24 * hour

-- `Time.Truncate`.
abbrev pub truncate : ℕ → ℕ → ℕ
truncate d t = t - t % d

pub record RateLimitState : Type 0 where
  pub hourly_usage : Map ℤ
  pub daily_usage : Map ℤ
  pub global_hourly : ℤ
  pub global_daily : ℤ
  pub hour_start : ℕ
  pub day_start : ℕ
  pub last_updated : ℕ

abbrev pub new_rate_limit_state : ℕ → RateLimitState
new_rate_limit_state now = record {
  hourly_usage = [];
  daily_usage = [];
  global_hourly = pos 0;
  global_daily = pos 0;
  hour_start = truncate hour now;
  day_start = truncate day now;
  last_updated = now;
}

pub record RateLimiter : Type 0 where
  pub state : RateLimitState
  pub config : Option RateLimitConfig
  pub policy : Option ExceptionsConfig
  pub state_file : Text

-- `NewRateLimiter` without options that change what is modelled.
abbrev pub new_rate_limiter : ℕ → Option RateLimitConfig → Option ExceptionsConfig → RateLimiter
new_rate_limiter now rate_cfg policy_cfg = record {
  state = new_rate_limit_state now;
  config = rate_cfg;
  policy = policy_cfg;
  state_file = get_rate_state_file rate_cfg;
}

-- Reading a Go map of integers: 0 for a missing key.
unfoldable pub usage : Text → Map ℤ → ℤ
unfolding lookup
usage c m = get_or (lookup c m) (pos 0)

-- `m[c]++`.
unfoldable pub bump : Text → Map ℤ → Map ℤ
unfolding usage insert
bump c m = insert c (usage c m +ℤ pos 1) m

abbrev pub reset_hour : ℕ → RateLimitState → RateLimitState
reset_hour now s =
    let current = truncate hour now in
    if ltb s.hour_start current
    then record s { hourly_usage = []; global_hourly = pos 0; hour_start = current }
    else s

abbrev pub reset_day : ℕ → RateLimitState → RateLimitState
reset_day now s =
    let current = truncate day now in
    if ltb s.day_start current
    then record s { daily_usage = []; global_daily = pos 0; day_start = current }
    else s

unfoldable pub reset_if_expired : ℕ → RateLimitState → RateLimitState
reset_if_expired now s = reset_day now (reset_hour now s)

-- The limits of a code, 0 without a policy.
unfoldable pub get_policy_limits : RateLimiter → Text → ℤ × ℤ
unfolding get_policy
get_policy_limits r c =
    let p = get_policy r.policy c in
    if is_some p then (policy_max_per_hour p, policy_max_per_day p) else (pos 0, pos 0)

pub record CheckResult : Type 0 where
  pub allowed : Bool
  pub reason : Text
  pub global_hourly_remaining : ℤ
  pub global_daily_remaining : ℤ
  pub code_hourly_remaining : ℤ
  pub code_daily_remaining : ℤ

-- max(0, limit - used).
abbrev pub remaining : ℤ → ℤ → ℤ
remaining limit used = max_ℤ (pos 0) (limit -ℤ used)

-- What is left of a limit, -1 where it is unlimited.
abbrev pub quota : ℤ → ℤ → ℤ
quota limit used = if ltb_ℤ (pos 0) limit then limit -ℤ used else negsuc 0

-- A limit that is set and used up.
abbrev pub exceeded : ℤ → ℤ → Bool
exceeded limit used = ltb_ℤ (pos 0) limit && leb_ℤ limit used

abbrev pub unlimited : CheckResult
unlimited = record {
  allowed = true;
  reason = codes "rate limiting disabled";
  global_hourly_remaining = negsuc 0;
  global_daily_remaining = negsuc 0;
  code_hourly_remaining = negsuc 0;
  code_daily_remaining = negsuc 0;
}

-- The four limits against the counts, in the order of `Check`: global before per code, hourly
-- before daily. `gh` and `gd` are the global limits, `ch` and `cd` those of the code.
abbrev pub check_limits : Text → RateLimitState → ℤ → ℤ → ℤ → ℤ → CheckResult
check_limits c s gh gd ch cd =
    if exceeded gh s.global_hourly
    then record {
      allowed = false;
      reason = codes "global hourly limit exceeded";
      global_hourly_remaining = pos 0;
      global_daily_remaining = remaining gd s.global_daily;
      code_hourly_remaining = pos 0;
      code_daily_remaining = pos 0;
    }
    else if exceeded gd s.global_daily
    then record {
      allowed = false;
      reason = codes "global daily limit exceeded";
      global_hourly_remaining = remaining gh s.global_hourly;
      global_daily_remaining = pos 0;
      code_hourly_remaining = pos 0;
      code_daily_remaining = pos 0;
    }
    else if exceeded ch (usage c s.hourly_usage)
    then record {
      allowed = false;
      reason = codes "hourly limit exceeded for " ++ c;
      global_hourly_remaining = remaining gh s.global_hourly;
      global_daily_remaining = remaining gd s.global_daily;
      code_hourly_remaining = pos 0;
      code_daily_remaining = remaining cd (usage c s.daily_usage);
    }
    else if exceeded cd (usage c s.daily_usage)
    then record {
      allowed = false;
      reason = codes "daily limit exceeded for " ++ c;
      global_hourly_remaining = remaining gh s.global_hourly;
      global_daily_remaining = remaining gd s.global_daily;
      code_hourly_remaining = remaining ch (usage c s.hourly_usage);
      code_daily_remaining = pos 0;
    }
    else record {
      allowed = true;
      reason = codes "within rate limits";
      global_hourly_remaining = quota gh s.global_hourly;
      global_daily_remaining = quota gd s.global_daily;
      code_hourly_remaining = quota ch (usage c s.hourly_usage);
      code_daily_remaining = quota cd (usage c s.daily_usage);
    }

-- The result, and the limiter with its windows up to date.
unfoldable pub check : ℕ → Text → RateLimiter → CheckResult × RateLimiter
unfolding reset_if_expired usage get_policy_limits
check now c r =
    let s = reset_if_expired now r.state in
    let (ch, cd) = get_policy_limits r c in
    (
      if not (is_rate_limit_enabled r.config)
          then unlimited
          else check_limits c s (global_max_per_hour r.config) (global_max_per_day r.config) ch cd,
      record r { state = s },
    )

abbrev pub count_usage : ℕ → Text → RateLimitState → RateLimitState
count_usage now c s = record s {
  global_hourly = s.global_hourly +ℤ pos 1;
  global_daily = s.global_daily +ℤ pos 1;
  hourly_usage = bump c s.hourly_usage;
  daily_usage = bump c s.daily_usage;
  last_updated = now;
}

-- `Record`, which gives no error.
unfoldable pub record_usage : ℕ → Text → RateLimiter → RateLimiter
unfolding reset_if_expired bump
record_usage now c r = record r { state = count_usage now c (reset_if_expired now r.state) }

-- What reading the state file gives. A nil map of the file is the empty one.
pub data StateFile : Type 0 where
  missing unreadable garbled : StateFile
  decoded : RateLimitState → StateFile

-- `Load`: the limiter, and whether it gives an error.
unfoldable pub load : ℕ → StateFile → RateLimiter → RateLimiter × Bool
unfolding reset_if_expired
load now missing r = (r, false)
load now unreadable r = (r, true)
load now garbled r = (r, false)
load now (decoded s) r = (record r { state = reset_if_expired now s }, false)

unfoldable pub reset : ℕ → RateLimiter → RateLimiter
reset now r = record r { state = new_rate_limit_state now }
