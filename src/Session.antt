-- ===== src/Session.antt =====
-- Session state (internal/session/state.go) and the part of its configuration that the tracker
-- reads (pkg/config/session.go). A time is a number of nanoseconds, a duration an integer; a nil
-- pointer is `none`, a nil slice the empty list.
pub mod Tracker
pub mod Unpoison
use claude_hooks.Common.{ℕ, ◌*◌, Bool, true, false, List, [], Option, none, some, if◌then◌else◌}
use claude_hooks.Common.Int.{ℤ, pos, zero_ℤ}
use claude_hooks.Common.Text.{Text, codes, is_empty}
use claude_hooks.Common.Map.{Map}

pub data Status : Type 0 where
  clean poisoned : Status

pub record SessionInfo : Type 0 where
  pub session_id : Text
  pub status : Status
  pub poisoned_at : Option ℕ
  pub poison_codes : List Text
  pub poison_message : Text
  pub command_count : ℕ
  pub last_activity : ℕ

abbrev pub info_poisoned : SessionInfo → Bool
info_poisoned s = elim s.status [ poisoned ↦ true | clean ↦ false ]

pub record SessionState : Type 0 where
  pub sessions : Map SessionInfo
  pub last_updated : ℕ

abbrev pub new_session_state : ℕ → SessionState
new_session_state now = record { sessions = []; last_updated = now }

-- pkg/config: nil is `none`; `max_session_age` is 0 when the file does not set it.
pub record SessionConfig : Type 0 where
  pub enabled : Option Bool
  pub state_file : Text
  pub max_session_age : ℤ

abbrev pub default_max_session_age : ℤ
default_max_session_age = pos (24 * 3_600_000_000_000)

abbrev pub default_session_state_file : Text
default_session_state_file = codes "~/.klaudiush/session_state.json"

-- `SessionConfig.IsEnabled`, false by default.
abbrev pub session_enabled : Option SessionConfig → Bool
session_enabled none = false
session_enabled (some c) = elim c.enabled [ none ↦ false | some b ↦ b ]

abbrev pub get_state_file : Option SessionConfig → Text
get_state_file none = default_session_state_file
get_state_file (some c) = if is_empty c.state_file then default_session_state_file else c.state_file

abbrev pub get_max_session_age : Option SessionConfig → ℤ
get_max_session_age none = default_max_session_age
get_max_session_age (some c) =
    if zero_ℤ c.max_session_age then default_max_session_age else c.max_session_age
