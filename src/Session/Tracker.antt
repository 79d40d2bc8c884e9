-- ===== src/Session/Tracker.antt =====
-- The session tracker (internal/session/tracker.go). An operation takes the time at which it runs,
-- one reading of the clock, and returns the new tracker. Locks and log lines leave no trace.
pub mod Invariant
pub mod Automaton
pub mod History
mod Tests
use claude_hooks.Common.{
  ℕ, ◌+◌, ◌-◌, Bool, false, not, List, [], ◌∷◌, Option, none, some, ltb, if◌then◌else◌, get_or,
  length,
}
use claude_hooks.Common.Int.{ℤ, pos, sub_ℕ, ltb_ℤ, leb_ℤ}
use claude_hooks.Common.Text.{Text, is_empty}
use claude_hooks.Common.Map.{Map, lookup, insert, delete, retain}
use claude_hooks.Session.{
  Status, clean, poisoned, SessionInfo, info_poisoned, SessionConfig, session_enabled,
  get_state_file, get_max_session_age, default_max_session_age, new_session_state,
}

-- `state` is spread over its two fields. The logger and the clock are not part of it.
pub record Tracker : Type 0 where
  pub sessions : Map SessionInfo
  pub last_updated : ℕ
  pub config : Option SessionConfig
  pub state_file : Text
  pub max_session_age : ℤ

-- The options that change what is modelled.
pub data TrackerOption : Type 0 where
  with_state_file : Text → TrackerOption
  with_max_session_age : ℤ → TrackerOption

unfoldable pub apply_option : Tracker → TrackerOption → Tracker
apply_option t (with_state_file path) =
    if not (is_empty path) then record t { state_file = path } else t
apply_option t (with_max_session_age d) =
    if ltb_ℤ (pos 0) d then record t { max_session_age = d } else t

unfoldable pub apply_options : Tracker → List TrackerOption → Tracker
unfolding apply_option
apply_options t [] = t
apply_options t (o ∷ os) = apply_options (apply_option t o) os

-- `cfg.GetMaxSessionAge()` where it is positive, else the tracker's own default.
abbrev pub configured_age : Option SessionConfig → ℤ
configured_age cfg =
    let age = get_max_session_age cfg in if ltb_ℤ (pos 0) age then age else default_max_session_age

abbrev pub initial : ℕ → Option SessionConfig → Tracker
initial now cfg = record {
  sessions = (new_session_state now).sessions;
  last_updated = (new_session_state now).last_updated;
  config = cfg;
  state_file = get_state_file cfg;
  max_session_age = configured_age cfg;
}

unfoldable pub new_tracker : ℕ → Option SessionConfig → List TrackerOption → Tracker
unfolding apply_options
new_tracker now cfg opts = record (apply_options (initial now cfg) opts) { last_updated = now }

-- `isExpiredLocked`, over the age limit alone.
abbrev pub expired_at : ℤ → ℕ → SessionInfo → Bool
expired_at max_age now info =
    if leb_ℤ max_age (pos 0) then false else ltb_ℤ max_age (sub_ℕ now info.last_activity)

abbrev pub is_expired : Tracker → ℕ → SessionInfo → Bool
is_expired t now info = expired_at t.max_session_age now info

-- The second component is the pointer into the tracker's map: a caller that keeps it sees later
-- writes to the same entry.
unfoldable pub is_poisoned : ℕ → Text → Tracker → Bool × Option SessionInfo
is_poisoned now sid t = if is_empty sid then (false, none) else elim (lookup sid t.sessions) [
  | none ↦ (false, none)
  | some info ↦ if is_expired t now info then (false, none) else (info_poisoned info, some info)
]

-- The entry made for a session that is not tracked yet.
abbrev pub fresh_info : Text → Status → ℕ → SessionInfo
fresh_info sid st now = record {
  session_id = sid;
  status = st;
  poisoned_at = none;
  poison_codes = [];
  poison_message = [];
  command_count = 0;
  last_activity = now;
}

abbrev pub store : ℕ → Text → SessionInfo → Tracker → Tracker
store now sid info t = record t { sessions = insert sid info t.sessions; last_updated = now }

abbrev pub poison_info : ℕ → List Text → Text → SessionInfo → SessionInfo
poison_info now cs message info = record info {
  status = poisoned;
  poisoned_at = some now;
  poison_codes = cs;
  poison_message = message;
  last_activity = now;
}

unfoldable pub poison : ℕ → Text → List Text → Text → Tracker → Tracker
poison now sid cs message t =
    if is_empty sid
    then t
    else let info = get_or (lookup sid t.sessions) (fresh_info sid poisoned now) in
      store now sid (poison_info now cs message info) t

abbrev pub clear_poison : SessionInfo → SessionInfo
clear_poison info = record info {
  status = clean;
  poisoned_at = none;
  poison_codes = [];
  poison_message = [];
}

unfoldable pub unpoison : ℕ → Text → Tracker → Tracker
unpoison now sid t = if is_empty sid then t else elim (lookup sid t.sessions) [
  | none ↦ t
  | some info ↦ store now sid (record (clear_poison info) { last_activity = now }) t
]

-- An expired entry starts over before the command is counted.
abbrev pub count_command : ℤ → ℕ → SessionInfo → SessionInfo
count_command max_age now info =
    let info' =
      if expired_at max_age now info
      then record (clear_poison info) { command_count = 0 }
      else info in
    record info' { command_count = info'.command_count + 1; last_activity = now }

unfoldable pub record_command : ℕ → Text → Tracker → Tracker
record_command now sid t =
    if is_empty sid
    then t
    else let info = get_or (lookup sid t.sessions) (fresh_info sid clean now) in
      store now sid (count_command t.max_session_age now info) t

-- A copy of the entry, so the value itself.
unfoldable pub get_info : Text → Tracker → Option SessionInfo
get_info sid t = if is_empty sid then none else lookup sid t.sessions

unfoldable pub clear_session : ℕ → Text → Tracker → Tracker
clear_session now sid t =
    if is_empty sid then t else record t { sessions = delete sid t.sessions; last_updated = now }

-- The tracker without its expired entries, and how many there were.
unfoldable pub cleanup_expired : ℕ → Tracker → Tracker × ℕ
cleanup_expired now t =
    let kept = retain (λ info. not (is_expired t now info)) t.sessions in
    let removed = length t.sessions - length kept in
    (
      record t { sessions = kept; last_updated = if ltb 0 removed then now else t.last_updated },
      removed,
    )

unfoldable pub reset : ℕ → Tracker → Tracker
reset now t =
    let s = new_session_state now in
    record t { sessions = s.sessions; last_updated = s.last_updated }

-- A nil tracker, and one with no configuration, is disabled.
abbrev pub is_enabled : Option Tracker → Bool
is_enabled none = false
is_enabled (some t) = session_enabled t.config
