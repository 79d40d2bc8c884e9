-- ===== src/Session/Tracker/Automaton.antt =====
-- The tracker as independent automata, one for each session: what one operation does to the entry
-- of a session, whatever the other sessions hold.
use claude_hooks.Common.{
  ℕ, ◌≤◌, ◌≡◌, refl, Bool, false, not, List, Option, none, some, inl, inr, arith, Option-cases,
  if◌then◌else◌, get_or,
}
use claude_hooks.Common.Int.{ℤ}
use claude_hooks.Common.Text.{Text, is_empty, text_eq, text_eq_iff}
use claude_hooks.Common.Map.{lookup, lookup-insert, lookup-delete, lookup-retain, keep_if}
use claude_hooks.Session.{clean, poisoned, SessionInfo}
use claude_hooks.Session.Tracker.{
  Tracker, expired_at, fresh_info, poison_info, poison, clear_poison, unpoison, count_command,
  record_command, clear_session, cleanup_expired, reset,
}
use claude_hooks.Session.Tracker.Invariant.{
  IsValid, poison-IsValid, unpoison-IsValid, record_command-IsValid, clear_session-IsValid,
  cleanup_expired-IsValid, reset-IsValid,
}

-- A call of an operation that writes.
pub data Event : Type 0 where
  poisoning : Text → List Text → Text → Event
  unpoisoning : Text → Event
  command : Text → Event
  clearing : Text → Event
  cleanup : Event
  resetting : Event

unfoldable pub step : ℕ → Event → Tracker → Tracker
step now (poisoning sid cs msg) t = poison now sid cs msg t
step now (unpoisoning sid) t = unpoison now sid t
step now (command sid) t = record_command now sid t
step now (clearing sid) t = clear_session now sid t
step now cleanup t = (cleanup_expired now t).0
step now resetting t = reset now t

-- An event for session `sid` concerns `j`: never an empty identifier.
abbrev pub concerns : Text → Text → Bool
concerns sid j = if is_empty sid then false else text_eq sid j

-- The automaton of session `j`; `none` is a session that is not tracked.
abbrev pub next : ℤ → ℕ → Event → Text → Option SessionInfo → Option SessionInfo
next max_age now (poisoning sid cs msg) j o =
    if concerns sid j
    then some (poison_info now cs msg (get_or o (fresh_info sid poisoned now)))
    else o
next max_age now (unpoisoning sid) j none = none
next max_age now (unpoisoning sid) j (some info) =
    some (if concerns sid j then record (clear_poison info) { last_activity = now } else info)
next max_age now (command sid) j o =
    if concerns sid j
    then some (count_command max_age now (get_or o (fresh_info sid clean now)))
    else o
next max_age now (clearing sid) j o = if concerns sid j then none else o
next max_age now cleanup j o = keep_if (λ info. not (expired_at max_age now info)) o
next max_age now resetting j o = none

module _ (now : ℕ) (sid j : Text) (t : Tracker) where
  poison-next :
      (cs : List Text) (msg : Text)
      → lookup j (poison now sid cs msg t).sessions
        ≡ next t.max_session_age now (poisoning sid cs msg) j (lookup j t.sessions)
  unfolding poison
  poison-next cs msg = ground (
    arith,
    text_eq_iff sid j,
    lookup-insert sid j
        (poison_info now cs msg (get_or (lookup sid t.sessions) (fresh_info sid poisoned now)))
        t.sessions,
  )

  unpoison-next :
      lookup j (unpoison now sid t).sessions
      ≡ next t.max_session_age now (unpoisoning sid) j (lookup j t.sessions)
  unfolding unpoison
  unpoison-next = elim (Option-cases (lookup sid t.sessions)) [
    | inl missing ↦ ground (arith, text_eq_iff sid j)
    | inr (info, e) ↦ ground (
      arith,
      text_eq_iff sid j,
      lookup-insert sid j (record (clear_poison info) { last_activity = now }) t.sessions,
    )
  ]

  record_command-next :
      lookup j (record_command now sid t).sessions
      ≡ next t.max_session_age now (command sid) j (lookup j t.sessions)
  unfolding record_command
  record_command-next = ground (
    arith,
    text_eq_iff sid j,
    lookup-insert sid j
        (count_command t.max_session_age now
          (get_or (lookup sid t.sessions) (fresh_info sid clean now)))
        t.sessions,
  )

pub lookup-step :
    (now : ℕ) (e : Event) (j : Text) (t : Tracker)
    → IsValid t
    → (lookup j (step now e t).sessions ≡ next t.max_session_age now e j (lookup j t.sessions))
      × ((step now e t).max_session_age ≡ t.max_session_age)
unfolding step
lookup-step now (poisoning sid cs msg) j t h =
    (poison-next now sid j t cs msg, unfold poison in ground arith)
lookup-step now (unpoisoning sid) j t h =
    (unpoison-next now sid j t, unfold unpoison in ground arith)
lookup-step now (command sid) j t h =
    (record_command-next now sid j t, unfold record_command in ground arith)
lookup-step now (clearing sid) j t h =
    unfold clear_session in (ground (arith, lookup-delete sid j t.sessions), ground arith)
lookup-step now cleanup j t h =
    unfold cleanup_expired in (lookup-retain _ j t.sessions h.unique_keys, refl)
lookup-step now resetting j t h = unfold lookup reset in (refl, refl)

-- Every operation, at a time not before the last update, keeps the tracker valid: keys are unique,
-- each entry stands under its own non-empty identifier, a session is marked with a time exactly
-- when it is poisoned, a clean one holds no codes and no message, and no entry was active after
-- the last update.
pub step-IsValid :
    (now : ℕ) (e : Event) (t : Tracker) → t.last_updated ≤ now → IsValid t → IsValid (step now e t)
unfolding step
step-IsValid now (poisoning sid cs msg) t le h = poison-IsValid now sid cs msg t le h
step-IsValid now (unpoisoning sid) t le h = unpoison-IsValid now sid t le h
step-IsValid now (command sid) t le h = record_command-IsValid now sid t le h
step-IsValid now (clearing sid) t le h = clear_session-IsValid now sid t le h
step-IsValid now cleanup t le h = cleanup_expired-IsValid now t le h
step-IsValid now resetting t le h = reset-IsValid now t h
