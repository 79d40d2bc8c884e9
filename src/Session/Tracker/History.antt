-- ===== src/Session/Tracker/History.antt =====
-- What holds of the tracker after any sequence of calls on a clock that does not go back.
use claude_hooks.Common.{
  ℕ, ◌+◌, ◌≤◌, ◌≡◌, ◌∙◌, true, false, List, [], ◌∷◌, Option, none, some, inl, inr, arith,
  Option-cases, All,
}
use claude_hooks.Common.Int.{pos}
use claude_hooks.Common.Text.{Text, is_empty, text_eq_refl}
use claude_hooks.Common.Map.{lookup}
use claude_hooks.Session.{SessionInfo, SessionConfig, info_poisoned}
use claude_hooks.Session.Tracker.{
  Tracker, TrackerOption, new_tracker, is_poisoned, poison, unpoison, record_command,
  cleanup_expired,
}
use claude_hooks.Session.Tracker.Invariant.{IsValid, new_tracker-IsValid}
use claude_hooks.Session.Tracker.Automaton.{
  Event, poisoning, unpoisoning, command, clearing, cleanup, resetting, step, next, concerns,
  lookup-step, step-IsValid,
}

unfoldable pub run : List (ℕ × Event) → Tracker → Tracker
unfolding step
run [] t = t
run ((now, e) ∷ es) t = run es (step now e t)

-- The times do not go back, and start no earlier than `from`.
abbrev pub InOrder : ℕ → List (ℕ × Event) → Type 0
InOrder from [] = Unit
InOrder from ((now, e) ∷ es) = (from ≤ now) × InOrder now es

updated_by :
    (now : ℕ) (e : Event) (t : Tracker) → t.last_updated ≤ now → (step now e t).last_updated ≤ now
unfolding step
updated_by now (poisoning sid cs msg) t le = unfold poison in ground arith
updated_by now (unpoisoning sid) t le = unfold unpoison in ground arith
updated_by now (command sid) t le = unfold record_command in ground arith
updated_by now (clearing sid) t le =
    unfold claude_hooks.Session.Tracker.clear_session in ground arith
updated_by now cleanup t le = unfold cleanup_expired in ground arith
updated_by now resetting t le = unfold claude_hooks.Session.Tracker.reset in ground arith

run-IsValid :
    (es : List (ℕ × Event)) (from : ℕ) (t : Tracker)
    → t.last_updated ≤ from
    → InOrder from es
    → IsValid t
    → IsValid (run es t)
unfolding run
run-IsValid [] from t le o h = h
run-IsValid ((now, e) ∷ es) from t le o h =
    run-IsValid es now (step now e t) (updated_by now e t (omega arith)) o.1
      (step-IsValid now e t (omega arith) h)

-- A tracker made by `NewTracker`, with any configuration and options, is valid after any sequence
-- of operations whose times do not go back.
pub reachable-IsValid :
    (start : ℕ) (cfg : Option SessionConfig) (os : List TrackerOption) (es : List (ℕ × Event))
    → InOrder start es
    → IsValid (run es (new_tracker start cfg os))
reachable-IsValid start cfg os es o =
    run-IsValid es start (new_tracker start cfg os) (unfold new_tracker in omega arith) o
      (new_tracker-IsValid start cfg os)

-- Events that do not release session `sid`: neither an acknowledgement nor a removal of it.
abbrev pub Spares : Text → Event → Type 0
Spares sid (unpoisoning s) = concerns s sid ≡ false
Spares sid (clearing s) = concerns s sid ≡ false
Spares sid resetting = ⊥
Spares sid _ = Unit

-- The entry is poisoned, and was active since `since`.
abbrev Held : ℕ → Option SessionInfo → Type 0
Held since none = ⊥
Held since (some info) = (info_poisoned info ≡ true) × (since ≤ info.last_activity)

next-Held :
    (since age now : ℕ) (e : Event) (sid : Text) (o : Option SessionInfo)
    → since ≤ now
    → now ≤ since + age
    → Spares sid e
    → Held since o
    → Held since (next (pos age) now e sid o)
next-Held since age now (poisoning s cs msg) sid (some info) le near sp h = ground arith
next-Held since age now (unpoisoning s) sid (some info) le near sp h = ground arith
next-Held since age now (command s) sid (some info) le near sp h = ground arith
next-Held since age now (clearing s) sid (some info) le near sp h = ground arith
next-Held since age now cleanup sid (some info) le near sp h = ground arith
next-Held since age now resetting sid (some info) le near sp h = elim sp [ ]
next-Held since age now e sid none le near sp h = elim h [ ]

-- An event that stays within the age limit and spares the session.
abbrev pub Harmless : ℕ → Text → ℕ × Event → Type 0
Harmless limit sid (now, e) = (now ≤ limit) × Spares sid e

run-Held :
    (es : List (ℕ × Event)) (since age from : ℕ) (sid : Text) (t : Tracker)
    → t.max_session_age ≡ pos age
    → since ≤ from
    → t.last_updated ≤ from
    → InOrder from es
    → All (Harmless (since + age) sid) es
    → IsValid t
    → Held since (lookup sid t.sessions)
    → Held since (lookup sid (run es t).sessions) × ((run es t).max_session_age ≡ pos age)
unfolding run
run-Held [] since age from sid t m le up o all v h = (h, m)
run-Held ((now, e) ∷ es) since age from sid t m le up o all v h =
    let (moved, same_age) = lookup-step now e sid t v in
    let later : since ≤ now = omega arith in
    run-Held es since age now sid (step now e t) (same_age ∙ m) later
      (updated_by now e t (omega arith)) o.1 all.1 (step-IsValid now e t (omega arith) v)
      (rw (moved, m)
        (next-Held since age now e sid (lookup sid t.sessions) later all.0.0 all.0.1 h))

is_poisoned-Held :
    (since age now : ℕ) (sid : Text) (t : Tracker)
    → is_empty sid ≡ false
    → t.max_session_age ≡ pos age
    → now ≤ since + age
    → Held since (lookup sid t.sessions)
    → (is_poisoned now sid t).0 ≡ true
unfolding is_poisoned
is_poisoned-Held since age now sid t ne m near h = elim (Option-cases (lookup sid t.sessions)) [
  | inl missing ↦ absurd (rw missing at h)
  | inr (info, e) ↦ let h' = rw e at h in rw (ne, e) (ground arith)
]

-- Fast-fail cannot be waited or worked around: once poisoned, a session is reported as poisoned
-- after any further calls, as long as the age limit has not passed since it was poisoned and no
-- call acknowledged, cleared or reset it. Commands, cleanups and whatever happens to other
-- sessions do not release it.
pub poison_sticks :
    (t : Tracker) (start age now : ℕ) (sid : Text) (cs : List Text) (msg : Text)
    (es : List (ℕ × Event))
    → IsValid t
    → t.max_session_age ≡ pos age
    → is_empty sid ≡ false
    → t.last_updated ≤ start
    → InOrder start es
    → All (Harmless (start + age) sid) es
    → now ≤ start + age
    → (is_poisoned now sid (run es (poison start sid cs msg t))).0 ≡ true
poison_sticks t start age now sid cs msg es v m ne up o all near =
    let e = poisoning sid cs msg in
    let (moved, same_age) = lookup-step start e sid t v in
    let held : Held start (lookup sid (step start e t).sessions) =
      rw moved (ground (arith, text_eq_refl sid)) in
    let (held', age') =
      run-Held es start age start sid (step start e t) (same_age ∙ m) (omega arith)
        (updated_by start e t up) o all (step-IsValid start e t up v) held in
    unfold step in
    is_poisoned-Held start age now sid (run es (poison start sid cs msg t)) ne age' near held'
