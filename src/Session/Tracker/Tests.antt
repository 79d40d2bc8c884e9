-- ===== src/Session/Tracker/Tests.antt =====
-- Runs of the tracker on concrete sessions, and the theorems at them.
use claude_hooks.Common.{ℕ, ◌≡◌, refl, true, false, List, [], ◌∷◌, Option, none, some, arith}
use claude_hooks.Common.Int.{pos, negsuc}
use claude_hooks.Common.Text.{Text, codes, text_eq}
use claude_hooks.Common.Map.{lookup, insert, retain}
use claude_hooks.Session.{SessionConfig}
use claude_hooks.Session.Tracker.{
  Tracker, TrackerOption, with_max_session_age, with_state_file, new_tracker, is_poisoned, poison,
  unpoison, record_command, cleanup_expired,
}
use claude_hooks.Session.Tracker.Invariant.{IsValid}
use claude_hooks.Session.Tracker.Automaton.{
  Event, poisoning, unpoisoning, command, cleanup, step, step-IsValid,
}
use claude_hooks.Session.Tracker.History.{run, reachable-IsValid, poison_sticks}

abbrev alice : Text
alice = codes "alice"

abbrev bob : Text
bob = codes "bob"

abbrev git001 : List Text
git001 = codes "GIT001" ∷ []

-- A configured age of -5 is not taken; the option's 100 is.
abbrev cfg : Option SessionConfig
cfg = some (record { enabled = some true; state_file = []; max_session_age = negsuc 4 })

abbrev opts : List TrackerOption
opts = with_state_file (codes "s.json") ∷ with_max_session_age (pos 100) ∷ []

abbrev day : List (ℕ × Event)
day =
    (10, command alice)
    ∷ (20, poisoning alice git001 (codes "no -s"))
    ∷ (30, command alice)
    ∷ (40, command bob)
    ∷ (50, cleanup)
    ∷ []

abbrev start : Tracker
start = new_tracker 5 cfg opts

still_poisoned : (is_poisoned 60 alice (run day start)).0 ≡ true
unfolding is_poisoned run new_tracker poison record_command cleanup_expired lookup insert retain
still_poisoned = refl

-- 200 is more than 100 after alice's last activity.
expired : is_poisoned 200 alice (run day start) ≡ (false, none)
unfolding is_poisoned run new_tracker poison record_command cleanup_expired lookup insert retain
expired = refl

released : (is_poisoned 70 alice (unpoison 60 alice (run day start))).0 ≡ false
unfolding is_poisoned run new_tracker poison unpoison record_command cleanup_expired lookup insert
    retain
released = refl

removed_two : (cleanup_expired 500 (run day start)).1 ≡ 2
unfolding run new_tracker poison record_command cleanup_expired insert retain lookup
removed_two = refl

reachable-IsValid_example : IsValid (run day start)
reachable-IsValid_example = reachable-IsValid 5 cfg opts day (omega arith)

start-IsValid : IsValid start
start-IsValid = unfold run in reachable-IsValid 5 cfg opts [] tt

abbrev afternoon : List (ℕ × Event)
afternoon = (30, command alice) ∷ (40, unpoisoning bob) ∷ (50, cleanup) ∷ []

poison_sticks_example :
    (is_poisoned 110 alice (run afternoon (poison 20 alice git001 [] start))).0 ≡ true
unfolding new_tracker text_eq
poison_sticks_example =
    poison_sticks start 20 100 110 alice git001 [] afternoon start-IsValid refl refl (omega arith)
      (omega arith) ((omega arith, tt), ((omega arith, refl), ((omega arith, tt), tt)))
      (omega arith)

step-IsValid_example : IsValid (step 20 (poisoning alice git001 []) start)
unfolding new_tracker
step-IsValid_example = step-IsValid 20 (poisoning alice git001 []) start (omega arith) start-IsValid
