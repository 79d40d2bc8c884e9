-- ===== src/Session/Tracker/Invariant.antt =====
-- The well-formedness of the tracker's state, and that every operation keeps it.
use claude_hooks.Common.{
  ℕ, ◌≤◌, ◌≡◌, refl, false, List, [], ◌∷◌, Option, some, inl, inr, arith, is_some, Bool-cases,
  Option-cases,
}
use claude_hooks.Common.Int.{ℤ, pos, ◌<ℤ◌}
use claude_hooks.Common.Text.{Text, is_empty}
use claude_hooks.Common.Map.{
  lookup, IsMap, insert-IsMap, delete-IsMap, retain-IsMap, Each, Each-lookup, Each-insert,
  Each-delete, Each-retain, Each-weaken,
}
use claude_hooks.Session.{clean, poisoned, SessionInfo, info_poisoned, SessionConfig}
use claude_hooks.Session.Tracker.{
  Tracker, TrackerOption, with_state_file, with_max_session_age, apply_option, apply_options,
  initial, new_tracker, fresh_info, store, poison, poison_info, unpoison, clear_poison,
  record_command, count_command, clear_session, cleanup_expired, reset,
}

-- An entry stands under its own key, its poison fields agree with its status, and it was last
-- active at `now` or before.
pub record EntryOk (now : ℕ) (sid : Text) (info : SessionInfo) : Type 0 where
  pub own_key : info.session_id ≡ sid
  pub key_present : is_empty sid ≡ false
  pub dated : info_poisoned info ≡ is_some info.poisoned_at
  pub clean_no_codes : info_poisoned info ≡ false → info.poison_codes ≡ []
  pub clean_no_message : info_poisoned info ≡ false → info.poison_message ≡ []
  pub active_before : info.last_activity ≤ now

pub record IsValid (t : Tracker) : Type 0 where
  pub unique_keys : IsMap t.sessions
  pub entries : Each (EntryOk t.last_updated) t.sessions
  pub age_positive : pos 0 <ℤ t.max_session_age

later-EntryOk :
    {m : ℕ} (n : ℕ) → m ≤ n → (k : Text) (v : SessionInfo) → EntryOk m k v → EntryOk n k v
later-EntryOk n le k v h = ground arith

poison_info-EntryOk :
    (now : ℕ) (sid : Text) (cs : List Text) (msg : Text) (info : SessionInfo)
    → info.session_id ≡ sid
    → is_empty sid ≡ false
    → EntryOk now sid (poison_info now cs msg info)
poison_info-EntryOk now sid cs msg info k ne = ground arith

clear_poison-EntryOk :
    (now : ℕ) (sid : Text) (info : SessionInfo)
    → info.session_id ≡ sid
    → is_empty sid ≡ false
    → EntryOk now sid (record (clear_poison info) { last_activity = now })
clear_poison-EntryOk now sid info k ne = ground arith

count_command-EntryOk :
    (max_age : ℤ) (now : ℕ) (sid : Text) (info : SessionInfo)
    → EntryOk now sid info
    → EntryOk now sid (count_command max_age now info)
count_command-EntryOk max_age now sid info h = ground arith

-- A write of a good entry at a later time.
store-IsValid :
    (now : ℕ) (sid : Text) (info : SessionInfo) (t : Tracker)
    → t.last_updated ≤ now
    → EntryOk now sid info
    → IsValid t
    → IsValid (store now sid info t)
store-IsValid now sid info t le ok h = record {
  unique_keys = insert-IsMap sid info t.sessions h.unique_keys;
  entries = Each-insert (EntryOk now) sid info t.sessions ok (
      Each-weaken (EntryOk t.last_updated) (EntryOk now) (later-EntryOk now le) t.sessions
        h.entries);
  age_positive = h.age_positive;
}

-- The entry that an operation starts from: the stored one, seen at a later time.
stored-EntryOk :
    (now : ℕ) (sid : Text) (t : Tracker) {info : SessionInfo}
    → t.last_updated ≤ now
    → IsValid t
    → lookup sid t.sessions ≡ some info
    → EntryOk now sid info
stored-EntryOk now sid t {info} le h e =
    later-EntryOk now le sid info (Each-lookup (EntryOk t.last_updated) sid t.sessions h.entries e)

pub poison-IsValid :
    (now : ℕ) (sid : Text) (cs : List Text) (msg : Text) (t : Tracker)
    → t.last_updated ≤ now
    → IsValid t
    → IsValid (poison now sid cs msg t)
unfolding poison
poison-IsValid now sid cs msg t le h = elim (Bool-cases (is_empty sid)) [
  | inl empty ↦ rw empty h
  | inr ne ↦ elim (Option-cases (lookup sid t.sessions)) [
    | inl missing ↦
        rw (ne, missing)
          (store-IsValid now sid _ t le
            (poison_info-EntryOk now sid cs msg (fresh_info sid poisoned now) refl ne) h)
    | inr (info, e) ↦
        rw (ne, e)
          (store-IsValid now sid _ t le
            (poison_info-EntryOk now sid cs msg info (stored-EntryOk now sid t le h e).own_key ne)
            h)
  ]
]

pub unpoison-IsValid :
    (now : ℕ) (sid : Text) (t : Tracker)
    → t.last_updated ≤ now
    → IsValid t
    → IsValid (unpoison now sid t)
unfolding unpoison
unpoison-IsValid now sid t le h = elim (Bool-cases (is_empty sid)) [
  | inl empty ↦ rw empty h
  | inr ne ↦ elim (Option-cases (lookup sid t.sessions)) [
    | inl missing ↦ rw (ne, missing) h
    | inr (info, e) ↦
        rw (ne, e)
          (store-IsValid now sid _ t le
            (clear_poison-EntryOk now sid info (stored-EntryOk now sid t le h e).own_key ne) h)
  ]
]

fresh_info-EntryOk :
    (now : ℕ) (sid : Text) → is_empty sid ≡ false → EntryOk now sid (fresh_info sid clean now)
fresh_info-EntryOk now sid ne = ground arith

pub record_command-IsValid :
    (now : ℕ) (sid : Text) (t : Tracker)
    → t.last_updated ≤ now
    → IsValid t
    → IsValid (record_command now sid t)
unfolding record_command
record_command-IsValid now sid t le h = elim (Bool-cases (is_empty sid)) [
  | inl empty ↦ rw empty h
  | inr ne ↦ elim (Option-cases (lookup sid t.sessions)) [
    | inl missing ↦
        rw (ne, missing)
          (store-IsValid now sid _ t le
            (count_command-EntryOk t.max_session_age now sid _ (fresh_info-EntryOk now sid ne)) h)
    | inr (info, e) ↦
        rw (ne, e)
          (store-IsValid now sid _ t le
            (count_command-EntryOk t.max_session_age now sid info (stored-EntryOk now sid t le h e))
            h)
  ]
]

pub clear_session-IsValid :
    (now : ℕ) (sid : Text) (t : Tracker)
    → t.last_updated ≤ now
    → IsValid t
    → IsValid (clear_session now sid t)
unfolding clear_session
clear_session-IsValid now sid t le h = elim (Bool-cases (is_empty sid)) [
  | inl empty ↦ rw empty h
  | inr ne ↦ rw ne (record {
    unique_keys = delete-IsMap sid t.sessions h.unique_keys;
    entries = Each-delete (EntryOk now) sid t.sessions (
        Each-weaken (EntryOk t.last_updated) (EntryOk now) (later-EntryOk now le) t.sessions
          h.entries);
    age_positive = h.age_positive;
  })
]

pub cleanup_expired-IsValid :
    (now : ℕ) (t : Tracker) → t.last_updated ≤ now → IsValid t → IsValid (cleanup_expired now t).0
unfolding cleanup_expired
cleanup_expired-IsValid now t le h = record {
  unique_keys = retain-IsMap _ t.sessions h.unique_keys;
  entries = Each-retain (EntryOk (cleanup_expired now t).0.last_updated) _ t.sessions (
      Each-weaken (EntryOk t.last_updated) _ (later-EntryOk _ (ground arith)) t.sessions h.entries);
  age_positive = h.age_positive;
}

pub reset-IsValid : (now : ℕ) (t : Tracker) → IsValid t → IsValid (reset now t)
unfolding reset
reset-IsValid now t h = record { unique_keys = tt; entries = tt; age_positive = h.age_positive }

apply_options-fresh :
    (os : List TrackerOption) (t : Tracker)
    → t.sessions ≡ []
    → pos 0 <ℤ t.max_session_age
    → ((apply_options t os).sessions ≡ []) × (pos 0 <ℤ (apply_options t os).max_session_age)
unfolding apply_options
apply_options-fresh [] t e h = (e, h)
apply_options-fresh (with_state_file p ∷ os) t e h =
    apply_options-fresh os (apply_option t (with_state_file p)) (ground arith) (ground arith)
apply_options-fresh (with_max_session_age d ∷ os) t e h =
    apply_options-fresh os (apply_option t (with_max_session_age d)) (ground arith) (ground arith)

-- Whatever the configuration and the options, a negative age among them, a new tracker is valid.
pub new_tracker-IsValid :
    (now : ℕ) (cfg : Option SessionConfig) (os : List TrackerOption)
    → IsValid (new_tracker now cfg os)
unfolding new_tracker
new_tracker-IsValid now cfg os =
    let (e, h) = apply_options-fresh os (initial now cfg) refl (ground arith) in
    record { unique_keys = rw e tt; entries = rw e tt; age_positive = h }
