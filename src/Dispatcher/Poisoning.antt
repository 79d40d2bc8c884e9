-- ===== src/Dispatcher/Poisoning.antt =====
-- Blocking and poisoning agree: a session is poisoned after a dispatch exactly when the dispatch
-- blocked (internal/dispatcher/dispatcher.go with internal/session/tracker.go).
use claude_hooks.Common.{
  ℕ, ◌≤◌, ◌≡◌, refl, Bool, true, false, not, ◌||◌, List, Option, none, some, inl, inr, arith,
  Bool-cases, Option-cases,
}
use claude_hooks.Common.Int.{ℤ}
use claude_hooks.Common.Text.{Text, is_empty}
use claude_hooks.Common.Map.{lookup, lookup-insert_self}
use claude_hooks.Hook.{Context, has_session_id, get_command}
use claude_hooks.Session.{SessionInfo, info_poisoned, session_enabled, clean}
use claude_hooks.Session.Tracker.{
  Tracker, expired_at, is_poisoned, poison, unpoison, record_command, fresh_info, count_command,
}
use claude_hooks.Dispatcher.{ValidationError, any_blocks, create_poisoned_session_error}
use claude_hooks.Dispatcher.Dispatch.{
  Dispatcher, AuditAction, State, Readings, log_session_audit_entry, release, release_source,
  check_unpoison_acknowledgment, fast_fail, gate_poisoned, session_gate, validate_all, settle,
  after_gate, dispatch,
}

abbrev pub poisoned_entry : Option SessionInfo → Bool
poisoned_entry none = false
poisoned_entry (some info) = info_poisoned info

-- Whether the tracker holds the session as poisoned, whatever its age.
abbrev pub held_poisoned : Text → Option Tracker → Bool
held_poisoned sid none = false
held_poisoned sid (some t) = poisoned_entry (lookup sid t.sessions)

-- The entry is not poisoned, or it is too old at `now`.
abbrev pub released_at : ℤ → ℕ → Option SessionInfo → Bool
released_at max_age now none = true
released_at max_age now (some info) = not (info_poisoned info) || expired_at max_age now info

expired_later :
    (max_age : ℤ) (now later : ℕ) (info : SessionInfo)
    → now ≤ later
    → expired_at max_age now info ≡ true
    → expired_at max_age later info ≡ true
expired_later max_age now later info le h = ground arith

count_command-released :
    (max_age : ℤ) (now : ℕ) (info : SessionInfo)
    → released_at max_age now (some info) ≡ true
    → info_poisoned (count_command max_age now info) ≡ false
count_command-released max_age now info h = elim (Bool-cases (expired_at max_age now info)) [
  | inl e ↦ rw e
  | inr e ↦ ground (arith, e)
]

record_command-released :
    (now : ℕ) (sid : Text) (t : Tracker)
    → is_empty sid ≡ false
    → released_at t.max_session_age now (lookup sid t.sessions) ≡ true
    → held_poisoned sid (some (record_command now sid t)) ≡ false
unfolding record_command
record_command-released now sid t ne h =
    rw (ne, lookup-insert_self)
      (elim (Option-cases (lookup sid t.sessions)) [
        | inl missing ↦
            rw missing
              (count_command-released t.max_session_age now (fresh_info sid clean now) refl)
        | inr (info, e) ↦ rw e (count_command-released t.max_session_age now info (rw e at h))
      ])

poison-held :
    (now : ℕ) (sid : Text) (cs : List Text) (msg : Text) (t : Tracker)
    → is_empty sid ≡ false
    → held_poisoned sid (some (poison now sid cs msg t)) ≡ true
unfolding poison
poison-held now sid cs msg t ne = rw (ne, lookup-insert_self)

unpoison-released :
    (now : ℕ) (sid : Text) (t : Tracker)
    → is_empty sid ≡ false
    → poisoned_entry (lookup sid (unpoison now sid t).sessions) ≡ false
unfolding unpoison
unpoison-released now sid t ne = elim (Option-cases (lookup sid t.sessions)) [
  | inl missing ↦ rw (ne, missing, unpoison) (rw missing)
  | inr (info, e) ↦ rw (ne, e, lookup-insert_self, unpoison)
]

unpoison-config : (now : ℕ) (sid : Text) (t : Tracker) → (unpoison now sid t).config ≡ t.config
unfolding unpoison
unpoison-config now sid t = elim (Bool-cases (is_empty sid)) [
  | inl e ↦ rw e
  | inr ne ↦ rw ne (elim (Option-cases (lookup sid t.sessions)) [
    | inl missing ↦ rw missing
    | inr (info, e) ↦ rw e
  ])
]

not_poisoned-released :
    (max_age : ℤ) (now : ℕ) (o : Option SessionInfo)
    → poisoned_entry o ≡ false
    → released_at max_age now o ≡ true
not_poisoned-released max_age now none h = refl
not_poisoned-released max_age now (some info) h = rw h

module _ {S : Type 0} (d : Dispatcher S) (r : Readings) (ctx : Context) where
  pub log-tracker :
      (now : ℕ) (act : AuditAction) (cs : List Text) (src msg : Text) (st : State S)
      → (log_session_audit_entry d now ctx act cs src msg st).tracker ≡ st.tracker
  unfolding log_session_audit_entry
  log-tracker now act cs src msg st = elim (Bool-cases d.logs_audit) [ inl e ↦ rw e | inr e ↦ rw e ]

  module _ (named : has_session_id ctx ≡ true) where
    not_empty : is_empty ctx.session_id ≡ false
    not_empty = ground arith

    settle-held :
        (es : List ValidationError) (t : Tracker) (st : State S)
        → session_enabled t.config ≡ true
        → released_at t.max_session_age r.at_end (lookup ctx.session_id t.sessions) ≡ true
        → held_poisoned ctx.session_id (settle d r ctx es (some t) st).tracker ≡ any_blocks es
    unfolding settle
    settle-held es t st on h =
        rw (on, named)
          (elim (Bool-cases (any_blocks es)) [
            | inl b ↦ rw (b, log-tracker) (poison-held r.at_end ctx.session_id _ _ t not_empty)
            | inr p ↦ rw p (record_command-released r.at_end ctx.session_id t not_empty h)
          ])

    -- What the gate leaves: the session held poisoned and an error that blocks, or the session
    -- free to go on.
    abbrev Passed : Tracker → Option (List ValidationError) × State S → Type 0
    Passed t (some es, st) = held_poisoned ctx.session_id st.tracker ≡ any_blocks es
    Passed t (none, st) =
        (t' : Tracker) × (st.tracker ≡ some t')
        × (t'.config ≡ t.config)
        × (released_at t'.max_session_age r.at_end (lookup ctx.session_id t'.sessions) ≡ true)

    release-tracker :
        (src : Text) (t : Tracker) (st : State S)
        → (release d r ctx src t st).tracker ≡ some (unpoison r.at_release ctx.session_id t)
    unfolding release
    release-tracker src t st = log-tracker r.at_release_log _ _ _ _ _

    gate_poisoned-Passed :
        (info : SessionInfo) (t : Tracker) (st : State S)
        → st.tracker ≡ some t
        → lookup ctx.session_id t.sessions ≡ some info
        → info_poisoned info ≡ true
        → Passed t (fast_fail d info (check_unpoison_acknowledgment d r ctx info t st))
    unfolding check_unpoison_acknowledgment create_poisoned_session_error
        claude_hooks.Dispatcher.poisoned_error
    gate_poisoned-Passed info t st held e p =
        elim (Option-cases (release_source d.shell (get_command ctx) info.poison_codes)) [
          | inl stays ↦
              rw (stays, check_unpoison_acknowledgment, create_poisoned_session_error, p, held, e) p
          | inr (src, goes) ↦
              rw (goes, check_unpoison_acknowledgment)
                (
                  unpoison r.at_release ctx.session_id t,
                  release-tracker src t st,
                  unpoison-config r.at_release ctx.session_id t,
                  not_poisoned-released ((unpoison r.at_release ctx.session_id t).max_session_age)
                      r.at_end _ (unpoison-released r.at_release ctx.session_id t not_empty),
                )
        ]

    poisoned_now :
        (info : SessionInfo) (t : Tracker)
        → lookup ctx.session_id t.sessions ≡ some info
        → expired_at t.max_session_age r.at_check info ≡ false
        → is_poisoned r.at_check ctx.session_id t ≡ (info_poisoned info, some info)
    unfolding is_poisoned
    poisoned_now info t e young = rw (is_poisoned, not_empty, e, young)

    expired_now :
        (info : SessionInfo) (t : Tracker)
        → lookup ctx.session_id t.sessions ≡ some info
        → expired_at t.max_session_age r.at_check info ≡ true
        → is_poisoned r.at_check ctx.session_id t ≡ (false, none)
    unfolding is_poisoned
    expired_now info t e old = rw (is_poisoned, not_empty, e, old)

    missing_now :
        (t : Tracker)
        → lookup ctx.session_id t.sessions ≡ none
        → is_poisoned r.at_check ctx.session_id t ≡ (false, none)
    unfolding is_poisoned
    missing_now t e = rw (is_poisoned, not_empty, e)

    module _ (in_order : r.at_check ≤ r.at_end) (t : Tracker) (st : State S) where
      gate-Passed :
          st.tracker ≡ some t
          → Passed t (gate_poisoned d r ctx (is_poisoned r.at_check ctx.session_id t) t st)
      gate-Passed held = elim (Option-cases (lookup ctx.session_id t.sessions)) [
        | inl missing ↦ rw (missing_now t missing) (t, held, refl, rw missing)
        | inr (info, e) ↦ elim (Bool-cases (expired_at t.max_session_age r.at_check info)) [
          | inl old ↦ rw (expired_now info t e old) (
            t,
            held,
            refl,
            rw e (
                ground
                  (arith, expired_later t.max_session_age r.at_check r.at_end info in_order old)),
          )
          | inr young ↦ elim (Bool-cases (info_poisoned info)) [
            | inl p ↦ rw (poisoned_now info t e young, p) (gate_poisoned-Passed info t st held e p)
            | inr p ↦ rw (poisoned_now info t e young, p) (t, held, refl, rw e (rw p))
          ]
        ]
      ]

      after_gate-held :
          (g : Option (List ValidationError) × State S)
          → session_enabled t.config ≡ true
          → Passed t g
          → held_poisoned ctx.session_id (after_gate d r ctx g).1.tracker
            ≡ any_blocks (after_gate d r ctx g).0
      after_gate-held (some es, st1) on h = h
      after_gate-held (none, st1) on (t', e, same, free) =
          rw e (settle-held (validate_all d ctx st1.checker_state).0 t' _ (rw same on) free)

      session_gate-Passed :
          (o : Option Tracker)
          → session_enabled t.config ≡ true
          → st.tracker ≡ some t
          → o ≡ some t
          → Passed t (session_gate d r ctx o st)
      unfolding session_gate
      session_gate-Passed o on held e = rw (e, session_gate, on, named) (gate-Passed held)

      -- With session tracking on, a session that has an identifier is held as poisoned after a
      -- dispatch exactly when the dispatch gave a blocking error, whatever the session was before,
      -- the clock not running backwards between the check and the end.
      pub blocked_iff_poisoned :
          session_enabled t.config ≡ true
          → st.tracker ≡ some t
          → held_poisoned ctx.session_id (dispatch d r ctx st).1.tracker
            ≡ any_blocks (dispatch d r ctx st).0
      unfolding dispatch
      blocked_iff_poisoned on held =
          after_gate-held (session_gate d r ctx st.tracker st) on
            (session_gate-Passed st.tracker on held held)
