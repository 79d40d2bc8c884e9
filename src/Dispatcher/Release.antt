-- ===== src/Dispatcher/Release.antt =====
-- What a poisoned session gets from a dispatch: one error and no other effect, or its release
-- (internal/dispatcher/dispatcher.go, session_error.go).
use claude_hooks.Common.{
  ℕ, ◌≡◌, ◌↔◌, ◌⊎◌, refl, sym, ◌∙◌, true, false, List, [], ◌∷◌, ◌++◌, Option, none, some, inl, inr,
  arith, Bool-cases, Option-cases, All, is_some,
}
use claude_hooks.Common.Text.{Text, codes, is_empty, contains}
use claude_hooks.Common.Map.{lookup, lookup-insert_self}
use claude_hooks.Common.Result.{Result, ok, err}
use claude_hooks.Hook.{Context, has_session_id}
use claude_hooks.Shell.{ShellParser}
use claude_hooks.Session.Tracker.{Tracker, unpoison}
use claude_hooks.Session.Unpoison.{
  UnpoisonError, ParseResult, parse, new_unpoison_parser, check_full, acknowledge,
  contains_unpoison_attempt,
}
use claude_hooks.Session.Unpoison.Codes.{acknowledge_iff}
use claude_hooks.Dispatcher.{ValidationError, extract_session_poison_codes}
use claude_hooks.Dispatcher.Dispatch.{
  Dispatcher, AuditEntry, State, Readings, log_session_audit_entry, release, release_source,
  pointed_codes,
}

-- Errors that block without a reference leave a session no codes.
unreferenced :
    (es : List ValidationError)
    → All (λ e. e.reference ≡ []) es
    → extract_session_poison_codes es ≡ []
unfolding extract_session_poison_codes
unreferenced [] h = refl
unreferenced (e ∷ es) h = rw (h.0, unreferenced es h.1) (ground arith)

-- A session that is poisoned by errors without references is released by any command that is not
-- empty, with or without a token.
pub unreferenced-released :
    (sh : ShellParser) (command : Text) (es : List ValidationError)
    → All (λ e. e.reference ≡ []) es
    → is_empty command ≡ false
    → release_source sh command (extract_session_poison_codes es) ≡ some (codes "env_var")
unfolding release_source
unreferenced-released sh command es h ne = rw (unreferenced es h, ne, check_full)

module _ (sh : ShellParser) (command c : Text) (cs : List Text) where
  -- The token of the command names every code.
  abbrev pub Names : ParseResult → Type 0
  Names r = All (λ p. contains r.token.acked p ≡ true) (c ∷ cs)

  -- What releases a session with codes.
  abbrev pub Releases : Type 0
  Releases =
      ((r : ParseResult) × (parse (new_unpoison_parser sh []) command ≡ ok (some r)) × Names r)
      ⊎ ((e : UnpoisonError) × (parse (new_unpoison_parser sh []) command ≡ err e)
          × (contains_unpoison_attempt command ≡ true))

  acknowledged_iff :
      (r : ParseResult)
      → parse (new_unpoison_parser sh []) command ≡ ok (some r)
      → is_empty command ≡ false
      → (is_some (release_source sh command (c ∷ cs)) ≡ true) ↔ Names r
  unfolding release_source
  acknowledged_iff r e ne = elim (Bool-cases (acknowledge (c ∷ cs) (some r)).acknowledged) [
    | inl granted ↦
        rw (ne, e, granted, check_full, release_source)
          ((λ _. (acknowledge_iff (c ∷ cs) r).0.0 granted), (λ _. refl))
    | inr denied ↦
        rw (ne, e, denied, check_full, release_source)
          ((λ h. cc), (λ n. sym denied ∙ (acknowledge_iff (c ∷ cs) r).0.1 n))
  ]

  not_found_stays :
      parse (new_unpoison_parser sh []) command ≡ ok none
      → is_empty command ≡ false
      → release_source sh command (c ∷ cs) ≡ none
  unfolding release_source
  not_found_stays e ne = rw (ne, e, check_full, release_source, acknowledge)

  error_iff :
      (x : UnpoisonError)
      → parse (new_unpoison_parser sh []) command ≡ err x
      → is_empty command ≡ false
      → (is_some (release_source sh command (c ∷ cs)) ≡ true)
        ↔ (contains_unpoison_attempt command ≡ true)
  unfolding release_source
  error_iff x e ne = elim (Bool-cases (contains_unpoison_attempt command)) [
    | inl marked ↦ rw (ne, e, marked, check_full, release_source) ((λ _. refl), (λ _. refl))
    | inr plain ↦ rw (ne, e, plain, check_full, release_source) ((λ h. h), (λ h. h))
  ]

  -- A command that is not empty releases a session with codes exactly when its token names all of
  -- them, or when it cannot be checked but holds the mark of an attempt.
  pub release_source_iff :
      is_empty command ≡ false → (is_some (release_source sh command (c ∷ cs)) ≡ true) ↔ Releases
  release_source_iff ne = go (parse (new_unpoison_parser sh []) command) refl
    where
      go :
          (x : Result UnpoisonError (Option ParseResult))
          → parse (new_unpoison_parser sh []) command ≡ x
          → (is_some (release_source sh command (c ∷ cs)) ≡ true) ↔ Releases
      go (ok (some r)) e = (
        (λ h. inl (r, e, (acknowledged_iff r e ne).0 h)),
        (λ h. elim h [
          | inl (q, f, named) ↦ (acknowledged_iff q f ne).1 named
          | inr (x, f, marked) ↦ cc
        ]),
      )
      go (ok none) e = (
        (λ h. cc (not_found_stays e ne)),
        (λ h. elim h [ inl (q, f, named) ↦ cc | inr (x, f, marked) ↦ cc ]),
      )
      go (err x) e = (
        (λ h. inr (x, e, (error_iff x e ne).0 h)),
        (λ h. elim h [ inl (q, f, named) ↦ cc | inr (y, f, marked) ↦ (error_iff x e ne).1 marked ]),
      )

unpoison-no_codes :
    (now : ℕ) (sid : Text) (t : Tracker)
    → is_empty sid ≡ false
    → pointed_codes sid (unpoison now sid t) ≡ []
unfolding pointed_codes unpoison
unpoison-no_codes now sid t ne = elim (Option-cases (lookup sid t.sessions)) [
  | inl missing ↦ rw (pointed_codes, unpoison, ne, missing) (rw missing)
  | inr (info, e) ↦ rw (pointed_codes, unpoison, ne, e, lookup-insert_self)
]

module _ {S : Type 0} (d : Dispatcher S) (r : Readings) (ctx : Context)
    (named : has_session_id ctx ≡ true) where
  not_empty : is_empty ctx.session_id ≡ false
  not_empty = ground arith

  -- A release appends one entry to an enabled audit log, and the entry lists no codes, whatever
  -- codes the session had.
  pub release-logs_no_codes :
      (src : Text) (t : Tracker) (st : State S)
      → d.logs_audit ≡ true
      → (e : AuditEntry) × ((release d r ctx src t st).audit_log ≡ st.audit_log ++ (e ∷ []))
        × (e.entry_session ≡ ctx.session_id)
        × (e.source ≡ src)
        × (e.entry_codes ≡ [])
  unfolding release log_session_audit_entry
  release-logs_no_codes src t st on =
      rw (on, log_session_audit_entry)
        (_, refl, refl, refl, unpoison-no_codes r.at_release ctx.session_id t not_empty)
