-- ===== src/Session/Unpoison/Codes.antt =====
-- What a parsed token and an acknowledgement say: only well-formed codes, and every poison code.
use claude_hooks.Common.{
  ℕ, ◌≡◌, ◌≢◌, ◌↔◌, refl, sym, ◌∙◌, Bool, true, false, ◌||◌, List, [], ◌∷◌, Option, none, some, inl,
  inr, arith, Bool-cases, All,
}
use mathlib.Core.Bool.{false≢true}
use claude_hooks.Common.Text.{Text, is_empty, trim_space, split, cut, text_eq, contains}
use claude_hooks.Common.Result.{Result, ok, err, ◌>>=◌, OnOk}
use claude_hooks.Shell.{ShellParser, is_upper, is_digit, upper_run, all_digits, is_error_code}
use claude_hooks.Session.Unpoison.{
  UnpoisonError, invalid_token, UnpoisonToken, ParseResult, valid_codes, parse_codes, parse_parts,
  parse_trimmed, parse_token, unacked, acknowledge, check_full, check, parse, new_unpoison_parser,
}

abbrev pub IsCode : Text → Type 0
IsCode c = is_error_code c ≡ true

-- A byte of a code.
abbrev pub IsPlain : ℕ → Type 0
IsPlain c = (is_upper c || is_digit c) ≡ true

all_digits-IsPlain : (s : Text) → all_digits s ≡ true → All IsPlain s
unfolding all_digits
all_digits-IsPlain [] h = tt
all_digits-IsPlain (c ∷ s) h = (ground arith, all_digits-IsPlain s (ground arith))

upper_run-IsPlain : (s : Text) → all_digits (upper_run s).1 ≡ true → All IsPlain s
unfolding upper_run
upper_run-IsPlain [] h = tt
upper_run-IsPlain (c ∷ s) h = elim (Bool-cases (is_upper c)) [
  | inl up ↦ (rw up, upper_run-IsPlain s (rw up at h))
  | inr low ↦ all_digits-IsPlain (c ∷ s) (rw low at h)
]

pub IsCode-IsPlain : (s : Text) → IsCode s → All IsPlain s
unfolding is_error_code
IsCode-IsPlain s h = upper_run-IsPlain s (ground arith)

pub IsCode-ne_nil : (s : Text) → IsCode s → is_empty s ≡ false
unfolding is_error_code
IsCode-ne_nil [] h = cc
IsCode-ne_nil (c ∷ s) h = refl

keep-IsCode :
    (c : Text) (r : Result UnpoisonError (List Text))
    → IsCode c
    → OnOk (All IsCode) r
    → OnOk (All IsCode) (r >>= λ vs. ok (c ∷ vs))
keep-IsCode c (ok vs) h k = (h, k)
keep-IsCode c (err e) h k = tt

valid_codes-IsCode : (cs : List Text) → OnOk (All IsCode) (valid_codes cs)
unfolding valid_codes
valid_codes-IsCode [] = tt
valid_codes-IsCode (c ∷ cs) = elim (Bool-cases (is_empty (trim_space c))) [
  | inl blank ↦ rw blank (valid_codes-IsCode cs)
  | inr ne ↦ elim (Bool-cases (is_error_code (trim_space c))) [
    | inl good ↦ rw (ne, good) (keep-IsCode _ (valid_codes cs) good (valid_codes-IsCode cs))
    | inr bad ↦ rw (ne, bad) tt
  ]
]

-- At least one code, and every one well formed.
abbrev pub GoodToken : UnpoisonToken → Type 0
GoodToken t = (t.acked ≢ []) × All IsCode t.acked

parse_codes-GoodToken : (raw codes_str : Text) → OnOk GoodToken (parse_codes raw codes_str)
unfolding parse_codes
parse_codes-GoodToken raw codes_str = elim (Bool-cases (is_empty codes_str)) [
  | inl empty ↦ rw empty tt
  | inr ne ↦
      rw ne (go (valid_codes (split b',' codes_str)) (valid_codes-IsCode (split b',' codes_str)))
]
  where
    go :
        (r : Result UnpoisonError (List Text))
        → OnOk (All IsCode) r
        → OnOk GoodToken (
            r >>= λ vs. elim vs [
              | [] ↦ err invalid_token
              | v ∷ rest ↦ ok (record { acked = v ∷ rest; raw = raw })
            ])
    go (ok []) h = tt
    go (ok (v ∷ rest)) h = ((λ e. cc), h)
    go (err e) h = tt

parse_parts-GoodToken :
    (prefix raw : Text) (p : Text × Option Text) → OnOk GoodToken (parse_parts prefix raw p)
unfolding parse_parts
parse_parts-GoodToken prefix raw (before, none) = tt
parse_parts-GoodToken prefix raw (before, some codes_str) =
    elim (Bool-cases (text_eq before prefix)) [
      | inl same ↦ rw same (parse_codes-GoodToken raw codes_str)
      | inr other ↦ rw other tt
    ]

parse_trimmed-GoodToken : (prefix raw : Text) → OnOk GoodToken (parse_trimmed prefix raw)
unfolding parse_trimmed
parse_trimmed-GoodToken prefix raw = elim (Bool-cases (is_empty raw)) [
  | inl empty ↦ rw empty tt
  | inr ne ↦ rw ne (parse_parts-GoodToken prefix raw (cut b':' raw))
]

-- Whatever its text, a token that is accepted names at least one code, and each of its codes is
-- two to ten capitals followed by one to five digits.
pub parse_token-GoodToken : (prefix text : Text) → OnOk GoodToken (parse_token prefix text)
unfolding parse_token
parse_token-GoodToken prefix text = parse_trimmed-GoodToken prefix (trim_space text)

-- The codes that are left are those of the session that the token does not name.
unacked_nil_iff :
    (acked poison_codes : List Text)
    → (unacked acked poison_codes ≡ []) ↔ All (λ c. contains acked c ≡ true) poison_codes
unacked_nil_iff acked [] = (λ _. tt, λ _. refl)
unacked_nil_iff acked (c ∷ cs) = elim (Bool-cases (contains acked c)) [
  | inl named ↦
      rw named (λ h. (refl, (unacked_nil_iff acked cs).0 h), λ h. (unacked_nil_iff acked cs).1 h.1)
  | inr missing ↦ rw missing ((λ h. cc), (λ h. cc))
]

nil_test_iff :
    (l : List Text) → (elim l as (λ _. Bool) [ [] ↦ true | c ∷ rest ↦ false ] ≡ true) ↔ (l ≡ [])
nil_test_iff [] = (λ _. refl, λ _. refl)
nil_test_iff (c ∷ l) = ((λ h. cc), (λ h. cc))

-- The acknowledgement is granted exactly when the token names every poison code, and otherwise
-- reports the codes that it does not name.
pub acknowledge_iff :
    (cs : List Text) (r : ParseResult)
    → let a = acknowledge cs (some r) in
      ((a.acknowledged ≡ true) ↔ All (λ c. contains r.token.acked c ≡ true) cs)
      × (a.unacknowledged ≡ unacked r.token.acked cs)
unfolding acknowledge
acknowledge_iff cs r =
    let missing = unacked r.token.acked cs in
    let names = unacked_nil_iff r.token.acked cs in
    (
      ((λ h. names.0 ((nil_test_iff missing).0 h)), (λ h. (nil_test_iff missing).1 (names.1 h))),
      refl,
    )

module _ (sh : ShellParser) (command c : Text) (cs : List Text) where
  check_found :
      (r : ParseResult)
      → parse (new_unpoison_parser sh []) command ≡ ok (some r)
      → (check sh command (c ∷ cs)).0 ≡ (acknowledge (c ∷ cs) (some r)).acknowledged
  unfolding check_full check
  check_found r e =
      rw (e, check_full, check)
        (elim (Bool-cases (acknowledge (c ∷ cs) (some r)).acknowledged) [
          | inl a ↦ rw a
          | inr a ↦ rw a
        ])

  check_not_found :
      (x : Result UnpoisonError (Option ParseResult))
      → parse (new_unpoison_parser sh []) command ≡ x
      → ((r : ParseResult) → x ≢ ok (some r))
      → (check sh command (c ∷ cs)).0 ≡ false
  unfolding check_full check
  check_not_found (ok none) e h = rw (e, check_full, check) (unfold acknowledge in refl)
  check_not_found (ok (some r)) e h = absurd (h r refl)
  check_not_found (err x) e h = rw (e, check_full, check)

  -- A command acknowledges a poisoned session with codes exactly when it parses as a shell command
  -- that carries a token which names all of them.
  pub check_iff : ((check sh command (c ∷ cs)).0 ≡ true) ↔ (
      (r : ParseResult) × (parse (new_unpoison_parser sh []) command ≡ ok (some r))
      × All (λ p. contains r.token.acked p ≡ true) (c ∷ cs))
  check_iff = (
    (λ h. found h (parse (new_unpoison_parser sh []) command) refl),
    (λ (r, e, named). check_found r e ∙ (acknowledge_iff (c ∷ cs) r).0.1 named),
  )
    where
      found :
          (check sh command (c ∷ cs)).0 ≡ true
          → (x : Result UnpoisonError (Option ParseResult))
          → parse (new_unpoison_parser sh []) command ≡ x
          → (r : ParseResult) × (parse (new_unpoison_parser sh []) command ≡ ok (some r))
            × All (λ p. contains r.token.acked p ≡ true) (c ∷ cs)
      found h (ok (some r)) e = (r, e, (acknowledge_iff (c ∷ cs) r).0.0 (sym (check_found r e) ∙ h))
      found h (ok none) e = absurd (false≢true (sym (check_not_found _ e (λ r q. cc)) ∙ h))
      found h (err x) e = absurd (false≢true (sym (check_not_found _ e (λ r q. cc)) ∙ h))
