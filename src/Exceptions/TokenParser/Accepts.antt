-- ===== src/Exceptions/TokenParser/Accepts.antt =====
-- Which exception tokens are accepted, and what they mean (internal/exceptions/token.go).
use claude_hooks.Common.{
  ℕ, ◌≡◌, refl, ◌∙◌, ap, false, ◌||◌, [], ◌∷◌, ◌++◌, Option, none, some, inl, inr, arith,
  Bool-cases, All, ◌==◌,
}
use claude_hooks.Common.Text.{
  Text, codes, is_empty, text_eq, text_eq_iff, trim_space, cut, is_space,
}
use claude_hooks.Common.TextLaws.{
  All-append, All-weaken, NotSpace, trim_space-NotSpace, Differs, cut-append,
}
use claude_hooks.Common.Result.{ok, OnOk}
use claude_hooks.Shell.{is_error_code}
use claude_hooks.Session.Unpoison.Codes.{IsCode, IsCode-IsPlain, IsPlain}
use claude_hooks.Session.Unpoison.RoundTrip.{code-NotSpace}
use claude_hooks.Exceptions.{Token}
use claude_hooks.Exceptions.TokenParser.{
  query_unescape, decode_reason, parse_code, parse_parts, parse_trimmed, parse_token,
}

-- A token of the prefix, with a well-formed code.
abbrev pub ExceptionToken : Text → Token → Type 0
ExceptionToken prefix t = (t.prefix ≡ prefix) × IsCode t.error_code

parse_code-ExceptionToken :
    (prefix raw : Text) (p : Text × Option Text)
    → OnOk (ExceptionToken prefix) (parse_code prefix raw p)
unfolding parse_code
parse_code-ExceptionToken prefix raw (c, why) = elim (Bool-cases (is_error_code c)) [
  | inl good ↦ rw good (refl, good)
  | inr bad ↦ rw bad tt
]

parse_parts-ExceptionToken :
    (prefix raw : Text) (p : Text × Option Text)
    → OnOk (ExceptionToken prefix) (parse_parts prefix raw p)
unfolding parse_parts
parse_parts-ExceptionToken prefix raw (before, none) = tt
parse_parts-ExceptionToken prefix raw (before, some rest) =
    elim (Bool-cases (text_eq before prefix)) [
      | inl same ↦
          rw (same, (text_eq_iff before prefix).0 same)
            (parse_code-ExceptionToken prefix raw (cut b':' rest))
      | inr other ↦ rw other tt
    ]

parse_trimmed-ExceptionToken :
    (prefix raw : Text) → OnOk (ExceptionToken prefix) (parse_trimmed prefix raw)
unfolding parse_trimmed
parse_trimmed-ExceptionToken prefix raw = elim (Bool-cases (is_empty raw)) [
  | inl empty ↦ rw empty tt
  | inr ne ↦ rw ne (parse_parts-ExceptionToken prefix raw (cut b':' raw))
]

-- Whatever its text, a token that is accepted has the parser's prefix, and its code is two to ten
-- capitals followed by one to five digits.
pub parse_token-ExceptionToken :
    (prefix text : Text) → OnOk (ExceptionToken prefix) (parse_token prefix text)
unfolding parse_token
parse_token-ExceptionToken prefix text = parse_trimmed-ExceptionToken prefix (trim_space text)

-- A byte that is not decoded, nor white space.
abbrev pub Literal : ℕ → Type 0
Literal c = ((c == b'%' || c == b'+') ≡ false) × NotSpace c

query_unescape-Literal : (s : Text) → All Literal s → query_unescape s ≡ some s
unfolding query_unescape
query_unescape-Literal [] h = refl
query_unescape-Literal (c ∷ []) h = ground (arith, h.0.0)
query_unescape-Literal (c ∷ (a ∷ [])) h =
    rw (query_unescape-Literal (a ∷ []) h.1) (ground (arith, h.0.0))
query_unescape-Literal (c ∷ (a ∷ (b ∷ s))) h =
    rw (query_unescape-Literal (a ∷ (b ∷ s)) h.1) (ground (arith, h.0.0))

plain-Colon : (c : ℕ) → IsPlain c → Differs b':' c
plain-Colon c h = ground arith

-- The text of a token for a code with a reason that needs no encoding.
abbrev pub exception_text : Text → Text → Text
exception_text c why = codes "EXC" ++ (b':' ∷ (c ++ (b':' ∷ why)))

exception_text-NotSpace :
    (c why : Text) → IsCode c → All Literal why → All NotSpace (exception_text c why)
unfolding is_space
exception_text-NotSpace c why h lit = (
  refl,
  (
    refl,
    (
      refl,
      (
        refl,
        All-append NotSpace c (b':' ∷ why) (code-NotSpace c h)
            (refl, All-weaken Literal NotSpace (λ a l. l.1) why lit),
      ),
    ),
  ),
)

parse_parts_same :
    (c why raw : Text)
    → IsCode c
    → All Literal why
    → parse_parts (codes "EXC") raw (codes "EXC", some (c ++ (b':' ∷ why)))
      ≡ ok (record { prefix = codes "EXC"; error_code = c; reason = why; raw = raw })
unfolding parse_parts parse_code decode_reason
parse_parts_same c why raw h lit =
    let second : cut b':' (c ++ (b':' ∷ why)) ≡ (c, some why) =
      cut-append b':' c why
        (All-weaken IsPlain (Differs b':') plain-Colon c (IsCode-IsPlain c h)) in
    rw second (rw (h, query_unescape-Literal why lit))

-- A token EXC:CODE:REASON with a well-formed code and a reason without percent signs, plus signs
-- and white space is read back as that code and that reason.
pub parse_token-exception_text :
    (c why : Text)
    → IsCode c
    → All Literal why
    → parse_token (codes "EXC") (exception_text c why)
      ≡ ok (record {
        prefix = codes "EXC";
        error_code = c;
        reason = why;
        raw = exception_text c why;
      })
unfolding parse_token parse_trimmed
parse_token-exception_text c why h lit =
    let first : cut b':' (exception_text c why) ≡ (codes "EXC", some (c ++ (b':' ∷ why))) =
      cut-append b':' (codes "EXC") (c ++ (b':' ∷ why)) (refl, (refl, (refl, tt))) in
    rw (trim_space-NotSpace (exception_text c why) (exception_text-NotSpace c why h lit)) (
      ap (parse_parts (codes "EXC") (exception_text c why)) first
      ∙ parse_parts_same c why (exception_text c why) h lit)
