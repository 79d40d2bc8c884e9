-- ===== src/GitValidators/CommitParser/Titles.antt =====
-- Titles of conventional commits, written and parsed back (parseTitle in
-- internal/validators/git/commit_parser.go).
use claude_hooks.Common.{
  ℕ, ◌≡◌, refl, sym, ap, ◌∙◌, Bool, true, false, not, ◌&&◌, ◌||◌, [], ◌∷◌, ◌++◌, none, some,
  if◌then◌else◌, if_true, if_false, All, arith, Bool-cases, inl, inr,
}
use mathlib.Core.List.{append_assoc}
use claude_hooks.Common.Text.{Text, codes, is_empty, contains_byte, take_until, drop_while, cut}
use claude_hooks.Common.Booleans.{false-true, and_left_not, and_right_not, and_right}
use claude_hooks.Common.TextLaws.{Differs, cut-append}
use claude_hooks.GitValidators.Branch.{all_bytes}
use claude_hooks.GitValidators.CommitParser.{
  TitleParseResult, is_word_byte, is_regex_space, is_scope_separator, runs, described,
  with_description, after_scope, after_kind, in_parens, parse_title,
}

abbrev pub scope_part : Text → Text
scope_part [] = []
scope_part (c ∷ s) = b'(' ∷ ((c ∷ s) ++ (b')' ∷ []))

abbrev pub mark_part : Bool → Text
mark_part true = codes "!"
mark_part false = []

-- The title that is written for its parts.
abbrev pub title_text : TitleParseResult → Text
title_text t =
    t.kind ++ (scope_part t.scope ++ (mark_part t.exclamation ++ (codes ": " ++ t.description)))

abbrev pub good_description : Text → Bool
good_description [] = false
good_description (c ∷ s) = not (is_regex_space c) && not (contains_byte 10 (c ∷ s))

abbrev pub good_scope : Text → Bool
good_scope s = is_empty s || runs is_word_byte is_scope_separator false s

abbrev pub good_kind : Text → Bool
good_kind s = not (is_empty s) && all_bytes is_word_byte s

not_left : (s : Text) (b : Bool) → (not (is_empty s) && b) ≡ true → is_empty s ≡ false
not_left [] b h = absurd (false-true h)
not_left (c ∷ s) b h = refl

take_until-append :
    (kind : Text) (c : ℕ) (s : Text)
    → all_bytes is_word_byte kind ≡ true
    → is_word_byte c ≡ false
    → take_until (λ x. not (is_word_byte x)) (kind ++ (c ∷ s)) ≡ kind
unfolding take_until
take_until-append [] c s k n = rw n refl
take_until-append (x ∷ kind) c s k n = ground (arith, take_until-append kind c s)

drop_while-append :
    (kind : Text) (c : ℕ) (s : Text)
    → all_bytes is_word_byte kind ≡ true
    → is_word_byte c ≡ false
    → drop_while is_word_byte (kind ++ (c ∷ s)) ≡ c ∷ s
unfolding drop_while
drop_while-append [] c s k n = rw n refl
drop_while-append (x ∷ kind) c s k n = ground (arith, drop_while-append kind c s)

described-good : (d : Text) → good_description d ≡ true → described (32 ∷ d) ≡ some d
unfolding described drop_while
described-good [] h = ground arith
described-good (c ∷ s) h =
    let space : is_regex_space c ≡ false =
      and_left_not (is_regex_space c) (contains_byte 10 (c ∷ s)) h in
    let newline : contains_byte 10 (c ∷ s) ≡ false =
      and_right_not (is_regex_space c) (contains_byte 10 (c ∷ s)) h in
    rw (space, newline) refl

runs-Differs :
    (run : Bool) (s : Text)
    → runs is_word_byte is_scope_separator run s ≡ true
    → All (Differs b')') s
unfolding runs
runs-Differs run [] h = tt
runs-Differs run (c ∷ s) h = elim (Bool-cases (is_word_byte c)) [
  | inl y ↦ (ground (arith, y), runs-Differs true s (rw y at h))
  | inr n ↦ elim (Bool-cases (is_scope_separator c && run)) [
    | inl z ↦ (ground (arith, z), runs-Differs false s (rw (n, z) at h))
    | inr z ↦ absurd (false-true (rw (n, z) at h))
  ]
]

after_scope-title :
    (kind scope : Text) (mark : Bool) (d : Text)
    → good_description d ≡ true
    → after_scope kind scope (mark_part mark ++ (codes ": " ++ d))
      ≡ some (record { kind = kind; scope = scope; exclamation = mark; description = d })
after_scope-title kind scope true d h = ap (with_description kind scope true) (described-good d h)
after_scope-title kind scope false d h = ap (with_description kind scope false) (described-good d h)

after_kind-title :
    (kind scope : Text) (mark : Bool) (d : Text)
    → good_scope scope ≡ true
    → good_description d ≡ true
    → after_kind kind (scope_part scope ++ (mark_part mark ++ (codes ": " ++ d)))
      ≡ some (record { kind = kind; scope = scope; exclamation = mark; description = d })
after_kind-title kind [] true d g h = after_scope-title kind [] true d h
after_kind-title kind [] false d g h = after_scope-title kind [] false d h
after_kind-title kind (c ∷ s) mark d g h =
    let rest = mark_part mark ++ (codes ": " ++ d) in
    ap (λ x. in_parens kind (cut b')' x)) (append_assoc (c ∷ s) (b')' ∷ []) rest)
    ∙ ap (in_parens kind) (cut-append b')' (c ∷ s) rest (runs-Differs false (c ∷ s) g))
    ∙ if_true (runs is_word_byte is_scope_separator false (c ∷ s)) _ _ g
    ∙ after_scope-title kind (c ∷ s) mark d h

-- What follows the type of a title, and its first byte, which is no part of a word.
abbrev after_type : TitleParseResult → Text
after_type t = scope_part t.scope ++ (mark_part t.exclamation ++ (codes ": " ++ t.description))

first_byte :
    (scope : Text) (mark : Bool) (d : Text)
    → (c : ℕ) × (s : Text) × (scope_part scope ++ (mark_part mark ++ (codes ": " ++ d)) ≡ c ∷ s)
      × (is_word_byte c ≡ false)
first_byte [] true d = (b'!', codes ": " ++ d, refl, refl)
first_byte [] false d = (b':', 32 ∷ d, refl, refl)
first_byte (c ∷ s) mark d =
    (b'(', ((c ∷ s) ++ (b')' ∷ [])) ++ (mark_part mark ++ (codes ": " ++ d)), refl, refl)

-- A title written for a type of word characters, an empty scope or one of words with single slashes
-- and dashes between them, with or without a mark, and a description that has no line break and does
-- not begin with white space, is parsed into these parts again.
pub parse_title-title_text :
    (t : TitleParseResult)
    → good_kind t.kind ≡ true
    → good_scope t.scope ≡ true
    → good_description t.description ≡ true
    → parse_title (title_text t) ≡ some t
unfolding parse_title
parse_title-title_text t k g h =
    let (c, s, starts, no_word) = first_byte t.scope t.exclamation t.description in
    let filled : is_empty t.kind ≡ false = not_left t.kind _ k in
    let word : all_bytes is_word_byte t.kind ≡ true = and_right (not (is_empty t.kind)) _ k in
    let taken : take_until (λ x. not (is_word_byte x)) (title_text t) ≡ t.kind =
      ap (λ x. take_until (λ y. not (is_word_byte y)) (t.kind ++ x)) starts
      ∙ take_until-append t.kind c s word no_word in
    let left : drop_while is_word_byte (title_text t) ≡ after_type t =
      ap (λ x. drop_while is_word_byte (t.kind ++ x)) starts
      ∙ drop_while-append t.kind c s word no_word
      ∙ sym starts in
    ap (λ k'. if is_empty k' then none else after_kind k' (drop_while is_word_byte (title_text t)))
      taken
    ∙ if_false (is_empty t.kind) _ _ filled
    ∙ ap (after_kind t.kind) left
    ∙ after_kind-title t.kind t.scope t.exclamation t.description g h
