-- ===== src/GitValidators/CommitMessage/SilentRules.antt =====
-- What a rule for commit messages that reports nothing says of the message
-- (internal/validators/git/commit_rules.go).
use claude_hooks.Common.{
  ℕ, suc, ◌⊎◌, ◌≡◌, refl, sym, ap, ◌∙◌, Bool, true, false, not, ◌&&◌, ◌||◌, List, [], ◌∷◌, ◌++◌,
  Option, none, some, if_true, if_false, length, All, Bool-cases, inl, inr,
}
use claude_hooks.Common.Booleans.{false-true, or_false_left, not-false}
use claude_hooks.Common.Int.{ℤ, pos, leb_ℤ, ltb_ℤ, ◌+ℤ◌}
use claude_hooks.Common.Text.{Text, is_empty, trim_space}
use claude_hooks.GitValidators.{no_args}
use claude_hooks.GitValidators.CommitParser.{ParsedCommit, is_revert_commit}
use claude_hooks.GitValidators.CommitRules.{
  CommitRule, RuleResult, failed_if_any, has_url, long_lines, rune_count, title_length_rule,
  conventional_format_rule,
}
use claude_hooks.GitValidators.CommitMessage.{
  CommitMessageConfig, run_rules, rule_if, with_errors, get_title_max_length,
  should_allow_unlimited_revert_title,
}

-- A rule that reports no error.
abbrev pub silent : Option RuleResult → Bool
silent none = true
silent (some r) = no_args r.errors

with_errors-silent :
    (o : Option RuleResult) (rest : List RuleResult)
    → with_errors o rest ≡ []
    → (silent o ≡ true) × (rest ≡ [])
with_errors-silent none rest h = (refl, h)
with_errors-silent (some r) rest h = elim (Bool-cases (no_args r.errors)) [
  | inl y ↦ (y, sym (if_true (no_args r.errors) _ _ y) ∙ h)
  | inr n ↦ let bad : (r ∷ rest) ≡ [] = sym (if_false (no_args r.errors) _ _ n) ∙ h in absurd (cc)
]

pub run_rules-silent :
    (rules : List CommitRule) (c : ParsedCommit) (message : Text)
    → run_rules rules c message ≡ []
    → All (λ r. silent (r.validate c message) ≡ true) rules
unfolding run_rules
run_rules-silent [] c message h = tt
run_rules-silent (r ∷ rules) c message h =
    let parts = with_errors-silent (r.validate c message) (run_rules rules c message) h in
    (parts.0, run_rules-silent rules c message parts.1)

pub append-none : (xs ys : List RuleResult) → xs ++ ys ≡ [] → (xs ≡ []) × (ys ≡ [])
append-none [] ys h = (refl, h)
append-none (x ∷ xs) ys h = absurd (cc)

pub All-drop : (P : CommitRule → Type 0) (xs ys : List CommitRule) → All P (xs ++ ys) → All P ys
All-drop P [] ys h = h
All-drop P (x ∷ xs) ys h = All-drop P xs ys h.1

pub failed_if_any-silent :
    (error_code : Text) (es : List Text) → silent (failed_if_any error_code es) ≡ true → es ≡ []
failed_if_any-silent error_code [] h = refl
failed_if_any-silent error_code (e ∷ es) h = absurd (false-true h)

-- The title has the length that is allowed.
abbrev pub title_fits : CommitMessageConfig → Text → Bool
title_fits c title =
    (should_allow_unlimited_revert_title c && is_revert_commit title)
    || leb_ℤ (pos (rune_count title)) (get_title_max_length c)

pub title_length-fits :
    (max : ℤ) (unlimited : Bool) (p : ParsedCommit) (message : Text)
    → silent ((title_length_rule max unlimited).validate p message) ≡ true
    → ((unlimited && is_revert_commit p.title) || leb_ℤ (pos (rune_count p.title)) max) ≡ true
unfolding title_length_rule
title_length-fits max unlimited p message h =
    elim (Bool-cases (unlimited && is_revert_commit p.title)) [
      | inl y ↦ rw y refl
      | inr n ↦ elim (Bool-cases (leb_ℤ (pos (rune_count p.title)) max)) [
        | inl y ↦ rw (n, y) refl
        | inr m ↦ absurd (
            false-true (
              sym (
                ap silent (
                  if_false (unlimited && is_revert_commit p.title) _ _ n
                  ∙ if_false (leb_ℤ (pos (rune_count p.title)) max) _ _ m))
              ∙ h))
      ]
    ]

-- A title of a revert, or a commit that parses with a scope if one is required.
pub conventional-valid :
    (types : List Text) (require : Bool) (p : ParsedCommit) (message : Text)
    → silent ((conventional_format_rule types require).validate p message) ≡ true
    → (is_revert_commit p.title ≡ true)
      ⊎ ((p.valid ≡ true) × ((require && is_empty p.commit_scope) ≡ false))
unfolding conventional_format_rule
conventional-valid types require p message h = elim (Bool-cases (is_revert_commit p.title)) [
  | inl y ↦ inl y
  | inr n ↦ elim (Bool-cases (not p.valid || not (is_empty p.parse_error))) [
    | inl bad ↦ absurd (
        false-true (
          sym (
            ap silent (
              if_false (is_revert_commit p.title) _ _ n
              ∙ if_true (not p.valid || not (is_empty p.parse_error)) _ _ bad))
          ∙ h))
    | inr good ↦ elim (Bool-cases (require && is_empty p.commit_scope)) [
      | inl bad ↦ absurd (
          false-true (
            sym (
              ap silent (
                if_false (is_revert_commit p.title) _ _ n
                ∙ if_false (not p.valid || not (is_empty p.parse_error)) _ _ good
                ∙ if_true (require && is_empty p.commit_scope) _ _ bad))
            ∙ h))
      | inr fine ↦ inr (
        not-false p.valid (or_false_left (not p.valid) (not (is_empty p.parse_error)) good),
        fine,
      )
    ]
  ]
]

-- A line that is blank, has a URL or is not too long.
abbrev pub line_fits : ℤ → Text → Bool
line_fits limit line =
    is_empty (trim_space line) || (has_url line || not (ltb_ℤ limit (pos (length line))))

pub long_lines-fits :
    (max tolerance : ℤ) (n : ℕ) (lines : List Text)
    → long_lines max tolerance n lines ≡ []
    → All (λ line. line_fits (max +ℤ tolerance) line ≡ true) lines
unfolding long_lines
long_lines-fits max tolerance n [] h = tt
long_lines-fits max tolerance n (line ∷ lines) h = elim (Bool-cases (is_empty (trim_space line))) [
  | inl y ↦ (
    rw y refl,
    long_lines-fits max tolerance (suc n) lines
        (sym (if_true (is_empty (trim_space line)) _ _ y) ∙ h),
  )
  | inr b ↦ elim (Bool-cases (has_url line)) [
    | inl y ↦ (
      rw (b, y) refl,
      long_lines-fits max tolerance (suc n) lines
          (sym (if_false (is_empty (trim_space line)) _ _ b ∙ if_true (has_url line) _ _ y) ∙ h),
    )
    | inr u ↦ elim (Bool-cases (ltb_ℤ (max +ℤ tolerance) (pos (length line)))) [
      | inl y ↦
          let bad =
            sym (
              if_false (is_empty (trim_space line)) _ _ b
              ∙ if_false (has_url line) _ _ u
              ∙ if_true (ltb_ℤ (max +ℤ tolerance) (pos (length line))) _ _ y)
            ∙ h in
          absurd (cc)
      | inr s ↦ (
        rw (b, u, s) refl,
        long_lines-fits max tolerance (suc n) lines (
            sym (
              if_false (is_empty (trim_space line)) _ _ b
              ∙ if_false (has_url line) _ _ u
              ∙ if_false (ltb_ℤ (max +ℤ tolerance) (pos (length line))) _ _ s)
            ∙ h),
      )
    ]
  ]
]

pub All-conventional :
    (P : CommitRule → Type 0) (asked : Bool) (r : CommitRule) (rest : List CommitRule)
    → asked ≡ true
    → All P (rule_if asked r ++ rest)
    → P r
All-conventional P true r rest e h = h.0
All-conventional P false r rest e h = absurd (false-true e)
