-- ===== src/GitValidators/CommitParser/Kept.antt =====
-- What the body and the footers of a commit message leave alone (Parse and extractBodyAndFooters in
-- internal/validators/git/commit_parser.go).
use claude_hooks.Common.{
  ◌⊎◌, ℕ, ◌≡◌, refl, sym, ap, ◌∙◌, true, false, not, List, [], ◌∷◌, Option, none, some,
  if◌then◌else◌, if_true, if_false, leb, length, drop, Bool-cases, inl, inr,
}
use mathlib.Core.Path.{subst}
use claude_hooks.Common.Booleans.{false-true, not-false}
use claude_hooks.Common.Text.{Text, is_empty, trim_space, split}
use claude_hooks.GitValidators.CommitParser.{
  ParsedCommit, TitleParseResult, add_footer, match_footer, extract_footers_from_lines, split_body,
  body_of, find_footer_start_index, drop_blank, extract_body_and_footers, check_valid_type,
  is_valid_type, with_title, unparsed, parse_title, parse_commit, extract_title, is_revert_commit,
}

-- The fields that come from the title.
abbrev Kept : ParsedCommit → ParsedCommit → Type 0
Kept r q = (q.commit_type ≡ r.commit_type) × (q.commit_scope ≡ r.commit_scope) × (q.title ≡ r.title)

add_footer-Kept : (m : Option (Text × Text)) (r : ParsedCommit) → Kept r (add_footer m r)
add_footer-Kept none r = (refl, refl, refl)
add_footer-Kept (some (token, value)) r = (refl, refl, refl)

footer_line-Kept :
    (line : Text) (r : ParsedCommit)
    → Kept r
        (if is_empty (trim_space line) then r else add_footer (match_footer (trim_space line)) r)
footer_line-Kept line r = elim (Bool-cases (is_empty (trim_space line))) [
  | inl y ↦ subst (Kept r) (sym (if_true (is_empty (trim_space line)) _ _ y)) (refl, refl, refl)
  | inr n ↦
      subst (Kept r) (sym (if_false (is_empty (trim_space line)) _ _ n))
        (add_footer-Kept (match_footer (trim_space line)) r)
]

Kept-trans : (r q p : ParsedCommit) → Kept r q → Kept q p → Kept r p
Kept-trans r q p h k = (k.0 ∙ h.0, k.1 ∙ h.1, k.2 ∙ h.2)

extract_footers-Kept :
    (lines : List Text) (r : ParsedCommit) → Kept r (extract_footers_from_lines lines r)
unfolding extract_footers_from_lines
extract_footers-Kept [] r = (refl, refl, refl)
extract_footers-Kept (line ∷ lines) r =
    let q =
      if is_empty (trim_space line) then r else add_footer (match_footer (trim_space line)) r in
    Kept-trans r q (extract_footers_from_lines lines q) (footer_line-Kept line r)
      (extract_footers-Kept lines q)

split_body-Kept : (i : ℕ) (lines : List Text) (r : ParsedCommit) → Kept r (split_body i lines r)
split_body-Kept i lines r = elim (Bool-cases (leb (length lines) i)) [
  | inl y ↦ subst (Kept r) (sym (if_true (leb (length lines) i) _ _ y)) (refl, refl, refl)
  | inr n ↦
      subst (Kept r) (sym (if_false (leb (length lines) i) _ _ n))
        (extract_footers-Kept (drop i lines) r)
]

body_of-Kept : (lines : List Text) (r : ParsedCommit) → Kept r (body_of lines r)
body_of-Kept [] r = (refl, refl, refl)
body_of-Kept (line ∷ lines) r =
    split_body-Kept (find_footer_start_index (line ∷ lines)) (line ∷ lines) r

extract_body-Kept :
    (message : Text) (r : ParsedCommit) → Kept r (extract_body_and_footers message r)
unfolding extract_body_and_footers
extract_body-Kept message r = body_of-Kept (drop_blank (drop 1 (split 10 message))) r

-- A commit that is valid has a type that is valid, and what it has of the title is kept.
check_valid_type-Kept : (types : List Text) (r : ParsedCommit) → Kept r (check_valid_type types r)
check_valid_type-Kept types r = elim (Bool-cases (not (is_valid_type types r.commit_type))) [
  | inl y ↦
      subst (Kept r) (sym (if_true (not (is_valid_type types r.commit_type)) _ _ y))
        (refl, refl, refl)
  | inr n ↦
      subst (Kept r) (sym (if_false (not (is_valid_type types r.commit_type)) _ _ n))
        (refl, refl, refl)
]

check_valid_type-valid :
    (types : List Text) (r : ParsedCommit)
    → (check_valid_type types r).valid ≡ true
    → is_valid_type types r.commit_type ≡ true
check_valid_type-valid types r h = elim (Bool-cases (not (is_valid_type types r.commit_type))) [
  | inl y ↦ absurd (
      false-true (
        ap (λ (q : ParsedCommit). q.valid)
          (sym (if_true (not (is_valid_type types r.commit_type)) _ _ y))
        ∙ h))
  | inr n ↦ not-false (is_valid_type types r.commit_type) n
]

-- The title of a commit that is valid: one of a revert, or one that parses, with a valid type.
abbrev pub TitleValid : List Text → Text → Text → Type 0
TitleValid types title scope =
    (is_revert_commit title ≡ true)
    ⊎ ((t : TitleParseResult) × (parse_title title ≡ some t)
        × (is_valid_type types t.kind ≡ true)
        × (scope ≡ t.scope))

with_title-valid :
    (types : List Text) (message title : Text) (o : Option TitleParseResult)
    → (with_title types message title o).valid ≡ true
    → ((t : TitleParseResult) × (o ≡ some t)
        × (is_valid_type types t.kind ≡ true)
        × ((with_title types message title o).commit_scope ≡ t.scope))
      × ((with_title types message title o).title ≡ title)
with_title-valid types message title none h = absurd (false-true h)
with_title-valid types message title (some t) h =
    let start : ParsedCommit = record (unparsed title message []) {
      commit_type = t.kind;
      commit_scope = t.scope;
      commit_description = t.description;
      is_breaking_change = t.exclamation;
    } in
    let filled = extract_body_and_footers message start in
    let kept = extract_body-Kept message start in
    let same = check_valid_type-Kept types filled in
    (
      (
        t,
        refl,
        subst (λ k. is_valid_type types k ≡ true) kept.0 (check_valid_type-valid types filled h),
        same.1 ∙ kept.1,
      ),
      same.2 ∙ kept.2,
    )

with_title-title :
    (types : List Text) (message title : Text) (o : Option TitleParseResult)
    → (with_title types message title o).title ≡ title
with_title-title types message title none = refl
with_title-title types message title (some t) =
    let start : ParsedCommit = record (unparsed title message []) {
      commit_type = t.kind;
      commit_scope = t.scope;
      commit_description = t.description;
      is_breaking_change = t.exclamation;
    } in
    let filled = extract_body_and_footers message start in
    (check_valid_type-Kept types filled).2 ∙ (extract_body-Kept message start).2

pub parse_commit-title :
    (types : List Text) (message : Text)
    → is_empty message ≡ false
    → (parse_commit types message).title ≡ extract_title message
unfolding parse_commit
parse_commit-title types message e =
    let title = extract_title message in
    let P = λ (r : ParsedCommit). r.title ≡ title in
    subst P (sym (if_false (is_empty message) _ _ e)) (elim (Bool-cases (is_revert_commit title)) [
      | inl y ↦ subst P (sym (if_true (is_revert_commit title) _ _ y)) refl
      | inr n ↦
          subst P (sym (if_false (is_revert_commit title) _ _ n))
            (with_title-title types message title (parse_title title))
    ])

pub parse_commit-valid :
    (types : List Text) (message : Text)
    → is_empty message ≡ false
    → (parse_commit types message).valid ≡ true
    → TitleValid types (extract_title message) (parse_commit types message).commit_scope
unfolding parse_commit
parse_commit-valid types message e =
    let title = extract_title message in
    let P = λ (r : ParsedCommit). r.valid ≡ true → TitleValid types title r.commit_scope in
    subst P (sym (if_false (is_empty message) _ _ e)) (elim (Bool-cases (is_revert_commit title)) [
      | inl y ↦ subst P (sym (if_true (is_revert_commit title) _ _ y)) (λ h. inl y)
      | inr n ↦
          subst P (sym (if_false (is_revert_commit title) _ _ n))
            (λ h. inr (with_title-valid types message title (parse_title title) h).0)
    ])
