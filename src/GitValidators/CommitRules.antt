-- ===== src/GitValidators/CommitRules.antt =====
-- The rules for commit messages (internal/validators/git/commit_rules.go). The fixed regular
-- expressions are written out; those of the configuration are a parameter, `compile`, from a pattern
-- to the first match in a text.
use claude_hooks.Common.{
  ℕ, suc, ◌==◌, Bool, true, false, not, ◌&&◌, ◌||◌, List, [], ◌∷◌, ◌++◌, Option, none, some,
  if◌then◌else◌, leb, ltb, length, take, drop, map,
}
use claude_hooks.Common.Int.{ℤ, pos, leb_ℤ, ltb_ℤ, ◌+ℤ◌}
use claude_hooks.Common.Text.{
  Text, codes, is_empty, contains_text, has_prefix, drop_while, trim_space, split, join, itoa,
}
use claude_hooks.Validator.Reference.{ref_of}
use claude_hooks.GitValidators.Templates.{cross}
use claude_hooks.GitValidators.CommitParser.{ParsedCommit, is_revert_commit, is_regex_space}

pub record RuleResult : Type 0 where
  pub errors : List Text
  pub reference : Text

-- The interface `CommitRule`; nil is `none`.
pub record CommitRule : Type 0 where
  pub name : Text
  pub validate : ParsedCommit → Text → Option RuleResult

abbrev pub failed : Text → List Text → Option RuleResult
failed error_code es = some (record { errors = es; reference = ref_of error_code })

-- A rule without errors has no result.
abbrev pub failed_if_any : Text → List Text → Option RuleResult
failed_if_any error_code [] = none
failed_if_any error_code (e ∷ es) = failed error_code (e ∷ es)

-- The bytes that are not the second or a later one of a character, in UTF-8.
unfoldable pub rune_count : Text → ℕ
rune_count [] = 0
rune_count (c ∷ s) = let rest = rune_count s in if leb 128 c && ltb c 192 then rest else suc rest

unfoldable pub title_length_rule : ℤ → Bool → CommitRule
unfolding is_revert_commit rune_count itoa
title_length_rule max_length unlimited_revert = record {
  name = codes "title-length";
  validate = λ c message.
      if unlimited_revert && is_revert_commit c.title
      then none
      else if leb_ℤ (pos (rune_count c.title)) max_length
      then none
      else failed (codes "GIT004") (
          (cross
            ++ codes "Title exceeds "
            ++ itoa max_length
            ++ codes " characters ("
            ++ itoa (pos (rune_count c.title))
            ++ codes " chars): '"
            ++ c.title
            ++ codes "'")
          ∷ codes "   Note: Revert commits (Revert \"...\") are exempt from this limit"
          ∷ []);
}

abbrev pub format_errors : List Text → Bool → Text → List Text
format_errors types scope_line title =
    (cross ++ codes "Title doesn't follow conventional commits format: type(scope): description")
    ∷ ((if scope_line then codes "   Scope is mandatory and must be in parentheses" ∷ [] else [])
        ++ (codes "   Valid types: " ++ join (codes ", ") types)
          ∷ codes "   Alternative: Revert \"original commit title\""
          ∷ (codes "   Current title: '" ++ title ++ codes "'")
          ∷ [])

unfoldable pub conventional_format_rule : List Text → Bool → CommitRule
unfolding is_revert_commit join
conventional_format_rule types require_scope = record {
  name = codes "conventional-format";
  validate = λ c message.
      if is_revert_commit c.title
      then none
      else if not c.valid || not (is_empty c.parse_error)
      then failed (codes "GIT013") (format_errors types require_scope c.title)
      else if require_scope && is_empty c.commit_scope
      then failed (codes "GIT013") (format_errors types true c.title)
      else none;
}

-- `^(feat|fix)\((ci|test|docs|build)\):`, the type and the scope.
abbrev pub infra_pairs : List (Text × Text)
infra_pairs =
    map (λ s. (codes "feat", codes s)) ("ci" ∷ "test" ∷ "docs" ∷ "build" ∷ [])
    ++ map (λ s. (codes "fix", codes s)) ("ci" ∷ "test" ∷ "docs" ∷ "build" ∷ [])

unfoldable pub first_pair : List (Text × Text) → Text → Option (Text × Text)
unfolding has_prefix
first_pair [] title = none
first_pair ((kind, scope) ∷ pairs) title =
    let later = first_pair pairs title in
    if has_prefix title (kind ++ codes "(" ++ scope ++ codes "):")
    then some (kind, scope)
    else later

abbrev pub misuse : Option (Text × Text) → Option RuleResult
misuse none = none
misuse (some (kind, scope)) = failed (codes "GIT006") (
    (cross
      ++ codes "Use '"
      ++ scope
      ++ codes "(...)' not '"
      ++ kind
      ++ codes "("
      ++ scope
      ++ codes ")' for infrastructure changes")
    ∷ codes "   feat/fix should only be used for user-facing changes"
    ∷ [])

unfoldable pub infra_scope_misuse_rule : CommitRule
unfolding first_pair
infra_scope_misuse_rule = record {
  name = codes "infra-scope-misuse";
  validate = λ c message. misuse (first_pair infra_pairs c.title);
}

unfoldable pub truncate_line : Text → Text
truncate_line line = if ltb 60 (length line) then take 60 line ++ codes "..." else line

abbrev pub line_text : Text → Text
line_text line = codes "   Line: '" ++ truncate_line line ++ codes "'"

abbrev pub has_url : Text → Bool
has_url line = contains_text line (codes "http://") || contains_text line (codes "https://")

-- The errors of the lines from a number on.
unfoldable pub long_lines : ℤ → ℤ → ℕ → List Text → List Text
unfolding trim_space contains_text truncate_line itoa
long_lines max_length tolerance n [] = []
long_lines max_length tolerance n (line ∷ lines) =
    let rest = long_lines max_length tolerance (suc n) lines in
    if is_empty (trim_space line)
    then rest
    else if has_url line
    then rest
    else if ltb_ℤ (max_length +ℤ tolerance) (pos (length line))
    then (cross
        ++ codes "Line "
        ++ itoa (pos n)
        ++ codes " exceeds "
        ++ itoa max_length
        ++ codes " characters ("
        ++ itoa (pos (length line))
        ++ codes " chars, >"
        ++ itoa tolerance
        ++ codes " over limit)")
      ∷ line_text line
      ∷ rest
    else rest

unfoldable pub body_line_length_rule : ℤ → ℤ → CommitRule
unfolding split long_lines
body_line_length_rule max_length tolerance = record {
  name = codes "body-line-length";
  validate = λ c message.
      failed_if_any (codes "GIT005")
        (long_lines max_length tolerance 2 (drop 1 (split 10 message)));
}

abbrev pub bullet_from : Text → Bool
bullet_from (c ∷ (d ∷ s)) = (c == b'-' || c == b'*') && is_regex_space d
bullet_from s = false

-- `\s*[0-9]+\.\s+` anywhere in a line.
unfoldable pub has_number : Text → Bool
has_number [] = false
has_number (a ∷ []) = false
has_number (a ∷ (b ∷ [])) = false
has_number (a ∷ (b ∷ (c ∷ s))) =
    ((leb b'0' a && leb a b'9') && (b == b'.' && is_regex_space c)) || has_number (b ∷ (c ∷ s))

-- `^\s*[-*]\s+|\s*[0-9]+\.\s+`: the second alternative is not tied to the start of the line.
unfoldable pub is_list_item : Text → Bool
unfolding drop_while has_number
is_list_item line = bullet_from (drop_while is_regex_space line) || has_number line

-- `blank` says that the line before is blank, `found` that there was a list item.
unfoldable pub unseparated : Bool → Bool → ℕ → List Text → List Text
unfolding trim_space is_list_item truncate_line itoa
unseparated blank found n [] = []
unseparated blank found n (line ∷ lines) =
    let after_blank = unseparated true found (suc n) lines in
    let after_item = unseparated false true (suc n) lines in
    let after_text = unseparated false found (suc n) lines in
    if is_empty (trim_space line)
    then after_blank
    else if not (is_list_item line)
    then after_text
    else if not found && not blank
    then (cross ++ codes "Missing empty line before first list item at line " ++ itoa (pos n))
      ∷ codes "   List items must be preceded by an empty line"
      ∷ line_text line
      ∷ after_item
    else after_item

unfoldable pub list_formatting_rule : CommitRule
unfolding split unseparated
list_formatting_rule = record {
  name = codes "list-formatting";
  validate = λ c message.
      failed_if_any (codes "GIT016") (unseparated false false 2 (drop 1 (split 10 message)));
}
