-- ===== src/GitValidators/CommitContent.antt =====
-- The rules on what a commit message must not contain, and the signoff (internal/validators/git/
-- commit_rules.go). The regular expressions of the configuration are a parameter, `compile`, from a
-- pattern to the first match in a text; `none` is an invalid pattern.
pub mod Attribution
use claude_hooks.Common.{
  ℕ, suc, ◌==◌, Bool, true, false, not, ◌&&◌, ◌||◌, List, [], ◌∷◌, ◌++◌, Option, none, some,
  if◌then◌else◌, is_some, leb, length, drop, any, map,
}
use claude_hooks.Common.Text.{
  Text, codes, text_eq, is_empty, contains_text, has_prefix, take_until, drop_while, trim_space,
  split, cut, to_lower,
}
use claude_hooks.GitValidators.Templates.{cross}
use claude_hooks.GitValidators.CommitParser.{is_word_byte, is_alnum}
use claude_hooks.GitValidators.CommitRules.{CommitRule, failed, failed_if_any}

abbrev pub is_digit_byte : ℕ → Bool
is_digit_byte c = leb b'0' c && leb c b'9'

-- `\b` after a digit.
abbrev pub at_boundary : Text → Bool
at_boundary [] = true
at_boundary (c ∷ s) = not (is_word_byte c)

-- `[0-9]{1,10}\b` at the start of a text.
unfoldable pub number_at : Text → Option Text
unfolding take_until drop_while
number_at s =
    let run = take_until (λ c. not (is_digit_byte c)) s in
    if (leb 1 (length run) && leb (length run) 10) && at_boundary (drop_while is_digit_byte s)
    then some run
    else none

-- The digits of the first `#[0-9]{1,10}\b`.
unfoldable pub find_hash : Text → Option Text
unfolding number_at
find_hash [] = none
find_hash (c ∷ s) =
    let later = find_hash s in
    elim (number_at s) [ none ↦ later | some n ↦ if c == b'#' then some n else later ]

abbrev pub pull_number : Text → Text → Option Text → Option (Text × Text)
pull_number owner repo none = none
pull_number owner repo (some rest) =
    if is_empty repo || not (has_prefix rest (codes "pull/"))
    then none
    else elim (number_at (drop 5 rest)) [
      | none ↦ none
      | some n ↦ some (codes "github.com/" ++ owner ++ codes "/" ++ repo ++ codes "/pull/" ++ n, n)
    ]

abbrev pub repo_number : Text × Option Text → Option (Text × Text)
repo_number (owner, none) = none
repo_number (owner, some rest) =
    if is_empty owner then none else pull_number owner (cut b'/' rest).0 (cut b'/' rest).1

-- `github\.com/[^/]+/[^/]+/pull/[0-9]{1,10}\b` at the start of a text, with its number.
unfoldable pub url_at : Text → Option (Text × Text)
unfolding has_prefix cut number_at
url_at s =
    if not (has_prefix s (codes "github.com/")) then none else repo_number (cut b'/' (drop 11 s))

-- What was read of `://`, and whether a URL may start after it and the last byte.
abbrev pub colon_state : ℕ → ℕ → ℕ
colon_state st c = if c == b':' then 1 else if c == b'/' && (st == 1 || st == 2) then suc st else 0

abbrev pub may_start : ℕ → ℕ → Bool
may_start st c = colon_state st c == 3 || not (is_alnum c || c == b'/')

unfoldable pub find_url : ℕ → Bool → Text → Option (Text × Text)
unfolding url_at
find_url st starts [] = none
find_url st starts (c ∷ s) =
    let later = find_url (colon_state st c) (may_start st c) s in
    if starts && is_some (url_at (c ∷ s)) then url_at (c ∷ s) else later

-- An arrow between spaces, in UTF-8.
abbrev pub should_be : Text → Text → Text
should_be found fix =
    codes "   Found: '"
    ++ found
    ++ codes "' "
    ++ (226 ∷ 134 ∷ 146 ∷ [])
    ++ codes " Should be: '"
    ++ fix
    ++ codes "'"

abbrev pub hash_example : Option Text → List Text
hash_example none = []
hash_example (some n) = should_be (codes "#" ++ n) n ∷ []

abbrev pub url_example : Option (Text × Text) → List Text
url_example none = []
url_example (some (url, n)) = should_be (codes "https://" ++ url) n ∷ []

unfoldable pub pr_reference_rule : CommitRule
unfolding find_hash find_url
pr_reference_rule = record {
  name = codes "pr-reference";
  validate = λ c message.
      if not (is_some (find_hash message) || is_some (find_url 0 true message))
      then none
      else failed (codes "GIT011") (
          (cross
            ++ codes "PR references found - remove '#' prefix or convert URLs to plain numbers")
          ∷ (hash_example (find_hash message) ++ url_example (find_url 0 true message)));
}

abbrev pub ai_patterns : List Text
ai_patterns = map codes (
    "generated by claude" ∷ "generated with claude" ∷ "assisted by claude" ∷ "created by claude"
    ∷ "written by claude" ∷ "with help from claude" ∷ "powered by claude" ∷ "claude ai"
    ∷ "co-authored-by: claude" ∷ [])

abbrev pub link_target : Text × Option Text → Bool
link_target (inside, none) = false
link_target (inside, some rest) = contains_text inside (codes "claude")

abbrev pub link_after : Text × Option Text → Bool
link_after (label, none) = false
link_after (label, some []) = false
link_after (label, some (c ∷ s)) = c == b'(' && link_target (cut b')' s)

-- `\[claude[^\]]*\]\([^)]*claude[^)]*\)` anywhere in a text.
unfoldable pub has_claude_link : Text → Bool
unfolding has_prefix cut contains_text
has_claude_link [] = false
has_claude_link (c ∷ s) =
    (has_prefix (c ∷ s) (codes "[claude") && link_after (cut b']' (drop 7 (c ∷ s))))
    || has_claude_link s

abbrev pub legitimate_patterns : List Text
legitimate_patterns =
    map codes ("claude.md" ∷ "claude-hooks" ∷ "klaudiush" ∷ "`claude" ∷ "claude`" ∷ [])

unfoldable pub contains_claude_ai_attribution : Text → Bool
unfolding to_lower contains_text has_claude_link
contains_claude_ai_attribution message =
    let lower = to_lower message in
    if any (λ p. contains_text lower p) ai_patterns
    then true
    else if has_claude_link lower
    then true
    else if not (contains_text lower (codes "claude"))
    then false
    else if any (λ p. contains_text lower p) legitimate_patterns
    then false
    else if contains_text message (codes "CLAUDE")
    then false
    else false

unfoldable pub ai_attribution_rule : CommitRule
unfolding contains_claude_ai_attribution
ai_attribution_rule = record {
  name = codes "ai-attribution";
  validate = λ c message.
      if not (contains_claude_ai_attribution message)
      then none
      else failed (codes "GIT012") (
          (cross
            ++ codes
                "Commit message contains AI attribution - remove any AI generation attribution")
          ∷ []);
}

module _ (compile : Text → Option (Text → Option Text)) where
  abbrev pub found_in : Text → Option Text → List Text
  found_in pattern none = []
  found_in pattern (some match) =
      (cross ++ codes "Forbidden pattern found: '" ++ match ++ codes "'")
      ∷ (codes "   Pattern: " ++ pattern)
      ∷ codes "   Remove this content from your commit message"
      ∷ []

  abbrev pub forbidden_by : Text → Text → List Text
  forbidden_by message pattern = elim (compile pattern) [
    | none ↦ []
    | some find ↦ found_in pattern (find message)
  ]

  abbrev pub forbidden_errors : Text → List Text → List Text
  forbidden_errors message [] = []
  forbidden_errors message (p ∷ ps) = forbidden_by message p ++ forbidden_errors message ps

  abbrev pub forbidden_pattern_rule : List Text → CommitRule
  forbidden_pattern_rule patterns = record {
    name = codes "forbidden-pattern";
    validate = λ c message. failed_if_any (codes "GIT014") (forbidden_errors message patterns);
  }

-- The first line with a signoff; the empty text if there is none.
unfoldable pub signoff_line : List Text → Text
unfolding has_prefix trim_space
signoff_line [] = []
signoff_line (line ∷ lines) =
    let later = signoff_line lines in
    if has_prefix (trim_space line) (codes "Signed-off-by:") then trim_space line else later

unfoldable pub signoff_rule : Text → CommitRule
unfolding contains_text split signoff_line text_eq
signoff_rule expected = record {
  name = codes "signoff";
  validate = λ c message.
      let line = signoff_line (split 10 message) in
      let wanted = codes "Signed-off-by: " ++ expected in
      if is_empty expected
      then none
      else if not (contains_text message (codes "Signed-off-by:"))
      then none
      else if text_eq line wanted
      then none
      else failed (codes "GIT015") (
          (cross ++ codes "Wrong signoff identity")
          ∷ (codes "   Found: " ++ line)
          ∷ (codes "   Expected: " ++ wanted)
          ∷ []);
}
