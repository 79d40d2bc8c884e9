-- ===== src/GitValidators/CommitParser.antt =====
-- Conventional commit messages (internal/validators/git/commit_parser.go, and the test for a revert of
-- commit_message.go). The regular expressions are written out as functions on bytes; `\s` is a tab,
-- a line feed, a form feed, a carriage return or a space.
pub mod Kept
pub mod Titles
use claude_hooks.Common.{
  ℕ, suc, ◌==◌, Bool, true, false, not, ◌&&◌, ◌||◌, List, [], ◌∷◌, ◌++◌, Option, none, some,
  if◌then◌else◌, get_or, is_some, leb, length, take, drop,
}
use mathlib.Core.List.{reverse}
use claude_hooks.Common.Text.{
  Text, codes, text_eq, is_empty, contains, contains_byte, has_prefix, take_until, drop_while,
  trim_space, split, join, cut,
}
use claude_hooks.Common.Map.{Map, lookup, insert}

abbrev pub is_alnum : ℕ → Bool
is_alnum c =
    (leb b'a' c && leb c b'z') || ((leb b'A' c && leb c b'Z') || (leb b'0' c && leb c b'9'))

abbrev pub is_word_byte : ℕ → Bool
is_word_byte c = is_alnum c || c == b'_'

abbrev pub is_regex_space : ℕ → Bool
is_regex_space c = c == 9 || (c == 10 || (c == 12 || (c == 13 || c == 32)))

-- Runs of one kind of byte with single separators between them; `run` says that one has begun.
unfoldable pub runs : (ℕ → Bool) → (ℕ → Bool) → Bool → Text → Bool
runs inner separator run [] = run
runs inner separator run (c ∷ s) =
    let inside = runs inner separator true s in
    let between = runs inner separator false s in
    if inner c then inside else if separator c && run then between else false

-- `Revert ["'].+["']` on a whole text.
abbrev pub is_quote : ℕ → Bool
is_quote c = c == b'"' || c == 39

abbrev pub ends_quoted : Text → Bool
ends_quoted [] = false
ends_quoted (c ∷ middle) = is_quote c && (not (is_empty middle) && not (contains_byte 10 middle))

abbrev pub quoted : Text → Bool
quoted [] = false
quoted (c ∷ s) = is_quote c && ends_quoted (reverse s)

unfoldable pub is_revert_commit : Text → Bool
unfolding has_prefix contains_byte
is_revert_commit title = has_prefix title (codes "Revert ") && quoted (drop 7 title)

-- A title that is valid: type(scope)!: description.
pub record TitleParseResult : Type 0 where
  pub kind : Text
  pub scope : Text
  pub exclamation : Bool
  pub description : Text

abbrev pub last_byte : Text → Text
last_byte [] = []
last_byte (c ∷ []) = c ∷ []
last_byte (c ∷ (d ∷ s)) = last_byte (d ∷ s)

abbrev pub one_line : Text → Option Text
one_line d = if is_empty d || contains_byte 10 d then none else some d

-- `\s+(.+)$`: where only white space follows, its last byte is the description.
unfoldable pub described : Text → Option Text
unfolding drop_while contains_byte
described [] = none
described (c ∷ s) =
    let rest = drop_while is_regex_space s in
    if not (is_regex_space c) then none else one_line (if is_empty rest then last_byte s else rest)

abbrev pub with_description : Text → Text → Bool → Option Text → Option TitleParseResult
with_description kind scope mark none = none
with_description kind scope mark (some d) =
    some (record { kind = kind; scope = scope; exclamation = mark; description = d })

abbrev pub after_mark : Text → Text → Bool → Text → Option TitleParseResult
after_mark kind scope mark [] = none
after_mark kind scope mark (c ∷ s) =
    if c == b':' then with_description kind scope mark (described s) else none

abbrev pub after_scope : Text → Text → Text → Option TitleParseResult
after_scope kind scope [] = none
after_scope kind scope (c ∷ s) =
    if c == b'!' then after_mark kind scope true s else after_mark kind scope false (c ∷ s)

abbrev pub is_scope_separator : ℕ → Bool
is_scope_separator c = c == b'/' || c == b'-'

abbrev pub in_parens : Text → Text × Option Text → Option TitleParseResult
in_parens kind (scope, none) = none
in_parens kind (scope, some rest) =
    if runs is_word_byte is_scope_separator false scope then after_scope kind scope rest else none

abbrev pub after_kind : Text → Text → Option TitleParseResult
after_kind kind [] = none
after_kind kind (c ∷ s) =
    if c == b'(' then in_parens kind (cut b')' s) else after_scope kind [] (c ∷ s)

unfoldable pub parse_title : Text → Option TitleParseResult
unfolding take_until drop_while runs described cut
parse_title title =
    let kind = take_until (λ c. not (is_word_byte c)) title in
    if is_empty kind then none else after_kind kind (drop_while is_word_byte title)

pub record ParsedCommit : Type 0 where
  pub commit_type : Text
  pub commit_scope : Text
  pub commit_description : Text
  pub body : Text
  pub footers : Map (List Text)
  pub is_breaking_change : Bool
  pub title : Text
  pub raw : Text
  pub valid : Bool
  pub parse_error : Text

abbrev pub unparsed : Text → Text → Text → ParsedCommit
unparsed title raw error = record {
  commit_type = [];
  commit_scope = [];
  commit_description = [];
  body = [];
  footers = [];
  is_breaking_change = false;
  title = title;
  raw = raw;
  valid = false;
  parse_error = error;
}

abbrev pub is_token_separator : ℕ → Bool
is_token_separator c = c == 32 || c == b'-'

abbrev pub token_and_value : Text × Option Text → Option (Text × Text)
token_and_value (token, none) = none
token_and_value (token, some rest) =
    let value = drop_while is_regex_space rest in
    if runs is_alnum is_token_separator false token && not (contains_byte 10 value)
    then some (token, value)
    else none

-- `^([A-Za-z0-9]+(?:[ -][A-Za-z0-9]+)*):\s*(.*)$`.
unfoldable pub match_footer : Text → Option (Text × Text)
unfolding cut runs drop_while contains_byte
match_footer line = token_and_value (cut b':' line)

-- From the last line back: where the footers start, and whether a line that is none was found.
unfoldable pub scan_back : ℕ → List Text → ℕ × Bool
unfolding trim_space match_footer
scan_back n [] = (n, false)
scan_back n (line ∷ before) =
    let further = scan_back n before in
    if is_empty (trim_space line)
    then (suc (length before), false)
    else if not (is_some (match_footer (trim_space line)))
    then (suc (length before), true)
    else further

abbrev pub start_index : ℕ → ℕ × Bool → ℕ
start_index n (i, found) = if not found && i == n then 0 else i

unfoldable pub find_footer_start_index : List Text → ℕ
unfolding scan_back
find_footer_start_index lines =
    start_index (length lines) (scan_back (length lines) (reverse lines))

abbrev pub is_breaking_token : Text → Bool
is_breaking_token token =
    text_eq token (codes "BREAKING CHANGE") || text_eq token (codes "BREAKING-CHANGE")

abbrev pub add_footer : Option (Text × Text) → ParsedCommit → ParsedCommit
add_footer none r = r
add_footer (some (token, value)) r = record r {
  footers = insert token (get_or (lookup token r.footers) [] ++ (value ∷ [])) r.footers;
  is_breaking_change = if is_breaking_token token then true else r.is_breaking_change;
}

unfoldable pub extract_footers_from_lines : List Text → ParsedCommit → ParsedCommit
unfolding trim_space match_footer text_eq lookup insert
extract_footers_from_lines [] r = r
extract_footers_from_lines (line ∷ lines) r =
    extract_footers_from_lines lines
      (if is_empty (trim_space line) then r else add_footer (match_footer (trim_space line)) r)

unfoldable pub drop_blank : List Text → List Text
unfolding trim_space
drop_blank [] = []
drop_blank (line ∷ lines) =
    let rest = drop_blank lines in if is_empty (trim_space line) then rest else line ∷ lines

-- `strings.TrimRight(s, "\n")`.
abbrev pub trim_newlines : Text → Text
trim_newlines s = reverse (drop_while (λ c. c == 10) (reverse s))

abbrev pub split_body : ℕ → List Text → ParsedCommit → ParsedCommit
split_body i lines r =
    if leb (length lines) i
    then record r { body = join (codes "\n") lines }
    else record (extract_footers_from_lines (drop i lines) r) {
      body = trim_newlines (join (codes "\n") (take i lines));
    }

abbrev pub body_of : List Text → ParsedCommit → ParsedCommit
body_of [] r = r
body_of (line ∷ lines) r = split_body (find_footer_start_index (line ∷ lines)) (line ∷ lines) r

unfoldable pub extract_body_and_footers : Text → ParsedCommit → ParsedCommit
unfolding split drop_blank find_footer_start_index extract_footers_from_lines join drop_while
extract_body_and_footers message r = body_of (drop_blank (drop 1 (split 10 message))) r

unfoldable pub extract_title : Text → Text
unfolding take_until
extract_title message = take_until (λ c. c == 10) message

-- A parser is the list of its valid types; none of them means that any type is valid.
abbrev pub is_valid_type : List Text → Text → Bool
is_valid_type [] kind = true
is_valid_type (t ∷ ts) kind = contains (t ∷ ts) kind

abbrev pub check_valid_type : List Text → ParsedCommit → ParsedCommit
check_valid_type types r =
    if not (is_valid_type types r.commit_type)
    then record r { parse_error = codes "invalid commit type: " ++ r.commit_type; valid = false }
    else record r { valid = true }

abbrev pub with_title : List Text → Text → Text → Option TitleParseResult → ParsedCommit
with_title types message title none =
    unparsed title message (codes "failed to parse as conventional commit")
with_title types message title (some t) = check_valid_type types (
    extract_body_and_footers message (record (unparsed title message []) {
      commit_type = t.kind;
      commit_scope = t.scope;
      commit_description = t.description;
      is_breaking_change = t.exclamation;
    }))

unfoldable pub parse_commit : List Text → Text → ParsedCommit
unfolding extract_title is_revert_commit parse_title extract_body_and_footers contains
parse_commit types message =
    let title = extract_title message in
    if is_empty message
    then unparsed [] message []
    else if is_revert_commit title
    then record (unparsed title message []) { commit_type = codes "revert"; valid = true }
    else with_title types message title (parse_title title)
