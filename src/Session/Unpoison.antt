-- ===== src/Session/Unpoison.antt =====
-- Unpoison tokens, `SESS:CODE1,CODE2`, in an assignment of KLACK or in a comment, and the check
-- that a command acknowledges every code of a poisoned session (internal/session/unpoison.go).
pub mod Codes
pub mod RoundTrip
mod Tests
use claude_hooks.Common.{
  ℕ, Bool, true, false, not, ◌||◌, List, [], ◌∷◌, ◌++◌, Option, none, some, ◌==◌, if◌then◌else◌,
  select,
}
use claude_hooks.Common.Text.{
  Text, codes, is_empty, text_eq, trim_space, split, cut, from_index, take_until, contains,
  contains_text,
}
use claude_hooks.Common.Result.{Result, ok, err, ◌>>=◌}
use claude_hooks.Shell.{
  ShellFile, ShellParser, or_else, token_in_env_vars, token_in_comments, is_error_code,
}

pub data UnpoisonError : Type 0 where
  empty_command parse_failed token_not_found invalid_token invalid_code : UnpoisonError

pub record UnpoisonToken : Type 0 where
  pub acked : List Text
  pub raw : Text

pub data TokenSource : Type 0 where
  env_var comment : TokenSource

abbrev pub source_string : TokenSource → Text
source_string env_var = codes "env_var"
source_string comment = codes "comment"

-- `Found` is the `some`.
pub record ParseResult : Type 0 where
  pub token : UnpoisonToken
  pub source : TokenSource

pub record UnpoisonParser : Type 0 where
  pub shell : ShellParser
  pub token_prefix : Text
  pub env_var_name : Text

pub data ParserOption : Type 0 where
  with_unpoison_prefix : Text → ParserOption
  with_unpoison_env_var : Text → ParserOption

abbrev pub default_prefix : Text
default_prefix = codes "SESS"

abbrev pub default_env_var : Text
default_env_var = codes "KLACK"

unfoldable pub apply_parser_option : UnpoisonParser → ParserOption → UnpoisonParser
apply_parser_option p (with_unpoison_prefix s) =
    if not (is_empty s) then record p { token_prefix = s } else p
apply_parser_option p (with_unpoison_env_var s) =
    if not (is_empty s) then record p { env_var_name = s } else p

unfoldable pub apply_parser_options : UnpoisonParser → List ParserOption → UnpoisonParser
unfolding apply_parser_option
apply_parser_options p [] = p
apply_parser_options p (o ∷ os) = apply_parser_options (apply_parser_option p o) os

unfoldable pub new_unpoison_parser : ShellParser → List ParserOption → UnpoisonParser
unfolding apply_parser_options
new_unpoison_parser sh os =
    apply_parser_options
      (record { shell = sh; token_prefix = default_prefix; env_var_name = default_env_var }) os

-- The loop of `parseToken`: codes are trimmed, empty ones skipped, a malformed one is an error.
unfoldable pub valid_codes : List Text → Result UnpoisonError (List Text)
unfolding trim_space is_error_code
valid_codes [] = ok []
valid_codes (c ∷ cs) =
    let code = trim_space c in
    let rest = valid_codes cs in
    if is_empty code
    then rest
    else if not (is_error_code code)
    then err invalid_code
    else rest >>= λ vs. ok (code ∷ vs)

unfoldable pub parse_codes : Text → Text → Result UnpoisonError UnpoisonToken
unfolding valid_codes split
parse_codes raw_text codes_str =
    if is_empty codes_str
    then err invalid_token
    else valid_codes (split b',' codes_str) >>= λ vs. elim vs [
      | [] ↦ err invalid_token
      | v ∷ rest ↦ ok (record { acked = v ∷ rest; raw = raw_text })
    ]

-- The pieces of `strings.SplitN(raw, ":", 2)`: without a second one the format is wrong.
unfoldable pub parse_parts : Text → Text → Text × Option Text → Result UnpoisonError UnpoisonToken
unfolding text_eq parse_codes
parse_parts prefix raw_text (before, none) = err invalid_token
parse_parts prefix raw_text (before, some codes_str) =
    if not (text_eq before prefix) then err invalid_token else parse_codes raw_text codes_str

unfoldable pub parse_trimmed : Text → Text → Result UnpoisonError UnpoisonToken
unfolding cut parse_parts
parse_trimmed prefix raw_text =
    if is_empty raw_text then err invalid_token else parse_parts prefix raw_text (cut b':' raw_text)

unfoldable pub parse_token : Text → Text → Result UnpoisonError UnpoisonToken
unfolding trim_space parse_trimmed
parse_token prefix text = parse_trimmed prefix (trim_space text)

-- The end of a token in a comment.
abbrev pub is_blank : ℕ → Bool
is_blank c = c == 32 || c == 9 || c == 10

unfoldable pub parse_token_from_comment : Text → Text → Result UnpoisonError UnpoisonToken
unfolding from_index take_until parse_token
parse_token_from_comment prefix text = elim (from_index text (prefix ++ codes ":")) [
  | none ↦ err token_not_found
  | some tail ↦ parse_token prefix (take_until is_blank tail)
]

unfoldable pub find_token_in_env_vars : UnpoisonParser → ShellFile → Option ParseResult
unfolding token_in_env_vars parse_token
find_token_in_env_vars p file =
    elim (token_in_env_vars (parse_token p.token_prefix) p.env_var_name file.nodes) [
      | none ↦ none
      | some t ↦ some (record { token = t; source = env_var })
    ]

unfoldable pub find_token_in_comments : UnpoisonParser → ShellFile → Option ParseResult
unfolding token_in_comments parse_token_from_comment
find_token_in_comments p file =
    elim (token_in_comments (parse_token_from_comment p.token_prefix) file) [
      | none ↦ none
      | some t ↦ some (record { token = t; source = comment })
    ]

-- Assignments first, then comments; `ok none` where no token is found.
unfoldable pub parse : UnpoisonParser → Text → Result UnpoisonError (Option ParseResult)
unfolding trim_space find_token_in_env_vars find_token_in_comments
parse p text =
    let command = trim_space text in
    if is_empty command then err empty_command else elim (p.shell command) [
      | none ↦ err parse_failed
      | some file ↦ ok (or_else (find_token_in_env_vars p file) (find_token_in_comments p file))
    ]

-- `Source` is the zero value, `env_var`, where no token was found.
pub record Acknowledgment : Type 0 where
  pub acknowledged : Bool
  pub unacknowledged : List Text
  pub source : TokenSource
  pub token : Option UnpoisonToken

abbrev pub unacked : List Text → List Text → List Text
unacked acked_codes poison_codes = select (λ c. not (contains acked_codes c)) poison_codes

-- The test of a token against codes; the set of acknowledged codes is its list.
unfoldable pub acknowledge : List Text → Option ParseResult → Acknowledgment
unfolding contains
acknowledge cs none = record {
  acknowledged = false;
  unacknowledged = cs;
  source = env_var;
  token = none;
}
acknowledge cs (some r) =
    let missing = unacked r.token.acked cs in
    record {
      acknowledged = elim missing [ [] ↦ true | c ∷ rest ↦ false ];
      unacknowledged = missing;
      source = r.source;
      token = some r.token;
    }

-- `CheckUnpoisonAcknowledgmentFull`; on an error its caller uses the error alone.
unfoldable pub check_full : ShellParser → Text → List Text → Result UnpoisonError Acknowledgment
unfolding new_unpoison_parser parse acknowledge
check_full sh command [] =
    ok (record { acknowledged = true; unacknowledged = []; source = env_var; token = none })
check_full sh command (c ∷ cs) =
    parse (new_unpoison_parser sh []) command >>= λ r. ok (acknowledge (c ∷ cs) r)

-- `CheckUnpoisonAcknowledgment`: the flag, the codes that are left, the error.
unfoldable pub check : ShellParser → Text → List Text → Bool × List Text × Option UnpoisonError
unfolding check_full
check sh command cs = elim (check_full sh command cs) [
  | err e ↦ (false, cs, some e)
  | ok r ↦ if r.acknowledged then (true, [], none) else (false, r.unacknowledged, none)
]

unfoldable pub contains_unpoison_attempt : Text → Bool
unfolding contains_text
contains_unpoison_attempt command =
    contains_text command (codes "KLACK=") || contains_text command (codes "# SESS:")
