-- ===== src/Exceptions/TokenParser.antt =====
-- Exception tokens, EXC:CODE[:REASON], in an assignment of KLACK or in a comment
-- (internal/exceptions/token.go). The reason is decoded as `url.QueryUnescape` does.
pub mod Accepts
use claude_hooks.Common.{
  ℕ, ◌+◌, ◌-◌, ◌*◌, Bool, not, ◌&&◌, ◌||◌, [], ◌∷◌, ◌++◌, Option, none, some, if◌then◌else◌, leb,
  ◌==◌, get_or,
}
use claude_hooks.Common.Text.{
  Text, codes, is_empty, text_eq, trim_space, cut, from_index, take_until,
}
use claude_hooks.Common.Result.{Result, ok, err}
use claude_hooks.Shell.{
  ShellFile, ShellParser, or_else, token_in_env_vars, token_in_comments, is_digit, is_error_code,
}
use claude_hooks.Exceptions.{Token, TokenSource, comment, env_var}

pub data TokenError : Type 0 where
  empty_command parse_failed invalid_token token_not_found invalid_error_code : TokenError

-- What one parser is built from: the shell parser, the prefix and the variable.
pub record TokenParser : Type 0 where
  pub shell : ShellParser
  pub token_prefix : Text
  pub env_var_name : Text

-- `NewParser` with the option of the engine: an empty prefix is not taken.
abbrev pub new_parser : ShellParser → Text → TokenParser
new_parser sh prefix = record {
  shell = sh;
  token_prefix = if is_empty prefix then codes "EXC" else prefix;
  env_var_name = codes "KLACK";
}

-- `Found` is the `some` around it.
pub record ParseResult : Type 0 where
  pub token : Token
  pub source : TokenSource

-- The value of a hexadecimal digit.
unfoldable pub hex_digit : ℕ → Option ℕ
hex_digit c =
    if is_digit c
    then some (c - 48)
    else if leb b'a' c && leb c b'f'
    then some (c - b'a' + 10)
    else if leb b'A' c && leb c b'F'
    then some (c - b'A' + 10)
    else none

abbrev pub plus_to_space : ℕ → ℕ
plus_to_space c = if c == b'+' then 32 else c

abbrev pub cons_to : ℕ → Option Text → Option Text
cons_to c none = none
cons_to c (some s) = some (c ∷ s)

abbrev pub cons_hex : Option ℕ → Option ℕ → Option Text → Option Text
cons_hex (some a) (some b) rest = cons_to (16 * a + b) rest
cons_hex _ _ rest = none

-- `url.QueryUnescape`: `none` where a % is not followed by two hexadecimal digits.
unfoldable pub query_unescape : Text → Option Text
unfolding hex_digit
query_unescape [] = some []
query_unescape (c ∷ []) = if c == b'%' then none else some (plus_to_space c ∷ [])
query_unescape (c ∷ (a ∷ [])) =
    let rest = query_unescape (a ∷ []) in if c == b'%' then none else cons_to (plus_to_space c) rest
query_unescape (c ∷ (a ∷ (b ∷ s))) =
    let after = query_unescape s in
    let rest = query_unescape (a ∷ (b ∷ s)) in
    if c == b'%' then cons_hex (hex_digit a) (hex_digit b) after else cons_to (plus_to_space c) rest

-- A reason that does not decode is taken as it is.
unfoldable pub decode_reason : Option Text → Text
unfolding query_unescape
decode_reason none = []
decode_reason (some s) = get_or (query_unescape s) s

-- The pieces of `strings.SplitN(raw, ":", 3)` after the first.
unfoldable pub parse_code : Text → Text → Text × Option Text → Result TokenError Token
unfolding is_error_code decode_reason
parse_code prefix raw_text (c, reason_text) =
    if not (is_error_code c)
    then err invalid_error_code
    else ok (record {
      prefix = prefix;
      error_code = c;
      reason = decode_reason reason_text;
      raw = raw_text;
    })

unfoldable pub parse_parts : Text → Text → Text × Option Text → Result TokenError Token
unfolding text_eq cut parse_code
parse_parts prefix raw_text (before, none) = err invalid_token
parse_parts prefix raw_text (before, some rest) =
    if not (text_eq before prefix)
    then err invalid_token
    else parse_code before raw_text (cut b':' rest)

unfoldable pub parse_trimmed : Text → Text → Result TokenError Token
unfolding cut parse_parts
parse_trimmed prefix raw_text =
    if is_empty raw_text then err invalid_token else parse_parts prefix raw_text (cut b':' raw_text)

-- `parseToken`.
unfoldable pub parse_token : Text → Text → Result TokenError Token
unfolding trim_space parse_trimmed
parse_token prefix text = parse_trimmed prefix (trim_space text)

abbrev pub is_blank : ℕ → Bool
is_blank c = c == 32 || c == 9 || c == 10

unfoldable pub parse_token_from_comment : Text → Text → Result TokenError Token
unfolding from_index take_until parse_token
parse_token_from_comment prefix text = elim (from_index text (prefix ++ codes ":")) [
  | none ↦ err token_not_found
  | some tail ↦ parse_token prefix (take_until is_blank tail)
]

unfoldable pub find_token_in_env_vars : TokenParser → ShellFile → Option ParseResult
unfolding token_in_env_vars parse_token
find_token_in_env_vars p file =
    elim (token_in_env_vars (parse_token p.token_prefix) p.env_var_name file.nodes) [
      | none ↦ none
      | some t ↦ some (record { token = t; source = env_var })
    ]

unfoldable pub find_token_in_comments : TokenParser → ShellFile → Option ParseResult
unfolding token_in_comments parse_token_from_comment
find_token_in_comments p file =
    elim (token_in_comments (parse_token_from_comment p.token_prefix) file) [
      | none ↦ none
      | some t ↦ some (record { token = t; source = comment })
    ]

-- `Parse`: `ok none` where no token is found.
unfoldable pub parse : TokenParser → Text → Result TokenError (Option ParseResult)
unfolding trim_space find_token_in_env_vars find_token_in_comments
parse p text =
    let command = trim_space text in
    if is_empty command then err empty_command else elim (p.shell command) [
      | none ↦ err parse_failed
      | some file ↦ ok (or_else (find_token_in_env_vars p file) (find_token_in_comments p file))
    ]
