-- ===== src/Session/Unpoison/Tests.antt =====
-- Tokens and commands at concrete texts, and the theorems at them.
use claude_hooks.Common.{◌≡◌, ◌↔◌, refl, true, false, List, [], ◌∷◌, none, some, All}
use claude_hooks.Common.Text.{Text, codes, contains}
use claude_hooks.Common.Result.{ok, err}
use claude_hooks.Shell.{ShellParser, dbl_quoted, lit, part, no_parts, statement}
use claude_hooks.Session.Unpoison.{
  invalid_code, invalid_token, UnpoisonToken, ParseResult, default_prefix, parse_token,
  parse_token_from_comment, parse, new_unpoison_parser, check,
}
use claude_hooks.Session.Unpoison.Codes.{check_iff}

abbrev two_codes : List Text
two_codes = codes "GIT001" ∷ codes "SEC02" ∷ []

abbrev two_token : UnpoisonToken
two_token = record { acked = two_codes; raw = codes "SESS:GIT001,SEC02" }

trimmed :
    parse_token default_prefix (codes " SESS:GIT001,, SEC02 ")
    ≡ ok (record { acked = two_codes; raw = codes "SESS:GIT001,, SEC02" })
unfolding parse_token
trimmed = refl

refused :
    (parse_token default_prefix (codes "SESS:git1") ≡ err invalid_code)
    × (parse_token default_prefix (codes "SESS:,") ≡ err invalid_token)
    × (parse_token default_prefix (codes "EXC:GIT001") ≡ err invalid_token)
unfolding parse_token
refused = (refl, refl, refl)

in_comment :
    parse_token_from_comment default_prefix (codes " see SESS:GIT001,SEC02 now") ≡ ok two_token
unfolding parse_token_from_comment
in_comment = refl

-- A parser that reads every command as `KLACK="SESS:GIT001,SEC02" ls`.
abbrev one_command : ShellParser
one_command s = some (record {
  nodes =
      statement
        (record {
          name = some (codes "KLACK");
          value =
              some (part (dbl_quoted (part (lit (codes "SESS:GIT001,SEC02")) no_parts)) no_parts);
        }
          ∷ [])
        [] []
      ∷ [];
  last = [];
})

check_two : check one_command (codes "ls") two_codes ≡ (true, [], none)
unfolding check
check_two = refl

check_more :
    check one_command (codes "ls") (codes "GIT007" ∷ two_codes) ≡ (false, codes "GIT007" ∷ [], none)
unfolding check
check_more = refl

check_iff_example : ((check one_command (codes "ls") two_codes).0 ≡ true) ↔ (
    (r : ParseResult) × (parse (new_unpoison_parser one_command []) (codes "ls") ≡ ok (some r))
    × All (λ p. contains r.token.acked p ≡ true) two_codes)
check_iff_example = check_iff one_command (codes "ls") (codes "GIT001") (codes "SEC02" ∷ [])
