-- ===== src/Session/Unpoison/RoundTrip.antt =====
-- The token that the fast-fail message tells the user to give is read back as the session's codes.
use claude_hooks.Common.{ℕ, ◌≡◌, refl, false, List, [], ◌∷◌, ◌++◌, arith, All}
use claude_hooks.Common.Text.{Text, codes, is_empty, is_space, join}
use claude_hooks.Common.TextLaws.{
  All-append, All-weaken, NotSpace, trim_space-NotSpace, Differs, split-join,
}
use claude_hooks.Common.Result.{ok}
use claude_hooks.Session.Unpoison.{
  valid_codes, parse_codes, parse_trimmed, parse_parts, parse_token, default_prefix,
}
use claude_hooks.Session.Unpoison.Codes.{IsCode, IsPlain, IsCode-IsPlain, IsCode-ne_nil}

plain-NotSpace : (c : ℕ) → IsPlain c → NotSpace c
unfolding is_space
plain-NotSpace c h = ground arith

plain-Differs : (c : ℕ) → IsPlain c → Differs b',' c
plain-Differs c h = ground arith

pub code-NotSpace : (c : Text) → IsCode c → All NotSpace c
code-NotSpace c h = All-weaken IsPlain NotSpace plain-NotSpace c (IsCode-IsPlain c h)

code-Differs : (c : Text) → IsCode c → All (Differs b',') c
code-Differs c h = All-weaken IsPlain (Differs b',') plain-Differs c (IsCode-IsPlain c h)

join-NotSpace : (cs : List Text) → All IsCode cs → All NotSpace (join (codes ",") cs)
unfolding join is_space
join-NotSpace [] h = tt
join-NotSpace (c ∷ []) h = code-NotSpace c h.0
join-NotSpace (c ∷ (d ∷ cs)) h =
    All-append NotSpace c _ (code-NotSpace c h.0) (refl, join-NotSpace (d ∷ cs) h.1)

join-ne_nil : (c : Text) (cs : List Text) → IsCode c → is_empty (join (codes ",") (c ∷ cs)) ≡ false
unfolding join
join-ne_nil c [] h = IsCode-ne_nil c h
join-ne_nil [] (d ∷ cs) h = refl
join-ne_nil (b ∷ c) (d ∷ cs) h = refl

-- A list of well-formed codes is accepted as it is.
valid_codes_same : (cs : List Text) → All IsCode cs → valid_codes cs ≡ ok cs
unfolding valid_codes
valid_codes_same [] h = refl
valid_codes_same (c ∷ cs) h =
    rw (trim_space-NotSpace c (code-NotSpace c h.0))
      (rw (IsCode-ne_nil c h.0, h.0) (rw (valid_codes_same cs h.1)))

-- The text of the token: `SESS:` and the codes joined by commas, as in
-- `fmt.Sprintf("... KLACK=\"SESS:%s\" ...", strings.Join(codes, ","))`.
abbrev pub token_text : List Text → Text
token_text cs = default_prefix ++ (codes ":" ++ join (codes ",") cs)

parse_codes_same :
    (raw c : Text) (cs : List Text)
    → All IsCode (c ∷ cs)
    → parse_codes raw (join (codes ",") (c ∷ cs)) ≡ ok (record { acked = c ∷ cs; raw = raw })
unfolding parse_codes
parse_codes_same raw c cs h = rw (join-ne_nil c cs h.0) (
    rw (split-join b',' c cs (All-weaken IsCode (All (Differs b',')) code-Differs (c ∷ cs) h))
      (rw (valid_codes_same (c ∷ cs) h)))

parse_trimmed_same :
    (c : Text) (cs : List Text)
    → All IsCode (c ∷ cs)
    → parse_trimmed default_prefix (token_text (c ∷ cs))
      ≡ ok (record { acked = c ∷ cs; raw = token_text (c ∷ cs) })
unfolding parse_trimmed parse_parts
parse_trimmed_same c cs h = parse_codes_same (token_text (c ∷ cs)) c cs h

-- The token suggested for a session with well-formed codes, one at least, parses to exactly those
-- codes, in their order.
pub parse_token-token_text :
    (c : Text) (cs : List Text)
    → All IsCode (c ∷ cs)
    → parse_token default_prefix (token_text (c ∷ cs))
      ≡ ok (record { acked = c ∷ cs; raw = token_text (c ∷ cs) })
unfolding parse_token
parse_token-token_text c cs h =
    let plain : All NotSpace (token_text (c ∷ cs)) =
      unfold is_space in
      All-append NotSpace default_prefix (codes ":" ++ join (codes ",") (c ∷ cs))
        (refl, (refl, (refl, (refl, tt)))) (refl, join-NotSpace (c ∷ cs) h) in
    rw (trim_space-NotSpace (token_text (c ∷ cs)) plain) (parse_trimmed_same c cs h)
