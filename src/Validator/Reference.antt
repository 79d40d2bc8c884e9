-- ===== src/Validator/Reference.antt =====
-- Error references, https://klaudiu.sh/CODE, and the codes in them (internal/validator/reference.go,
-- `extractErrorCode` of internal/dispatcher/exception.go).
use claude_hooks.Common.{
  ◌≡◌, refl, true, false, not, [], ◌∷◌, ◌++◌, arith, ltb, ◌==◌, if◌then◌else◌, drop, length,
}
use claude_hooks.Common.Text.{Text, codes, is_empty, has_prefix, take_until, contains_byte}
use claude_hooks.Shell.{is_digit}

abbrev pub reference_base_url : Text
reference_base_url = codes "https://klaudiu.sh"

-- The reference with a code.
abbrev pub ref_of : Text → Text
ref_of c = reference_base_url ++ (b'/' ∷ c)

-- What follows the last slash; the whole text if there is none.
unfoldable pub after_last_slash : Text → Text
unfolding contains_byte
after_last_slash [] = []
after_last_slash (c ∷ s) =
    let rest = after_last_slash s in
    if contains_byte b'/' s then rest else if c == b'/' then s else c ∷ s

unfoldable pub code : Text → Text
unfolding after_last_slash
code r = after_last_slash r

unfoldable pub category : Text → Text
unfolding code take_until
category r = let c = code r in if ltb (length c) 3 then [] else take_until is_digit c

-- `strings.TrimSuffix(s, "/")`.
unfoldable pub trim_slash : Text → Text
trim_slash [] = []
trim_slash (c ∷ []) = if c == b'/' then [] else c ∷ []
trim_slash (c ∷ (d ∷ s)) = c ∷ trim_slash (d ∷ s)

-- `extractErrorCode`.
unfoldable pub extract_error_code : Text → Text
unfolding has_prefix trim_slash
extract_error_code ref =
    let prefix = codes "https://klaudiu.sh/" in
    if is_empty ref
    then []
    else if not (has_prefix ref prefix)
    then []
    else trim_slash (drop (length prefix) ref)

-- A code without a slash.
abbrev pub NoSlash : Text → Type 0
NoSlash c = contains_byte b'/' c ≡ false

contains_byte-append : (p c : Text) → contains_byte b'/' (p ++ (b'/' ∷ c)) ≡ true
unfolding contains_byte
contains_byte-append [] c = refl
contains_byte-append (x ∷ p) c = ground (arith, contains_byte-append p c)

after_last_slash-append : (p c : Text) → NoSlash c → after_last_slash (p ++ (b'/' ∷ c)) ≡ c
unfolding after_last_slash contains_byte
after_last_slash-append [] c h = rw h (ground arith)
after_last_slash-append (x ∷ p) c h = rw (contains_byte-append p c) (after_last_slash-append p c h)

trim_slash-NoSlash : (c : Text) → NoSlash c → trim_slash c ≡ c
unfolding trim_slash contains_byte
trim_slash-NoSlash [] h = refl
trim_slash-NoSlash (x ∷ []) h = ground arith
trim_slash-NoSlash (x ∷ (y ∷ s)) h = ground (arith, trim_slash-NoSlash (y ∷ s))

-- The two ways in which the program reads the code of a reference, `Reference.Code` for sessions
-- and `extractErrorCode` for exceptions, agree on every reference made of the base URL and a
-- code without a slash, and give that code.
pub codes_agree :
    (c : Text) → NoSlash c → (code (ref_of c) ≡ c) × (extract_error_code (ref_of c) ≡ c)
unfolding code extract_error_code
codes_agree c h = (after_last_slash-append reference_base_url c h, trim_slash-NoSlash c h)
