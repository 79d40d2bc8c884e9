-- ===== src/Common/Text.antt =====
-- Go strings as lists of bytes, with the functions of package `strings` that the program calls.
use Prim.Native.Char.{code}
use Prim.Native.String.{String}
use Prim.Native.Nat.{ℕ, zero, suc, ◌+◌, ◌/◌, ◌%◌, compare, Ordering}
use mathlib.Core.Path.{◌≡◌, refl}
use mathlib.Core.Logic.{◌↔◌}
use mathlib.Core.Bool.{Bool, true, false, ◌&&◌, ◌||◌}
use mathlib.Core.Option.{Option, none, some}
use mathlib.Core.List.{List, [], ◌∷◌, ◌++◌, reverse, map}
use native.Mathlib.Omega.{arith}
use claude_hooks.Common.Int.{ℤ, pos, negsuc}
use claude_hooks.Common.Tests.{ltb, leb, ◌==◌, if◌then◌else◌}
use claude_hooks.Common.Lists.{length, drop}

abbrev pub Text : Type 0
Text = List ℕ

-- The bytes of a literal, which is ASCII.
abbrev pub codes : String → Text
codes String.[] = []
codes (String.◌∷◌ c s) = code c ∷ codes s

unfoldable pub text_eq : Text → Text → Bool
text_eq [] [] = true
text_eq (a ∷ s) (b ∷ t) = a == b && text_eq s t
text_eq _ _ = false

pub text_eq_iff : (s t : Text) → (text_eq s t ≡ true) ↔ (s ≡ t)
unfolding text_eq
text_eq_iff [] [] = ground arith
text_eq_iff (a ∷ s) (b ∷ t) = ground (arith, text_eq_iff s t)
text_eq_iff [] (b ∷ t) = ground arith
text_eq_iff (a ∷ s) [] = ground arith

pub text_eq_refl : (s : Text) → text_eq s s ≡ true
text_eq_refl s = (text_eq_iff s s).1 refl

-- s == ""
abbrev pub is_empty : Text → Bool
is_empty [] = true
is_empty (c ∷ s) = false

unfoldable pub contains : List Text → Text → Bool
unfolding text_eq
contains [] t = false
contains (s ∷ ss) t = text_eq s t || contains ss t

unfoldable pub has_prefix : Text → Text → Bool
has_prefix s [] = true
has_prefix [] (p ∷ ps) = false
has_prefix (c ∷ s) (p ∷ ps) = c == p && has_prefix s ps

-- `strings.TrimPrefix`.
unfoldable pub trim_prefix : Text → Text → Text
unfolding has_prefix
trim_prefix s p = if has_prefix s p then drop (length p) s else s

-- `strings.Contains`.
unfoldable pub contains_text : Text → Text → Bool
unfolding has_prefix
contains_text [] p = has_prefix [] p
contains_text (c ∷ s) p = has_prefix (c ∷ s) p || contains_text s p

unfoldable pub contains_byte : ℕ → Text → Bool
contains_byte b [] = false
contains_byte b (c ∷ s) = c == b || contains_byte b s

-- The text from the first occurrence of `p`: `s[strings.Index(s, p):]`, if there is one.
unfoldable pub from_index : Text → Text → Option Text
unfolding has_prefix
from_index [] p = if has_prefix [] p then some [] else none
from_index (c ∷ s) p =
    let later = from_index s p in if has_prefix (c ∷ s) p then some (c ∷ s) else later

-- The text up to the first byte that passes the test; the whole text if none does.
unfoldable pub take_until : (ℕ → Bool) → Text → Text
take_until stop [] = []
take_until stop (c ∷ s) = let rest = take_until stop s in if stop c then [] else c ∷ rest

unfoldable pub drop_while : (ℕ → Bool) → Text → Text
drop_while skip [] = []
drop_while skip (c ∷ s) = let rest = drop_while skip s in if skip c then rest else c ∷ s

-- White space as `strings.TrimSpace` sees it in ASCII: \t \n \v \f \r and the space.
unfoldable pub is_space : ℕ → Bool
is_space c = (leb 9 c && leb c 13) || c == 32

unfoldable pub trim_space : Text → Text
unfolding drop_while is_space
trim_space s = reverse (drop_while is_space (reverse (drop_while is_space s)))

unfoldable pub to_lower_byte : ℕ → ℕ
to_lower_byte c = if leb b'A' c && leb c b'Z' then c + 32 else c

unfoldable pub to_lower : Text → Text
unfolding to_lower_byte
to_lower s = map to_lower_byte s

-- `strings.Split` at one byte: the pieces between its occurrences, one at least.
unfoldable pub split_onto : ℕ → Text → Text → List Text
split_onto sep piece [] = piece ∷ []
split_onto sep piece (c ∷ s) = elim (c == sep) [
  | true ↦ piece ∷ split_onto sep [] s
  | false ↦ split_onto sep (piece ++ (c ∷ [])) s
]

unfoldable pub split : ℕ → Text → List Text
unfolding split_onto
split sep s = split_onto sep [] s

-- The text before the first `sep`, and what follows it if there is one: `strings.SplitN(s, sep, 2)`.
unfoldable pub cut : ℕ → Text → Text × Option Text
cut sep [] = ([], none)
cut sep (c ∷ s) =
    let (before, after) = cut sep s in if c == sep then ([], some s) else (c ∷ before, after)

-- `strings.Join`.
unfoldable pub join : Text → List Text → Text
join sep [] = []
join sep (s ∷ []) = s
join sep (s ∷ (t ∷ ts)) = s ++ (sep ++ join sep (t ∷ ts))

-- `cmp.Compare` on strings: lexicographic by bytes.
unfoldable pub compare_text : Text → Text → Ordering
compare_text [] [] = Ordering.eq
compare_text [] (b ∷ t) = Ordering.lt
compare_text (a ∷ s) [] = Ordering.gt
compare_text (a ∷ s) (b ∷ t) =
    let rest = compare_text s t in
    elim (compare a b) [
      | Ordering.lt ↦ Ordering.lt
      | Ordering.eq ↦ rest
      | Ordering.gt ↦ Ordering.gt
    ]

-- Decimal digits, most significant first; `fuel` above the number is enough.
unfoldable pub digits : ℕ → ℕ → Text
digits zero n = []
digits (suc fuel) n =
    let rest = digits fuel (n / 10) in
    if ltb n 10 then (48 + n) ∷ [] else rest ++ ((48 + n % 10) ∷ [])

-- `strconv.Itoa`.
unfoldable pub itoa : ℤ → Text
unfolding digits
itoa (pos n) = digits (suc n) n
itoa (negsuc n) = b'-' ∷ digits (suc (suc n)) (suc n)
