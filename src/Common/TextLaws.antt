-- ===== src/Common/TextLaws.antt =====
-- Laws of the text functions: prefixes, trimming, and splitting after joining.
use Prim.Native.Nat.{ℕ}
use mathlib.Core.Path.{◌≡◌, refl, ap, ◌∙◌}
use mathlib.Core.Bool.{true, false}
use mathlib.Core.Option.{some}
use mathlib.Core.List.{
  List, [], ◌∷◌, ◌++◌, reverse, append-nil, append_assoc, reverse-cons, reverse-reverse,
}
use native.Mathlib.Omega.{arith}
use claude_hooks.Common.Tests.{◌==◌}
use claude_hooks.Common.Lists.{All, length, drop}
use claude_hooks.Common.Text.{
  Text, has_prefix, trim_prefix, drop_while, is_space, trim_space, split_onto, split, cut, join,
}

pub All-append {ℓ κ} :
    {A : Type ℓ} (P : A → Type κ) (xs ys : List A) → All P xs → All P ys → All P (xs ++ ys)
All-append P [] ys h k = k
All-append P (x ∷ xs) ys h k = (h.0, All-append P xs ys h.1 k)

pub All-reverse {ℓ κ} : {A : Type ℓ} (P : A → Type κ) (xs : List A) → All P xs → All P (reverse xs)
All-reverse P [] h = tt
All-reverse P (x ∷ xs) h =
    rw reverse-cons (All-append P (reverse xs) (x ∷ []) (All-reverse P xs h.1) (h.0, tt))

pub All-weaken {ℓ κ ι} :
    {A : Type ℓ} (P : A → Type κ) (Q : A → Type ι)
    → ((a : A) → P a → Q a)
    → (xs : List A) → All P xs
    → All Q xs
All-weaken P Q f [] h = tt
All-weaken P Q f (x ∷ xs) h = (f x h.0, All-weaken P Q f xs h.1)

pub All-combine {ℓ κ ι} :
    {A : Type 0} (P : A → Type ℓ) (Q : A → Type κ) (R : A → Type ι)
    → ((a : A) → P a → Q a → R a)
    → (xs : List A) → All P xs
    → All Q xs
    → All R xs
All-combine P Q R f [] h k = tt
All-combine P Q R f (x ∷ xs) h k = (f x h.0 k.0, All-combine P Q R f xs h.1 k.1)

pub has_prefix-append : (p s : Text) → has_prefix (p ++ s) p ≡ true
unfolding has_prefix
has_prefix-append [] s = refl
has_prefix-append (c ∷ p) s = ground (arith, has_prefix-append p s)

pub drop-length : (p s : Text) → drop (length p) (p ++ s) ≡ s
drop-length [] s = refl
drop-length (c ∷ p) s = drop-length p s

pub trim_prefix-append : (p s : Text) → trim_prefix (p ++ s) p ≡ s
unfolding trim_prefix
trim_prefix-append p s = rw has_prefix-append (drop-length p s)

abbrev pub NotSpace : ℕ → Type 0
NotSpace c = is_space c ≡ false

drop_while-NotSpace : (s : Text) → All NotSpace s → drop_while is_space s ≡ s
unfolding drop_while
drop_while-NotSpace [] h = refl
drop_while-NotSpace (c ∷ s) h = rw h.0

pub trim_space-NotSpace : (s : Text) → All NotSpace s → trim_space s ≡ s
unfolding trim_space
trim_space-NotSpace s h =
    rw (drop_while-NotSpace s h, drop_while-NotSpace (reverse s) (All-reverse NotSpace s h))
      (reverse-reverse s)

abbrev pub Differs : ℕ → ℕ → Type 0
Differs sep c = (c == sep) ≡ false

pub cut-append :
    (sep : ℕ) (s rest : Text) → All (Differs sep) s → cut sep (s ++ (sep ∷ rest)) ≡ (s, some rest)
unfolding cut
cut-append sep [] rest h = ground arith
cut-append sep (c ∷ s) rest h = rw (cut-append sep s rest h.1, h.0)

split_onto-append :
    (sep : ℕ) (piece s rest : Text)
    → All (Differs sep) s
    → split_onto sep piece (s ++ (sep ∷ rest)) ≡ (piece ++ s) ∷ split_onto sep [] rest
unfolding split_onto
split_onto-append sep piece [] rest h = rw append-nil (ground arith)
split_onto-append sep piece (c ∷ s) rest h =
    rw (h.0, split_onto) (split_onto-append sep (piece ++ (c ∷ [])) s rest h.1 ∙ rw append_assoc)

split_onto_last :
    (sep : ℕ) (piece s : Text) → All (Differs sep) s → split_onto sep piece s ≡ (piece ++ s) ∷ []
unfolding split_onto
split_onto_last sep piece [] h = rw append-nil
split_onto_last sep piece (c ∷ s) h =
    rw (h.0, split_onto) (split_onto_last sep (piece ++ (c ∷ [])) s h.1 ∙ rw append_assoc)

-- Splitting undoes joining when no piece holds the separator.
pub split-join :
    (sep : ℕ) (p : Text) (ps : List Text)
    → All (All (Differs sep)) (p ∷ ps)
    → split sep (join (sep ∷ []) (p ∷ ps)) ≡ p ∷ ps
unfolding split join
split-join sep p [] h = split_onto_last sep [] p h.0
split-join sep p (q ∷ ps) h =
    split_onto-append sep [] p _ h.0 ∙ ap (λ (l : List Text). p ∷ l) (split-join sep q ps h.1)
