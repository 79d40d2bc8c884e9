-- ===== src/Rules/Matchers/Categories.antt =====
-- The wildcards of validator types (ValidatorTypeMatcher in internal/rules/matcher.go).
use claude_hooks.Common.{
  ℕ, ◌≡◌, refl, sym, true, false, [], ◌∷◌, ◌++◌, some, All, arith, inl, inr, Bool-cases,
}
use claude_hooks.Common.Text.{Text, codes, text_eq, is_empty, has_prefix}
use claude_hooks.Common.TextLaws.{Differs}
use claude_hooks.Rules.Matchers.{cut_suffix, type_matches}

not_the_suffix : (x : ℕ) (c : Text) → text_eq (x ∷ (c ++ codes ".*")) (codes ".*") ≡ false
unfolding text_eq
not_the_suffix x [] = ground arith
not_the_suffix x (y ∷ []) = ground arith
not_the_suffix x (y ∷ z ∷ c) = ground arith

cut_suffix-wildcard : (c : Text) → cut_suffix (c ++ codes ".*") (codes ".*") ≡ some c
unfolding cut_suffix
cut_suffix-wildcard [] = unfold text_eq in refl
cut_suffix-wildcard (x ∷ c) = rw (not_the_suffix x c, cut_suffix-wildcard c) refl

has_prefix-category :
    (c d n : Text)
    → All (Differs 46) c
    → All (Differs 46) d
    → has_prefix (d ++ (46 ∷ n)) (c ++ codes ".") ≡ text_eq d c
unfolding has_prefix text_eq
has_prefix-category [] [] n g h = ground arith
has_prefix-category [] (y ∷ d) n g h = ground (arith, h.0)
has_prefix-category (x ∷ c) [] n g h = ground (arith, g.0)
has_prefix-category (x ∷ c) (y ∷ d) n g h = ground (arith, has_prefix-category c d n g.1 h.1)

same_category :
    (c d n : Text)
    → All (Differs 46) c
    → All (Differs 46) d
    → text_eq (d ++ (46 ∷ n)) (c ++ codes ".*") ≡ true
    → text_eq d c ≡ true
unfolding text_eq
same_category [] [] n g h e = refl
same_category [] (y ∷ d) n g h e = ground (arith, h.0)
same_category (x ∷ c) [] n g h e = ground (arith, g.0)
same_category (x ∷ c) (y ∷ d) n g h e = ground (arith, same_category c d n g.1 h.1)

wildcard_not_all : (c : Text) → text_eq (c ++ codes ".*") (codes "*") ≡ false
unfolding text_eq
wildcard_not_all [] = ground arith
wildcard_not_all (x ∷ []) = ground arith
wildcard_not_all (x ∷ y ∷ c) = ground arith

not_empty : (d n : Text) → is_empty (d ++ (46 ∷ n)) ≡ false
not_empty [] n = refl
not_empty (y ∷ d) n = refl

-- For categories `c` and `d` without dots, the validator type `c.*` of a rule matches the type `d.n`
-- exactly where `d` is `c`.
pub type_matches-category :
    (c d n : Text)
    → All (Differs 46) c
    → All (Differs 46) d
    → type_matches (c ++ codes ".*") (d ++ (codes "." ++ n)) ≡ text_eq d c
unfolding type_matches
type_matches-category c d n g h = elim (Bool-cases (text_eq (d ++ (46 ∷ n)) (c ++ codes ".*"))) [
  | inl y ↦ rw (wildcard_not_all c, not_empty d n, y) (sym (same_category c d n g h y))
  | inr k ↦
      rw (wildcard_not_all c, not_empty d n, k, cut_suffix-wildcard c)
        (has_prefix-category c d n g h)
]
