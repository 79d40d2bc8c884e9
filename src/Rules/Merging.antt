-- ===== src/Rules/Merging.antt =====
-- Two lists of rules merged into one (MergeRules in internal/rules/registry.go).
use claude_hooks.Common.{
  ◌≡◌, refl, sym, ap, ◌∙◌, Bool, true, false, List, [], ◌∷◌, Option, none, some, if◌then◌else◌,
  if_true, if_false, All, arith, Bool-cases, inl, inr,
}
use mathlib.Core.Path.{subst}
use claude_hooks.Common.Text.{Text, text_eq, text_eq_iff, compare_text}
use claude_hooks.Common.Map.{Map, lookup, insert, lookup-insert, IsMap, insert-IsMap}
use claude_hooks.Rules.{Rule, compare_ℤ}
use Prim.Native.Nat.{Ordering}

-- The loop that enters rules under their names.
unfoldable pub overlay : Map Rule → List Rule → Map Rule
unfolding insert
overlay m [] = m
overlay m (r ∷ rs) = overlay (insert r.name r m) rs

abbrev pub rules_of : Map Rule → List Rule
rules_of [] = []
rules_of ((name, r) ∷ m) = r ∷ rules_of m

-- By priority, the highest first, and then by name.
unfoldable pub compare_plain : Rule → Rule → Ordering
unfolding compare_text
compare_plain a b =
    let by_name = compare_text a.name b.name in
    elim (compare_ℤ b.priority a.priority) [
      | Ordering.lt ↦ Ordering.lt
      | Ordering.eq ↦ by_name
      | Ordering.gt ↦ Ordering.gt
    ]

abbrev pub plain_before : Rule → Rule → Bool
plain_before a b = elim (compare_plain a b) [ Ordering.gt ↦ false | _ ↦ true ]

unfoldable pub place_plain : Rule → List Rule → List Rule
unfolding compare_plain
place_plain r [] = r ∷ []
place_plain r (s ∷ ss) =
    let rest = place_plain r ss in if plain_before r s then r ∷ s ∷ ss else s ∷ rest

unfoldable pub sort_plain : List Rule → List Rule
unfolding place_plain
sort_plain [] = []
sort_plain (r ∷ rs) = place_plain r (sort_plain rs)

unfoldable pub merge_rules : List Rule → List Rule → List Rule
unfolding overlay sort_plain
merge_rules base override = sort_plain (rules_of (overlay (overlay [] base) override))

-- The first rule of a name, and the last one.
abbrev pub find_named : Text → List Rule → Option Rule
find_named n [] = none
find_named n (r ∷ rs) = if text_eq r.name n then some r else find_named n rs

abbrev pub or_else : Option Rule → Option Rule → Option Rule
or_else none o = o
or_else (some r) o = some r

abbrev pub last_named : Text → List Rule → Option Rule
last_named n [] = none
last_named n (r ∷ rs) = or_else (last_named n rs) (if text_eq r.name n then some r else none)

abbrev Named : Map Rule → Type 0
Named m = IsMap m × All (λ e. e.1.name ≡ e.0) m

or_else_assoc : (a b c : Option Rule) → or_else a (or_else b c) ≡ or_else (or_else a b) c
or_else_assoc none b c = refl
or_else_assoc (some r) b c = refl

if-or_else :
    (b : Bool) (r : Rule) (o : Option Rule)
    → (if b then some r else o) ≡ or_else (if b then some r else none) o
if-or_else true r o = refl
if-or_else false r o = refl

lookup-overlay :
    (n : Text) (m : Map Rule) (rs : List Rule)
    → lookup n (overlay m rs) ≡ or_else (last_named n rs) (lookup n m)
unfolding overlay
lookup-overlay n m [] = refl
lookup-overlay n m (r ∷ rs) =
    lookup-overlay n (insert r.name r m) rs
    ∙ ap (or_else (last_named n rs))
        (lookup-insert r.name n r m ∙ if-or_else (text_eq r.name n) r (lookup n m))
    ∙ or_else_assoc (last_named n rs) (if text_eq r.name n then some r else none) (lookup n m)

insert-Named : (r : Rule) (m : Map Rule) → Named m → Named (insert r.name r m)
unfolding insert
insert-Named r m h = (insert-IsMap r.name r m h.0, names r.name r m refl h.1)
  where
    names :
        (k : Text) (r : Rule) (m : Map Rule)
        → r.name ≡ k
        → All (λ e. e.1.name ≡ e.0) m
        → All (λ e. e.1.name ≡ e.0) (insert k r m)
    names k r [] e h = (e, tt)
    names k r ((j, s) ∷ m) e h =
        let P = λ (x : Map Rule). All (λ e. e.1.name ≡ e.0) x in
        elim (Bool-cases (text_eq j k)) [
          | inl y ↦
              subst P (sym (if_true (text_eq j k) _ _ y)) (e ∙ sym ((text_eq_iff j k).0 y), h.1)
          | inr n ↦ subst P (sym (if_false (text_eq j k) _ _ n)) (h.0, names k r m e h.1)
        ]

overlay-Named : (m : Map Rule) (rs : List Rule) → Named m → Named (overlay m rs)
unfolding overlay
overlay-Named m [] h = h
overlay-Named m (r ∷ rs) h = overlay-Named (insert r.name r m) rs (insert-Named r m h)

-- The rules have different names.
abbrev Differ : List Rule → Type 0
Differ [] = Unit
Differ (r ∷ rs) = All (λ s. text_eq r.name s.name ≡ false) rs × Differ rs

absent-names :
    (k : Text) (m : Map Rule)
    → All (λ e. e.1.name ≡ e.0) m
    → lookup k m ≡ none
    → All (λ s. text_eq k s.name ≡ false) (rules_of m)
unfolding lookup
absent-names k [] h e = tt
absent-names k ((j, s) ∷ m) h e = elim (Bool-cases (text_eq j k)) [
  | inl y ↦ let found : some s ≡ none = sym (if_true (text_eq j k) _ _ y) ∙ e in absurd (cc)
  | inr n ↦ (
    subst (λ u. text_eq k u ≡ false) (sym h.0)
        (ground (arith, text_eq_iff j k, text_eq_iff k j, n)),
    absent-names k m h.1 (sym (if_false (text_eq j k) _ _ n) ∙ e),
  )
]

rules_of-Differ : (m : Map Rule) → Named m → Differ (rules_of m)
rules_of-Differ [] h = tt
rules_of-Differ ((j, s) ∷ m) h = (
  subst (λ k. All (λ u. text_eq k u.name ≡ false) (rules_of m)) (sym h.1.0)
      (absent-names j m h.1.1 h.0.0),
  rules_of-Differ m (h.0.1, h.1.1),
)

find_named-rules_of :
    (n : Text) (m : Map Rule) → All (λ e. e.1.name ≡ e.0) m → find_named n (rules_of m) ≡ lookup n m
unfolding lookup
find_named-rules_of n [] h = refl
find_named-rules_of n ((j, s) ∷ m) h =
    ap (λ k. if text_eq k n then some s else find_named n (rules_of m)) h.0
    ∙ ap (λ o. if text_eq j n then some s else o) (find_named-rules_of n m h.1)

place_plain-All {ℓ} :
    (P : Rule → Type ℓ) (r : Rule) (ss : List Rule) → P r → All P ss → All P (place_plain r ss)
unfolding place_plain
place_plain-All P r [] p h = (p, tt)
place_plain-All P r (s ∷ ss) p h = elim (Bool-cases (plain_before r s)) [
  | inl y ↦ subst (All P) (sym (if_true (plain_before r s) _ _ y)) (p, h)
  | inr n ↦
      subst (All P) (sym (if_false (plain_before r s) _ _ n)) (h.0, place_plain-All P r ss p h.1)
]

sort_plain-All {ℓ} : (P : Rule → Type ℓ) (rs : List Rule) → All P rs → All P (sort_plain rs)
unfolding sort_plain
sort_plain-All P [] h = tt
sort_plain-All P (r ∷ rs) h = place_plain-All P r (sort_plain rs) h.0 (sort_plain-All P rs h.1)

swap_names :
    (n : Text) (r s : Rule) (o : Option Rule)
    → text_eq r.name s.name ≡ false
    → (if text_eq s.name n then some s else if text_eq r.name n then some r else o)
      ≡ (if text_eq r.name n then some r else if text_eq s.name n then some s else o)
swap_names n r s o d =
    ground (arith, text_eq_iff r.name n, text_eq_iff s.name n, text_eq_iff r.name s.name, d)

find_named-place :
    (n : Text) (r : Rule) (ss : List Rule)
    → All (λ s. text_eq r.name s.name ≡ false) ss
    → find_named n (place_plain r ss) ≡ find_named n (r ∷ ss)
unfolding place_plain
find_named-place n r [] d = refl
find_named-place n r (s ∷ ss) d = elim (Bool-cases (plain_before r s)) [
  | inl y ↦ ap (find_named n) (if_true (plain_before r s) _ _ y)
  | inr k ↦
      ap (find_named n) (if_false (plain_before r s) _ _ k)
      ∙ ap (λ o. if text_eq s.name n then some s else o) (find_named-place n r ss d.1)
      ∙ swap_names n r s (find_named n ss) d.0
]

find_named-sort :
    (n : Text) (rs : List Rule) → Differ rs → find_named n (sort_plain rs) ≡ find_named n rs
unfolding sort_plain
find_named-sort n [] d = refl
find_named-sort n (r ∷ rs) d =
    find_named-place n r (sort_plain rs)
      (sort_plain-All (λ s. text_eq r.name s.name ≡ false) rs d.0)
    ∙ ap (λ o. if text_eq r.name n then some r else o) (find_named-sort n rs d.1)

-- What is found under a name in two merged lists is the last rule with the name in the second, or else
-- the last one in the first.
pub merge_rules-last_named :
    (n : Text) (base override : List Rule)
    → find_named n (merge_rules base override) ≡ or_else (last_named n override) (last_named n base)
unfolding merge_rules lookup
merge_rules-last_named n base override =
    let first = overlay [] base in
    let both = overlay first override in
    let named : Named both = overlay-Named first override (overlay-Named [] base (tt, tt)) in
    find_named-sort n (rules_of both) (rules_of-Differ both named)
    ∙ find_named-rules_of n both named.1
    ∙ lookup-overlay n first override
    ∙ ap (or_else (last_named n override)) (lookup-overlay n [] base ∙ or_none (last_named n base))
  where
    or_none : (o : Option Rule) → or_else o none ≡ o
    or_none none = refl
    or_none (some r) = refl
