-- ===== src/Rules/Sorting.antt =====
-- The registry stays sorted with one rule to a name, and a rule that is added or merged replaces
-- the one of its name (internal/rules/registry.go).
use Prim.Native.Nat.{Ordering}
use mathlib.Core.Path.{subst}
use claude_hooks.Common.{
  ◌≡◌, refl, ◌∙◌, true, false, [], ◌∷◌, Option, none, some, arith, if◌then◌else◌, inl, inr,
  Bool-cases,
}
use claude_hooks.Common.Int.{◌≤ℤ◌}
use claude_hooks.Common.Text.{Text, text_eq, text_eq_iff, compare_text, is_empty}
use claude_hooks.Common.Result.{Result, ok, err, OnOk}
use claude_hooks.Rules.{
  Rule, RuleMatch, RuleAction, Matcher, CompiledRule, Registry, compare_rules, in_order, place,
  sort_rules, put, add, add_acting, add_built, get, put_all, merge,
}

compare_text-flip : (s t : Text) → compare_text s t ≡ Ordering.gt → compare_text t s ≡ Ordering.lt
unfolding compare_text
compare_text-flip [] [] h = cc
compare_text-flip [] (b ∷ t) h = cc
compare_text-flip (a ∷ s) [] h = refl
compare_text-flip (a ∷ s) (b ∷ t) h = ground (arith, compare_text-flip s t)

-- Of two rules, one may stand before the other.
in_order-total : (a b : CompiledRule) → in_order a b ≡ false → in_order b a ≡ true
unfolding compare_rules
in_order-total a b h = ground (arith, compare_text-flip a.rule.name b.rule.name)

pub in_order-priority :
    (a b : CompiledRule) → in_order a b ≡ true → b.rule.priority ≤ℤ a.rule.priority
unfolding compare_rules
in_order-priority a b h = ground arith

-- Each rule may stand before the next.
abbrev pub Sorted : Registry → Type 0
Sorted [] = Unit
Sorted (c ∷ []) = Unit
Sorted (c ∷ (d ∷ r)) = (in_order c d ≡ true) × Sorted (d ∷ r)

-- No name stands twice.
abbrev pub Unique : Registry → Type 0
Unique [] = Unit
Unique (c ∷ r) = (get c.rule.name r ≡ none) × Unique r

abbrev Before : CompiledRule → Registry → Type 0
Before c [] = Unit
Before c (d ∷ r) = in_order c d ≡ true

Sorted-cons : (c : CompiledRule) (r : Registry) → Before c r → Sorted r → Sorted (c ∷ r)
Sorted-cons c [] b s = tt
Sorted-cons c (d ∷ r) b s = (b, s)

Sorted-tail : (c : CompiledRule) (r : Registry) → Sorted (c ∷ r) → Sorted r × Before c r
Sorted-tail c [] s = (tt, tt)
Sorted-tail c (d ∷ r) s = (s.1, s.0)

place-Before :
    (c d : CompiledRule) (r : Registry) → in_order d c ≡ true → Before d r → Before d (place c r)
unfolding place
place-Before c d [] h b = h
place-Before c d (e ∷ r) h b = elim (Bool-cases (in_order c e)) [ inl y ↦ rw y h | inr n ↦ rw n b ]

place-Sorted : (c : CompiledRule) (r : Registry) → Sorted r → Sorted (place c r)
unfolding place
place-Sorted c [] s = tt
place-Sorted c (d ∷ r) s = elim (Bool-cases (in_order c d)) [
  | inl y ↦ rw y (y, s)
  | inr n ↦
      let (tail, b) = Sorted-tail d r s in
      rw n (
        Sorted-cons d (place c r) (place-Before c d r (in_order-total c d n) b)
          (place-Sorted c r tail))
]

pub sort_rules-Sorted : (r : Registry) → Sorted (sort_rules r)
unfolding sort_rules
sort_rules-Sorted [] = tt
sort_rules-Sorted (c ∷ r) = place-Sorted c (sort_rules r) (sort_rules-Sorted r)

get-place :
    (n : Text) (c : CompiledRule) (r : Registry)
    → get c.rule.name r ≡ none
    → get n (place c r) ≡ (if text_eq c.rule.name n then some c else get n r)
unfolding get place
get-place n c [] h = refl
get-place n c (d ∷ r) h = ground (
  arith,
  text_eq_iff c.rule.name n,
  text_eq_iff d.rule.name n,
  text_eq_iff d.rule.name c.rule.name,
  get-place n c r,
)

get-sort_rules : (n : Text) (r : Registry) → Unique r → get n (sort_rules r) ≡ get n r
unfolding sort_rules get
get-sort_rules n [] u = refl
get-sort_rules n (c ∷ r) u =
    get-place n c (sort_rules r) (get-sort_rules c.rule.name r u.1 ∙ u.0)
    ∙ rw (get-sort_rules n r u.1)

get-cons_none :
    (n : Text) (d : CompiledRule) (r : Registry)
    → get n (d ∷ r) ≡ none
    → (text_eq d.rule.name n ≡ false) × (get n r ≡ none)
unfolding get
get-cons_none n d r h = elim (Bool-cases (text_eq d.rule.name n)) [
  | inl y ↦ absurd (cc (rw y at h))
  | inr m ↦ (m, (rw m at h))
]

text_eq_sym : (s t : Text) → text_eq s t ≡ false → text_eq t s ≡ false
text_eq_sym s t h = ground (arith, text_eq_iff s t, text_eq_iff t s)

place-Unique :
    (c : CompiledRule) (r : Registry) → get c.rule.name r ≡ none → Unique r → Unique (place c r)
unfolding place
place-Unique c [] h u = (h, tt)
place-Unique c (d ∷ r) h u = elim (Bool-cases (in_order c d)) [
  | inl y ↦ rw y (h, u)
  | inr n ↦
      let (differs, absent) = get-cons_none c.rule.name d r h in
      rw n (
        get-place d.rule.name c r absent ∙ rw (text_eq_sym d.rule.name c.rule.name differs) u.0,
        place-Unique c r absent u.1,
      )
]

sort_rules-Unique : (r : Registry) → Unique r → Unique (sort_rules r)
unfolding sort_rules
sort_rules-Unique [] u = tt
sort_rules-Unique (c ∷ r) u =
    place-Unique c (sort_rules r) (get-sort_rules c.rule.name r u.1 ∙ u.0) (sort_rules-Unique r u.1)

get-put :
    (n : Text) (c : CompiledRule) (r : Registry)
    → get n (put c r) ≡ (if text_eq c.rule.name n then some c else get n r)
unfolding get put
get-put n c [] = refl
get-put n c (d ∷ r) = ground (
  arith,
  text_eq_iff c.rule.name n,
  text_eq_iff d.rule.name n,
  text_eq_iff d.rule.name c.rule.name,
  get-put n c r,
)

put-Unique : (c : CompiledRule) (r : Registry) → Unique r → Unique (put c r)
unfolding put
put-Unique c [] u = (unfold get in refl, tt)
put-Unique c (d ∷ r) u = elim (Bool-cases (text_eq d.rule.name c.rule.name)) [
  | inl y ↦ rw y (rw ((text_eq_iff d.rule.name c.rule.name).0 y) at u.0, u.1)
  | inr n ↦
      rw n (
        get-put d.rule.name c r ∙ rw (text_eq_sym d.rule.name c.rule.name n) u.0,
        put-Unique c r u.1,
      )
]

-- Sorted by priority and name, with one rule to a name.
abbrev pub IsRegistry : Registry → Type 0
IsRegistry r = Sorted r × Unique r

put_all-Unique : (cs r : Registry) → Unique r → Unique (put_all cs r)
unfolding put_all
put_all-Unique [] r u = u
put_all-Unique (c ∷ cs) r u = put_all-Unique cs (put c r) (put-Unique c r u)

abbrev pub or_get : Option CompiledRule → Option CompiledRule → Option CompiledRule
or_get none o = o
or_get (some c) o = some c

get-put_all :
    (n : Text) (cs r : Registry) → Unique cs → get n (put_all cs r) ≡ or_get (get n cs) (get n r)
unfolding put_all get
get-put_all n [] r u = refl
get-put_all n (c ∷ cs) r u =
    get-put_all n cs (put c r) u.1 ∙ (elim (Bool-cases (text_eq c.rule.name n)) [
      | inl y ↦ rw (y, get-put n c r) (rw (rw ((text_eq_iff c.rule.name n).0 y) at u.0) (rw y))
      | inr m ↦ rw (m, get-put n c r) (rw m)
    ])

-- Merging gives a registry again, in which a rule of the source stands for its name and the other
-- names have the rules they had.
pub merge-get :
    (source r : Registry)
    → IsRegistry source
    → IsRegistry r
    → IsRegistry (merge source r)
      × ((n : Text) → get n (merge source r) ≡ or_get (get n source) (get n r))
unfolding merge
merge-get source r s h =
    let unique = put_all-Unique source r h.1 in
    (
      (sort_rules-Sorted (put_all source r), sort_rules-Unique (put_all source r) unique),
      λ n. get-sort_rules n (put_all source r) unique ∙ get-put_all n source r s.1,
    )

module _ (build : Option RuleMatch → Result Text (Option Matcher)) (rule : Rule)
    (r : Registry) where
  -- What a successful `Add` gives.
  abbrev pub Added : Registry → Type 0
  Added r' =
      IsRegistry r'
      × ((c : CompiledRule) × (c.rule ≡ rule)
          × ((n : Text) → get n r' ≡ (if text_eq rule.name n then some c else get n r)))

  added : (c : CompiledRule) → c.rule ≡ rule → Unique r → Added (sort_rules (put c r))
  added c e u =
      let unique = put-Unique c r u in
      (
        (sort_rules-Sorted (put c r), sort_rules-Unique (put c r) unique),
        (
          c,
          e,
          λ n.
              get-sort_rules n (put c r) unique
              ∙ subst
                  (λ (q : Rule). get n (put c r) ≡ (if text_eq q.name n then some c else get n r)) e
                  (get-put n c r),
        ),
      )

  add_acting-Added : (o : Option RuleAction) → IsRegistry r → OnOk Added (add_acting build rule o r)
  add_acting-Added none h = tt
  add_acting-Added (some act) h = go (build rule.conditions)
    where
      go : (m : Result Text (Option Matcher)) → OnOk Added (add_built build rule act m r)
      go (err e) = tt
      go (ok m) = added _ refl h.1

  -- A rule that is accepted gives a sorted registry with one rule to a name, in which the rule
  -- stands for its name and every other name has the rule it had.
  pub add-Added : IsRegistry r → OnOk Added (add build rule r)
  unfolding add
  add-Added h = elim (Bool-cases (is_empty rule.name)) [
    | inl e ↦ rw e tt
    | inr n ↦ rw n (add_acting-Added rule.rule_action h)
  ]
