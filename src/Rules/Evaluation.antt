-- ===== src/Rules/Evaluation.antt =====
-- The rule that decides is an enabled matching one of the highest priority
-- (internal/rules/evaluator.go).
use claude_hooks.Common.{
  ◌≡◌, refl, sym, ◌∙◌, Bool, true, false, ◌&&◌, [], ◌∷◌, arith, if◌then◌else◌, inl, inr, Bool-cases,
  All, if_true, if_false,
}
use mathlib.Core.Path.{subst}
use claude_hooks.Common.Int.{ℤ, ◌≤ℤ◌}
use claude_hooks.Common.Text.{Text}
use claude_hooks.Rules.{
  CompiledRule, Registry, MatchContext, RuleResult, matched, not_matched, first_match, evaluate,
}
use claude_hooks.Rules.Sorting.{Sorted, in_order-priority}

module _ (ctx : MatchContext) where
  -- The rule is enabled and matches.
  abbrev pub applies : CompiledRule → Bool
  applies c = c.rule.enabled && c.matcher ctx

  -- An applying rule has no higher priority than `best`.
  abbrev pub AtMost : CompiledRule → CompiledRule → Type 0
  AtMost best c = applies c ≡ true → c.rule.priority ≤ℤ best.rule.priority

  -- What the result says of the rules.
  abbrev pub Decides : Text → Registry → RuleResult → Type 0
  Decides default_action r (not_matched a) = (a ≡ default_action) × All (λ c. applies c ≡ false) r
  Decides default_action r (matched best) = (applies best ≡ true) × All (AtMost best) r

  Decides-skip :
      (a : Text) (c : CompiledRule) (r : Registry) (x : RuleResult)
      → applies c ≡ false
      → Decides a r x
      → Decides a (c ∷ r) x
  Decides-skip a c r (not_matched b) h d = (d.0, (h, d.1))
  Decides-skip a c r (matched best) h d = (d.0, ((λ y. cc), d.1))

  first-Decides :
      (a : Text) (c : CompiledRule) (r : Registry)
      → Sorted (c ∷ r)
      → All (λ d. d.rule.priority ≤ℤ c.rule.priority) r
  first-Decides a c [] s = tt
  first-Decides a c (d ∷ r) s =
      let le = in_order-priority c d s.0 in
      (le, All-le (c.rule.priority) (d.rule.priority) r le (first-Decides a d r s.1))
    where
      All-le :
          (p q : ℤ) (r : Registry)
          → q ≤ℤ p
          → All (λ e. e.rule.priority ≤ℤ q) r
          → All (λ e. e.rule.priority ≤ℤ p) r
      All-le p q [] le h = tt
      All-le p q (e ∷ r) le h = (omega (arith, h.0), All-le p q r le h.1)

  evaluate-cons :
      (a : Text) (c : CompiledRule) (r : Registry)
      → evaluate a ctx (c ∷ r) ≡ (if applies c then matched c else evaluate a ctx r)
  unfolding evaluate first_match
  evaluate-cons a c r = elim (Bool-cases c.rule.enabled) [
    | inr off ↦ rw off
    | inl on ↦ elim (Bool-cases (c.matcher ctx)) [ inl y ↦ rw (on, y) | inr n ↦ rw (on, n) ]
  ]

  weaken-priority :
      (c : CompiledRule) (r : Registry)
      → All (λ d. d.rule.priority ≤ℤ c.rule.priority) r
      → All (AtMost c) r
  weaken-priority c [] h = tt
  weaken-priority c (d ∷ r) h = ((λ y. h.0), weaken-priority c r h.1)

  tail-Sorted : (c : CompiledRule) (r : Registry) → Sorted (c ∷ r) → Sorted r
  tail-Sorted c [] s = tt
  tail-Sorted c (d ∷ r) s = s.1

  -- On a sorted registry the rule that matches is enabled, its conditions hold, and no rule of which
  -- both are true has a higher priority; the default action is taken only where there is none.
  pub evaluate-Decides : (a : Text) (r : Registry) → Sorted r → Decides a r (evaluate a ctx r)
  unfolding evaluate first_match
  evaluate-Decides a [] s = (refl, tt)
  evaluate-Decides a (c ∷ r) s = elim (Bool-cases (applies c)) [
    | inl y ↦
        subst (Decides a (c ∷ r)) (sym (evaluate-cons a c r ∙ if_true (applies c) _ _ y))
          (y, ((λ q. omega arith), weaken-priority c r (first-Decides a c r s)))
    | inr n ↦
        subst (Decides a (c ∷ r)) (sym (evaluate-cons a c r ∙ if_false (applies c) _ _ n))
          (Decides-skip a c r (evaluate a ctx r) n (evaluate-Decides a r (tail-Sorted c r s)))
  ]
