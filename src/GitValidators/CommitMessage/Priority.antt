-- ===== src/GitValidators/CommitMessage/Priority.antt =====
-- The reference of a commit message that is rejected (selectPrimaryReference in
-- internal/validators/git/commit_message.go).
use claude_hooks.Common.{
  ℕ, suc, ◌≤◌, ◌≡◌, refl, sym, true, false, List, [], ◌∷◌, Option, none, some, if◌then◌else◌,
  if_true, if_false, All, In, length, get_or, arith, Bool-cases, inl, inr,
}
use mathlib.Core.Path.{subst}
use claude_hooks.Common.Text.{Text, text_eq, text_eq_iff, text_eq_refl, contains}
use claude_hooks.Common.TextLaws.{All-combine}
use claude_hooks.GitValidators.CommitRules.{RuleResult}
use claude_hooks.GitValidators.CommitMessage.{
  references, priority_order, first_present, select_primary_reference,
}

-- The place of a reference in an order; those that are not in it come last.
abbrev pub rank : List Text → Text → ℕ
rank [] r = 0
rank (p ∷ ps) r = if text_eq p r then 0 else suc (rank ps r)

contains-In : (refs : List Text) (p : Text) → contains refs p ≡ true → In p refs
unfolding contains
contains-In [] p h = ground arith
contains-In (r ∷ refs) p h = ground (arith, contains-In refs p, text_eq_iff r p, text_eq_iff p r, h)

absent-All :
    (refs : List Text) (p : Text) → contains refs p ≡ false → All (λ r. text_eq p r ≡ false) refs
unfolding contains
absent-All [] p h = tt
absent-All (r ∷ refs) p h =
    (ground (arith, text_eq_iff r p, text_eq_iff p r, h), absent-All refs p (ground (arith, h)))

In-All : (P : Text → Type 0) (q : Text) (refs : List Text) → In q refs → All P refs → P q
In-All P q [] i a = absurd i
In-All P q (r ∷ refs) (inl e) a = subst P (sym e) a.0
In-All P q (r ∷ refs) (inr i) a = In-All P q refs i a.1

-- What the first reference of an order that is present is.
abbrev Best : List Text → List Text → Option Text → Type 0
Best ps refs none = All (λ r. rank ps r ≡ length ps) refs
Best ps refs (some q) = In q refs × All (λ r. rank ps q ≤ rank ps r) refs

All-zero : (refs : List Text) → All (λ r. rank [] r ≡ 0) refs
All-zero [] = tt
All-zero (r ∷ refs) = (refl, All-zero refs)

above_zero : (n : ℕ) (f : Text → ℕ) (refs : List Text) → n ≡ 0 → All (λ r. n ≤ f r) refs
above_zero n f [] e = tt
above_zero n f (r ∷ refs) e = (omega (arith, e), above_zero n f refs e)

later-Best :
    (p : Text) (ps refs : List Text) (o : Option Text)
    → All (λ r. text_eq p r ≡ false) refs
    → Best ps refs o
    → Best (p ∷ ps) refs o
later-Best p ps refs none a b =
    All-combine (λ r. text_eq p r ≡ false) (λ r. rank ps r ≡ length ps)
      (λ r. rank (p ∷ ps) r ≡ length (p ∷ ps)) (λ r n e. rw (n, e) refl) refs a b
later-Best p ps refs (some q) a b =
    let own = In-All (λ r. text_eq p r ≡ false) q refs b.0 a in
    (
      b.0,
      All-combine (λ r. text_eq p r ≡ false) (λ r. rank ps q ≤ rank ps r)
          (λ r. rank (p ∷ ps) q ≤ rank (p ∷ ps) r) (λ r n e. rw (n, own) (omega (arith, e))) refs a
          b.1,
    )

first_present-Best : (ps refs : List Text) → Best ps refs (first_present ps refs)
unfolding first_present
first_present-Best [] refs = All-zero refs
first_present-Best (p ∷ ps) refs = elim (Bool-cases (contains refs p)) [
  | inl y ↦ subst (Best (p ∷ ps) refs) (sym (if_true (contains refs p) _ _ y)) (
    contains-In refs p y,
    above_zero (rank (p ∷ ps) p) (rank (p ∷ ps)) refs (rw (text_eq_refl p) refl),
  )
  | inr n ↦ subst (Best (p ∷ ps) refs) (sym (if_false (contains refs p) _ _ n)) (
      later-Best p ps refs (first_present ps refs) (absent-All refs p n)
        (first_present-Best ps refs))
]

abbrev pub First : Text → List Text → Type 0
First q refs = In q refs × All (λ r. rank priority_order q ≤ rank priority_order r) refs

same_rank :
    (n m : ℕ) (f : Text → ℕ) (refs : List Text)
    → n ≡ m
    → All (λ r. f r ≡ m) refs
    → All (λ r. n ≤ f r) refs
same_rank n m f [] e a = tt
same_rank n m f (r ∷ refs) e a = (omega (arith, e, a.0), same_rank n m f refs e a.1)

chosen-First :
    (ref : Text) (refs : List Text) (o : Option Text)
    → Best priority_order (ref ∷ refs) o
    → First (get_or o ref) (ref ∷ refs)
chosen-First ref refs none b = (
  inl refl,
  same_rank (rank priority_order ref) (length priority_order) (rank priority_order) (ref ∷ refs) b.0
      b,
)
chosen-First ref refs (some q) b = b

-- The reference of a rejected message is that of one of the rules that failed, and none of these has
-- a reference that stands before it in the order of priority.
pub select_primary_reference-First :
    (r : RuleResult) (rs : List RuleResult)
    → First (select_primary_reference (r ∷ rs)) (references (r ∷ rs))
unfolding select_primary_reference
select_primary_reference-First r [] = (inl refl, (omega arith, tt))
select_primary_reference-First r (s ∷ ss) =
    chosen-First r.reference (references (s ∷ ss))
      (first_present priority_order (references (r ∷ s ∷ ss)))
      (first_present-Best priority_order (references (r ∷ s ∷ ss)))
