-- ===== src/Validator/Chains.antt =====
-- Laws of the registry and of the predicates over chains of git commands.
use claude_hooks.Common.{
  ◌≡◌, refl, Bool, true, false, not, ◌&&◌, ◌||◌, List, [], ◌∷◌, ◌++◌, arith, any, if◌then◌else◌,
  map,
}
use claude_hooks.Common.Text.{Text, text_eq}
use claude_hooks.Hook.{Context, is_bash_tool}
use claude_hooks.Shell.{ShellParser}
use claude_hooks.Parser.Git.{has_flag}
use claude_hooks.Validator.{Validator}
use claude_hooks.Validator.Registry.{
  Predicate, Registry, register, find_validators, and_all, or_any, not_p, git_commands,
  git_subcommand_is, git_has_any_flag, git_subcommand_with_any_flag,
  git_subcommand_without_any_flag,
}

-- A validator that is registered is found last, and exactly where its predicate holds; what was
-- registered before is found as before.
pub find-register :
    (v : Validator) (p : Predicate) (r : Registry) (ctx : Context)
    → find_validators ctx (register v p r)
      ≡ (if p ctx then find_validators ctx r ++ (v ∷ []) else find_validators ctx r)
unfolding find_validators register
find-register v p [] ctx = refl
find-register v p (reg ∷ r) ctx = ground (arith, find-register v p r ctx)

-- `Not(And(…))` is `Or` of the negations, at every context.
pub not-and_all :
    (ps : List Predicate) (ctx : Context) → not_p (and_all ps) ctx ≡ or_any (map not_p ps) ctx
not-and_all [] ctx = refl
not-and_all (p ∷ ps) ctx = ground (arith, not-and_all ps ctx)

module _ {A : Type 0} (p q : A → Bool) where
  any-split :
      (xs : List A) → (any (λ x. p x && q x) xs || any (λ x. p x && not (q x)) xs) ≡ any p xs
  any-split [] = refl
  any-split (x ∷ xs) = ground (arith, any-split xs)

  any-weaken : (xs : List A) → any (λ x. p x && q x) xs ≡ true → (any p xs && any q xs) ≡ true
  any-weaken [] h = h
  any-weaken (x ∷ xs) h = ground (arith, any-weaken xs)

module _ (sh : ShellParser) (sub : Text) (fs : List Text) (ctx : Context) where
  -- A chain has a git command with the subcommand exactly when it has one with some of the flags or
  -- one without all of them, and on a tool other than Bash it has none.
  pub with_or_without :
      ((git_subcommand_with_any_flag sh sub fs ctx || git_subcommand_without_any_flag sh sub fs ctx)
        ≡ git_subcommand_is sh sub ctx)
      × (is_bash_tool ctx ≡ false → git_subcommand_is sh sub ctx ≡ false)
  unfolding git_subcommand_with_any_flag git_subcommand_without_any_flag git_subcommand_is
      git_commands
  with_or_without = (
    any-split (λ g. text_eq g.subcommand sub) (λ g. any (has_flag g) fs) (git_commands sh ctx),
    λ h. rw h,
  )

  -- The predicate on one command is stronger than `And` of the two over the chain.
  pub with_any_flag-both :
      git_subcommand_with_any_flag sh sub fs ctx ≡ true
      → and_all (git_subcommand_is sh sub ∷ git_has_any_flag sh fs ∷ []) ctx ≡ true
  unfolding git_subcommand_with_any_flag git_has_any_flag git_subcommand_is
  with_any_flag-both h = ground (
    arith,
    any-weaken (λ g. text_eq g.subcommand sub) (λ g. any (has_flag g) fs) (git_commands sh ctx),
  )
