-- ===== src/GitValidators/Remotes/Passing.antt =====
-- Which git push commands pass, and what is suggested instead (internal/validators/git/push.go,
-- remote_helper.go).
use claude_hooks.Common.{
  ◌≡◌, refl, sym, ap, ◌∙◌, Bool, true, not, ◌&&◌, ◌||◌, List, [], ◌∷◌, if◌then◌else◌, if_true,
  if_false, is_some, select, All, Bool-cases, inl, inr,
}
use mathlib.Core.Path.{subst}
use claude_hooks.Common.Text.{Text, codes, text_eq}
use claude_hooks.Common.Map.{Map, lookup}
use claude_hooks.Common.Result.{Result, ok, err}
use claude_hooks.Parser.{Command}
use claude_hooks.Parser.Git.{GitCommand, GitError, parse_git_command}
use claude_hooks.Validator.{ValidationResult}
use claude_hooks.GitValidators.{names, no_args, after_parse, validate_each}
use claude_hooks.GitValidators.Remotes.{
  PushConfig, not_blocked, suggested_remotes, available_remotes, priority_of,
}

unless-failed :
    (r s : ValidationResult) → (if not r.passed then r else s).passed ≡ (r.passed && s.passed)
unless-failed r s = elim (Bool-cases r.passed) [
  | inl y ↦
      ap (λ (x : ValidationResult). x.passed) (if_false (not r.passed) _ _ (ap not y))
      ∙ sym (ap (λ b. b && s.passed) y)
  | inr n ↦
      ap (λ (x : ValidationResult). x.passed) (if_true (not r.passed) _ _ (ap not n))
      ∙ n
      ∙ sym (ap (λ b. b && s.passed) n)
]

-- A command that is none of the subcommand, or that passes its check.
abbrev pub subcommand_fine :
    (GitCommand → ValidationResult) → Text → Result GitError GitCommand → Bool
subcommand_fine check sub (err e) = true
subcommand_fine check sub (ok g) = not (text_eq g.subcommand sub) || (check g).passed

abbrev pub command_fine : (GitCommand → ValidationResult) → Text → Command → Bool
command_fine check sub c =
    (not (text_eq c.name (codes "git")) || no_args c.args)
    || subcommand_fine check sub (parse_git_command c)

abbrev pub all_fine : (GitCommand → ValidationResult) → Text → List Command → Bool
all_fine check sub [] = true
all_fine check sub (c ∷ cs) = command_fine check sub c && all_fine check sub cs

after_parse-passed :
    (check : GitCommand → ValidationResult) (sub : Text) (rest : ValidationResult)
    (o : Result GitError GitCommand)
    → (after_parse check sub rest o).passed ≡ (subcommand_fine check sub o && rest.passed)
after_parse-passed check sub rest (err e) = refl
after_parse-passed check sub rest (ok g) = elim (Bool-cases (text_eq g.subcommand sub)) [
  | inl y ↦
      ap (λ (x : ValidationResult). x.passed)
        (if_false (not (text_eq g.subcommand sub)) _ _ (ap not y))
      ∙ unless-failed (check g) rest
      ∙ sym (ap (λ b. (not b || (check g).passed) && rest.passed) y)
  | inr n ↦
      ap (λ (x : ValidationResult). x.passed)
        (if_true (not (text_eq g.subcommand sub)) _ _ (ap not n))
      ∙ sym (ap (λ b. (not b || (check g).passed) && rest.passed) n)
]

-- The loop over the commands of a line passes exactly when each of them does that is a git command
-- with the subcommand.
pub validate_each-all_fine :
    (check : GitCommand → ValidationResult) (sub : Text) (cs : List Command)
    → (validate_each check sub cs).passed ≡ all_fine check sub cs
unfolding validate_each
validate_each-all_fine check sub [] = refl
validate_each-all_fine check sub (c ∷ cs) =
    let skipped = not (text_eq c.name (codes "git")) || no_args c.args in
    let rest = validate_each check sub cs in
    elim (Bool-cases skipped) [
      | inl y ↦
          ap (λ (x : ValidationResult). x.passed) (if_true skipped _ _ y)
          ∙ validate_each-all_fine check sub cs
          ∙ sym (
              ap
                (λ b.
                  (b || subcommand_fine check sub (parse_git_command c)) && all_fine check sub cs)
                y)
      | inr n ↦
          ap (λ (x : ValidationResult). x.passed) (if_false skipped _ _ n)
          ∙ after_parse-passed check sub rest (parse_git_command c)
          ∙ ap (λ b. subcommand_fine check sub (parse_git_command c) && b)
              (validate_each-all_fine check sub cs)
          ∙ sym (
              ap
                (λ b.
                  (b || subcommand_fine check sub (parse_git_command c)) && all_fine check sub cs)
                n)
    ]

select-All : (p : Text → Bool) (xs : List Text) → All (λ x. p x ≡ true) (select p xs)
select-All p [] = tt
select-All p (x ∷ xs) = elim (Bool-cases (p x)) [
  | inl y ↦ subst (All (λ x. p x ≡ true)) (sym (if_true (p x) _ _ y)) (y, select-All p xs)
  | inr n ↦ subst (All (λ x. p x ≡ true)) (sym (if_false (p x) _ _ n)) (select-All p xs)
]

-- No remote that is suggested or listed in place of a blocked one is blocked itself, and those
-- suggested exist.
pub suggested_remotes-not_blocked :
    (c : PushConfig) (m : Map Text)
    → All (λ n. (is_some (lookup n m) && not_blocked c n) ≡ true) (suggested_remotes c m)
      × All (λ n. not_blocked c n ≡ true) (available_remotes c m)
unfolding suggested_remotes available_remotes
suggested_remotes-not_blocked c m = (
  select-All (λ n. is_some (lookup n m) && not_blocked c n) (priority_of c),
  select-All (not_blocked c) (names m),
)
