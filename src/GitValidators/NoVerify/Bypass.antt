-- ===== src/GitValidators/NoVerify/Bypass.antt =====
-- Which lines pass the validator against --no-verify (internal/validators/git/no_verify.go).
use claude_hooks.Common.{
  ◌≡◌, refl, sym, ap, ◌∙◌, Bool, true, false, not, ◌&&◌, ◌||◌, List, [], ◌∷◌, if_true, if_false,
  any, Bool-cases, inl, inr,
}
use claude_hooks.Common.Text.{Text, codes, text_eq}
use claude_hooks.Parser.{Command}
use claude_hooks.Parser.Git.{parse_git_command}
use claude_hooks.Validator.{ValidationResult, add_detail}
use claude_hooks.GitValidators.{Setting, starts_with_word}
use claude_hooks.GitValidators.NoVerify.{no_verify_used, refused, check_commands}

-- A git command whose first word is commit, with the flag.
abbrev pub uses_flag : Command → Bool
uses_flag d =
    not (not (text_eq d.name (codes "git")) || not (starts_with_word (codes "commit") d.args))
    && no_verify_used (parse_git_command d)

refused-passed : (v : Setting) → (refused v).passed ≡ false
unfolding refused add_detail
refused-passed v = refl

-- A line is refused exactly when one of its git commands has commit as the very first word and one of
-- the flags --no-verify and -n.
pub check_commands-uses_flag :
    (v : Setting) (cs : List Command) → (check_commands v cs).passed ≡ not (any uses_flag cs)
unfolding check_commands
check_commands-uses_flag v [] = refl
check_commands-uses_flag v (d ∷ ds) =
    let other =
      not (text_eq d.name (codes "git")) || not (starts_with_word (codes "commit") d.args) in
    let used = no_verify_used (parse_git_command d) in
    elim (Bool-cases other) [
      | inl y ↦
          ap (λ (x : ValidationResult). x.passed) (if_true other _ _ y)
          ∙ check_commands-uses_flag v ds
          ∙ sym (ap (λ b. not ((not b && used) || any uses_flag ds)) y)
      | inr n ↦ elim (Bool-cases used) [
        | inl u ↦
            ap (λ (x : ValidationResult). x.passed)
              (if_false other _ _ n ∙ if_true used (refused v) (check_commands v ds) u)
            ∙ refused-passed v
            ∙ sym (
                ap (λ b. not ((not b && used) || any uses_flag ds)) n
                ∙ ap (λ b. not (b || any uses_flag ds)) u)
        | inr u ↦
            ap (λ (x : ValidationResult). x.passed)
              (if_false other _ _ n ∙ if_false used (refused v) (check_commands v ds) u)
            ∙ check_commands-uses_flag v ds
            ∙ sym (
                ap (λ b. not ((not b && used) || any uses_flag ds)) n
                ∙ ap (λ b. not (b || any uses_flag ds)) u)
      ]
    ]

abbrev pub with_args : Command → List Text → Command
with_args d args = record d { args = args }

-- A git commit that is refused for its flags passes once a directory is given by the global option -C
-- in front of the subcommand.
pub refused_but_with_directory :
    (v : Setting) (d : Command) (dir : Text) (rest : List Text)
    → text_eq d.name (codes "git") ≡ true
    → no_verify_used (parse_git_command (with_args d (codes "commit" ∷ rest))) ≡ true
    → ((check_commands v (with_args d (codes "commit" ∷ rest) ∷ [])).passed ≡ false)
      × ((check_commands v (with_args d (codes "-C" ∷ (dir ∷ (codes "commit" ∷ rest))) ∷ [])).passed
          ≡ true)
unfolding text_eq
refused_but_with_directory v d dir rest n u = (
  check_commands-uses_flag v (with_args d (codes "commit" ∷ rest) ∷ [])
      ∙ ap
          (λ b. not (
            (not (not b || false)
              && no_verify_used (parse_git_command (with_args d (codes "commit" ∷ rest))))
            || false))
          n
      ∙ ap (λ b. not (b || false)) u,
  check_commands-uses_flag v (with_args d (codes "-C" ∷ (dir ∷ (codes "commit" ∷ rest))) ∷ [])
      ∙ ap
          (λ b. not (
            (not (not b || true)
              && no_verify_used
                  (parse_git_command (with_args d (codes "-C" ∷ (dir ∷ (codes "commit" ∷ rest))))))
            || false))
          n,
)
