-- ===== src/Parser/Git/Message.antt =====
-- The commit message that the validators see: the value of `-m` (`FlagMap`, `ExtractCommitMessage`).
use claude_hooks.Common.{
  ◌≡◌, refl, sym, ap, ◌∙◌, true, false, not, ◌||◌, List, [], ◌∷◌, Option, none, some, inl, inr,
  arith, ◌==◌, Bool-cases, Option-cases, All, length, get_or,
}
use claude_hooks.Common.Text.{Text, codes, is_empty, text_eq, text_eq_iff, has_prefix}
use claude_hooks.Common.Map.{lookup, lookup-insert, insert}
use claude_hooks.Common.Result.{ok, err}
use claude_hooks.Parser.{Command, is_flag, simple}
use claude_hooks.Parser.Git.{
  GitCommand, takes_value, add_flag, parse_arg, parse_args, parse_git_command,
  extract_commit_message, get_flag_value,
}

none_ne_some : {t : Text} → none ≡ some t → ⊥
none_ne_some e = cc

-- An argument that is not a word of several short flags.
abbrev pub IsSeparate : Text → Type 0
IsSeparate a = (not (is_flag a) || has_prefix a (codes "--") || length a == 2) ≡ true

abbrev pub MessageIs : Text → GitCommand → Type 0
MessageIs title g = lookup (codes "-m") g.flag_map ≡ some title

-- A flag without a value is not `-m`.
other_flag :
    (title flag : Text) (g : GitCommand)
    → lookup flag g.flag_map ≡ none
    → MessageIs title g
    → text_eq flag (codes "-m") ≡ false
other_flag title flag g new m = elim (Bool-cases (text_eq flag (codes "-m"))) [
  | inr diff ↦ diff
  | inl same ↦ absurd (
      none_ne_some
        (sym new ∙ ap (λ k. lookup k g.flag_map) ((text_eq_iff flag (codes "-m")).0 same) ∙ m))
]

add_flag-message :
    (title flag : Text) (next : Option Text) (g : GitCommand)
    → MessageIs title g
    → MessageIs title (add_flag flag next g).1
unfolding add_flag
add_flag-message title flag none g m = m
add_flag-message title flag (some value) g m = elim (Bool-cases (takes_value flag)) [
  | inr no_value ↦ rw no_value m
  | inl takes ↦ elim (Option-cases (lookup flag g.flag_map)) [
    | inr (old, kept) ↦ rw (takes, kept) m
    | inl new ↦
        rw (takes, new)
          (rw (lookup-insert flag (codes "-m") value g.flag_map, other_flag title flag g new m) m)
  ]
]

parse_arg-message :
    (title arg : Text) (next : Option Text) (g : GitCommand)
    → IsSeparate arg
    → MessageIs title g
    → MessageIs title (parse_arg arg next g).1
unfolding parse_arg
parse_arg-message title arg next g sep m = ground (arith, add_flag-message title arg next g m)

parse_args-message :
    (title : Text) (as_ : List Text) (g : GitCommand)
    → All IsSeparate as_
    → MessageIs title g
    → MessageIs title (parse_args as_ g)
unfolding parse_args
parse_args-message title [] g sep m = m
parse_args-message title (arg ∷ []) g sep m = parse_arg-message title arg none g sep.0 m
parse_args-message title (arg ∷ (next ∷ rest)) g sep m =
    let after = parse_arg-message title arg (some next) g sep.0 m in
    elim (Bool-cases (parse_arg arg (some next) g).0) [
      | inl used ↦
          rw (used, parse_args)
            (parse_args-message title rest (parse_arg arg (some next) g).1 sep.1.1 after)
      | inr free ↦
          rw (free, parse_args)
            (parse_args-message title (next ∷ rest) (parse_arg arg (some next) g).1 sep.1 after)
    ]

extract-message :
    (title : Text) (g : GitCommand)
    → is_empty title ≡ false
    → MessageIs title g
    → extract_commit_message g ≡ title
unfolding extract_commit_message get_flag_value
extract-message title g ne m = rw (m, get_or, ne)

-- `git commit` followed by the given arguments.
abbrev pub commit_command : List Text → Command
commit_command as_ = record {
  name = codes "git";
  args = codes "commit" ∷ as_;
  location = record { line = 1; column = 1 };
  cmd_type = simple;
  raw = [];
  working_directory = [];
}

abbrev pub message_of : Command → Option Text
message_of cmd = elim (parse_git_command cmd) [
  | ok g ↦ some (extract_commit_message g)
  | err e ↦ none
]

-- With `-m` first, its value is the message, whatever follows, further `-m` included, as long as
-- nothing after it is a word of combined short flags.
pub first_message_kept :
    (title : Text) (rest : List Text)
    → is_empty title ≡ false
    → All IsSeparate rest
    → message_of (commit_command (codes "-m" ∷ title ∷ rest)) ≡ some title
unfolding parse_git_command
first_message_kept title rest ne sep = ap some (
    extract-message title _ ne
      (parse_args-message title rest _ sep (unfold parse_arg lookup insert in refl)))
