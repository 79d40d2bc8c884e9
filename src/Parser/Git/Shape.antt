-- ===== src/Parser/Git/Shape.antt =====
-- What the flags and arguments of a parsed git command look like.
use claude_hooks.Common.{
  ℕ, ◌≡◌, refl, Bool, true, false, ◌&&◌, ◌||◌, List, [], ◌∷◌, Option, none, some, inl, inr, arith,
  ◌==◌, Bool-cases, All, any, length, drop, is_some,
}
use claude_hooks.Common.Text.{Text, codes, is_empty, text_eq, has_prefix, contains}
use claude_hooks.Common.TextLaws.{All-append}
use claude_hooks.Common.Map.{Map, lookup}
use claude_hooks.Common.Result.{ok, OnOk, OnOk-ok}
use claude_hooks.Parser.{Command, is_flag}
use claude_hooks.Parser.Git.{
  GitCommand, takes_value, push_flag, set_flag, add_flag, parse_combined_flags, parse_arg,
  parse_args, start_command, parse_after, parse_git_command, parse_global_options, in_combined,
  has_flag,
}

-- A flag as it is stored: long, or a dash and one letter.
abbrev pub IsSplitFlag : Text → Type 0
IsSplitFlag f = ((has_prefix f (codes "--") || length f == 2) && is_flag f) ≡ true

pub record WellShaped (g : GitCommand) : Type 0 where
  pub flags_split : All IsSplitFlag g.flags
  pub args_positional : All (λ a. is_flag a ≡ false) g.args

push_flag-WellShaped :
    (flag : Text) (g : GitCommand) → IsSplitFlag flag → WellShaped g → WellShaped (push_flag flag g)
push_flag-WellShaped flag g h w = record {
  flags_split = All-append IsSplitFlag g.flags (flag ∷ []) w.flags_split (h, tt);
  args_positional = w.args_positional;
}

set_flag-WellShaped :
    (flag value : Text) (g : GitCommand) → WellShaped g → WellShaped (set_flag flag value g)
set_flag-WellShaped flag value g w = record {
  flags_split = w.flags_split;
  args_positional = w.args_positional;
}

add_flag-WellShaped :
    (flag : Text) (next : Option Text) (g : GitCommand)
    → IsSplitFlag flag
    → WellShaped g
    → WellShaped (add_flag flag next g).1
unfolding add_flag
add_flag-WellShaped flag none g h w = push_flag-WellShaped flag g h w
add_flag-WellShaped flag (some value) g h w =
    let pushed = push_flag-WellShaped flag g h w in
    elim (Bool-cases (takes_value flag)) [
      | inr no_value ↦ rw no_value pushed
      | inl takes ↦ elim (Bool-cases (is_some (lookup flag g.flag_map))) [
        | inl old ↦ rw (takes, old) pushed
        | inr new ↦ rw (takes, new) (set_flag-WellShaped flag value (push_flag flag g) pushed)
      ]
    ]

push_letter-WellShaped :
    (c : ℕ) (g : GitCommand) → WellShaped g → WellShaped (push_flag (b'-' ∷ c ∷ []) g)
push_letter-WellShaped c g w =
    push_flag-WellShaped (b'-' ∷ c ∷ []) g (unfold has_prefix is_flag in ground arith) w

-- The last letter takes the next argument, if there is one.
value_next-WellShaped :
    (c : ℕ) (next : Option Text) (g : GitCommand) (others : Bool × GitCommand)
    → WellShaped (push_flag (b'-' ∷ c ∷ []) g)
    → WellShaped others.1
    → WellShaped
        (elim next as (λ _. Bool × GitCommand) [
          | some value ↦ (true, set_flag (b'-' ∷ c ∷ []) value (push_flag (b'-' ∷ c ∷ []) g))
          | none ↦ others
        ]).1
value_next-WellShaped c none g others p o = o
value_next-WellShaped c (some value) g others p o =
    set_flag-WellShaped (b'-' ∷ c ∷ []) value (push_flag (b'-' ∷ c ∷ []) g) p

parse_combined_flags-WellShaped :
    (cs : Text) (next : Option Text) (g : GitCommand)
    → WellShaped g
    → WellShaped (parse_combined_flags cs next g).1
unfolding parse_combined_flags
parse_combined_flags-WellShaped [] next g w = w
parse_combined_flags-WellShaped (c ∷ cs) next g w =
    let flag : Text = b'-' ∷ c ∷ [] in
    let pushed = push_letter-WellShaped c g w in
    let others = parse_combined_flags-WellShaped cs next (push_flag flag g) pushed in
    elim (Bool-cases (takes_value flag)) [
      | inr no_value ↦ rw no_value others
      | inl takes ↦ elim (Bool-cases (is_empty cs)) [
        | inr inline_value ↦
            rw (takes, inline_value) (set_flag-WellShaped flag cs (push_flag flag g) pushed)
        | inl last ↦
            rw (takes, last)
              (value_next-WellShaped c next g (parse_combined_flags cs next (push_flag flag g))
                pushed others)
      ]
    ]

parse_arg-WellShaped :
    (arg : Text) (next : Option Text) (g : GitCommand)
    → WellShaped g
    → WellShaped (parse_arg arg next g).1
unfolding parse_arg
parse_arg-WellShaped arg next g w = elim (Bool-cases (is_flag arg)) [
  | inr positional ↦ rw positional (record {
    flags_split = w.flags_split;
    args_positional =
        All-append (λ a. is_flag a ≡ false) g.args (arg ∷ []) w.args_positional (positional, tt);
  })
  | inl flag ↦ elim (Bool-cases (has_prefix arg (codes "--"))) [
    | inl long ↦ rw (flag, long) (add_flag-WellShaped arg next g (ground arith) w)
    | inr short ↦ elim (Bool-cases (length arg == 2)) [
      | inl single ↦ rw (flag, short, single) (add_flag-WellShaped arg next g (ground arith) w)
      | inr combined ↦
          rw (flag, short, combined) (parse_combined_flags-WellShaped (drop 1 arg) next g w)
    ]
  ]
]

parse_args-WellShaped :
    (as_ : List Text) (g : GitCommand) → WellShaped g → WellShaped (parse_args as_ g)
unfolding parse_args
parse_args-WellShaped [] g w = w
parse_args-WellShaped (arg ∷ []) g w = parse_arg-WellShaped arg none g w
parse_args-WellShaped (arg ∷ (next ∷ rest)) g w =
    let after = parse_arg-WellShaped arg (some next) g w in
    elim (Bool-cases (parse_arg arg (some next) g).0) [
      | inl used ↦
          rw (used, parse_args) (parse_args-WellShaped rest (parse_arg arg (some next) g).1 after)
      | inr free ↦
          rw (free, parse_args)
            (parse_args-WellShaped (next ∷ rest) (parse_arg arg (some next) g).1 after)
    ]

parse_after-WellShaped :
    (dir : Text) (p : List Text × Map Text) → OnOk WellShaped (parse_after dir p)
unfolding parse_after
parse_after-WellShaped dir ([], globals) = tt
parse_after-WellShaped dir (sub ∷ rest, globals) =
    parse_args-WellShaped rest (start_command sub globals dir)
      (record { flags_split = tt; args_positional = tt })

-- Of a command that parses, each flag is a long flag or a dash with one letter, so combined flags
-- are taken apart, and no argument begins with a dash.
pub parse_git_command-WellShaped : (cmd : Command) → OnOk WellShaped (parse_git_command cmd)
unfolding parse_git_command
parse_git_command-WellShaped cmd = elim (Bool-cases (text_eq cmd.name (codes "git"))) [
  | inl git ↦
      rw git (parse_after-WellShaped cmd.working_directory (parse_global_options cmd.args []))
  | inr other ↦ rw other tt
]

not_in_combined : (flag f : Text) → IsSplitFlag f → in_combined flag f ≡ false
unfolding in_combined has_prefix is_flag
not_in_combined (d ∷ (letter ∷ [])) (e ∷ (c ∷ (c' ∷ cs))) h = ground arith
not_in_combined (d ∷ (letter ∷ [])) [] h = refl
not_in_combined (d ∷ (letter ∷ [])) (e ∷ []) h = refl
not_in_combined (d ∷ (letter ∷ [])) (e ∷ (c ∷ [])) h = refl
not_in_combined [] f h = refl
not_in_combined (d ∷ []) f h = refl
not_in_combined (d ∷ (letter ∷ (x ∷ xs))) f h = refl

any_flag-contains :
    (flag : Text) (fs : List Text)
    → All IsSplitFlag fs
    → any (λ f. text_eq f flag || in_combined flag f) fs ≡ contains fs flag
unfolding contains
any_flag-contains flag [] h = refl
any_flag-contains flag (f ∷ fs) h =
    rw (not_in_combined flag f h.0) (ground (arith, any_flag-contains flag fs h.1))

-- `HasFlag` on a parsed command is plain membership: the search inside combined flags finds
-- nothing more, since the parser has split them.
pub has_flag-contains :
    (cmd : Command) (g : GitCommand) (flag : Text)
    → parse_git_command cmd ≡ ok g
    → has_flag g flag ≡ contains g.flags flag
unfolding has_flag
has_flag-contains cmd g flag e =
    any_flag-contains flag g.flags
      (OnOk-ok WellShaped (parse_git_command-WellShaped cmd) e).flags_split
