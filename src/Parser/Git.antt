-- ===== src/Parser/Git.antt =====
-- Git commands: global options, the subcommand, flags and arguments (pkg/parser/git.go). The loops
-- over an index are recursions on the arguments that are left.
pub mod Shape
pub mod Message
use claude_hooks.Common.{
  Bool, true, false, not, ◌&&◌, ◌||◌, List, [], ◌∷◌, ◌++◌, Option, none, some, ◌==◌, if◌then◌else◌,
  get_or, length, drop, ltb, any, is_some,
}
use claude_hooks.Common.Text.{Text, codes, is_empty, text_eq, has_prefix, contains_text, cut}
use claude_hooks.Common.Map.{Map, lookup, insert}
use claude_hooks.Common.Result.{Result, ok, err}
use claude_hooks.Parser.{Command, is_flag, last_text}

pub data GitError : Type 0 where
  not_git_command no_subcommand : GitError

pub record GitCommand : Type 0 where
  pub subcommand : Text
  pub flags : List Text
  pub args : List Text
  pub flag_map : Map Text
  pub global_options : Map Text
  pub git_working_directory : Text

-- Whether a global option takes a value; `none` for any other text.
abbrev pub global_options_with_value : Map Bool
global_options_with_value =
    (codes "-C", true)
    ∷ (codes "--git-dir", true)
    ∷ (codes "--work-tree", true)
    ∷ (codes "-c", true)
    ∷ (codes "--namespace", true)
    ∷ (codes "--super-prefix", true)
    ∷ (codes "--config-env", true)
    ∷ (codes "--exec-path", true)
    ∷ (codes "--html-path", false)
    ∷ (codes "--man-path", false)
    ∷ (codes "--info-path", false)
    ∷ (codes "--paginate", false)
    ∷ (codes "-p", false)
    ∷ (codes "--no-pager", false)
    ∷ (codes "--bare", false)
    ∷ (codes "--no-replace-objects", false)
    ∷ (codes "--literal-pathspecs", false)
    ∷ (codes "--glob-pathspecs", false)
    ∷ (codes "--noglob-pathspecs", false)
    ∷ (codes "--icase-pathspecs", false)
    ∷ (codes "--no-optional-locks", false)
    ∷ (codes "--list-cmds", true)
    ∷ []

abbrev pub flags_with_values : Map Bool
flags_with_values =
    (codes "-m", true)
    ∷ (codes "--message", true)
    ∷ (codes "-F", true)
    ∷ (codes "--file", true)
    ∷ (codes "-C", true)
    ∷ (codes "--reuse-message", true)
    ∷ (codes "-c", false)
    ∷ (codes "-b", false)
    ∷ []

unfoldable pub takes_value : Text → Bool
unfolding lookup
takes_value flag = get_or (lookup flag flags_with_values) false

-- What the loop over the global options does at an argument.
pub data Global : Type 0 where
  stop : Global
  inline : Text → Text → Global
  valued plain : Global

unfoldable pub classify_inline : Text × Option Text → Global
unfolding lookup
classify_inline (opt, none) = stop
classify_inline (opt, some value) =
    if is_some (lookup opt global_options_with_value) then inline opt value else stop

unfoldable pub classify : Text → Global
unfolding is_flag has_prefix contains_text cut lookup classify_inline
classify arg =
    if not (is_flag arg)
    then stop
    else if has_prefix arg (codes "--") && contains_text arg (codes "=")
    then classify_inline (cut b'=' arg)
    else elim (lookup arg global_options_with_value) [
      | none ↦ stop
      | some takes ↦ if takes then valued else plain
    ]

-- The arguments from the subcommand on, and the global options before it.
unfoldable pub parse_global_options : List Text → Map Text → List Text × Map Text
unfolding classify insert
parse_global_options [] g = ([], g)
parse_global_options (arg ∷ []) g = elim (classify arg) [
  | stop ↦ (arg ∷ [], g)
  | inline opt value ↦ ([], insert opt value g)
  | valued ↦ ([], insert arg [] g)
  | plain ↦ ([], insert arg [] g)
]
parse_global_options (arg ∷ (value ∷ rest)) g = elim (classify arg) [
  | stop ↦ (arg ∷ (value ∷ rest), g)
  | inline opt v ↦ parse_global_options (value ∷ rest) (insert opt v g)
  | valued ↦ parse_global_options rest (insert arg value g)
  | plain ↦ parse_global_options (value ∷ rest) (insert arg [] g)
]

abbrev pub push_flag : Text → GitCommand → GitCommand
push_flag flag g = record g { flags = g.flags ++ (flag ∷ []) }

abbrev pub set_flag : Text → Text → GitCommand → GitCommand
set_flag flag value g = record g { flag_map = insert flag value g.flag_map }

-- A flag on its own, with the argument after it; `true` if that argument was its value. Only the
-- first value of a flag is kept.
unfoldable pub add_flag : Text → Option Text → GitCommand → Bool × GitCommand
unfolding takes_value lookup insert
add_flag flag none g = (false, push_flag flag g)
add_flag flag (some value) g =
    if takes_value flag
    then (
      true,
      if is_some (lookup flag g.flag_map)
          then push_flag flag g
          else set_flag flag value (push_flag flag g),
    )
    else (false, push_flag flag g)

-- The letters of combined short flags. The rest of the word, or the next argument, is the value of
-- the first letter that takes one.
unfoldable pub parse_combined_flags : Text → Option Text → GitCommand → Bool × GitCommand
unfolding takes_value insert
parse_combined_flags [] next g = (false, g)
parse_combined_flags (c ∷ cs) next g =
    let flag = b'-' ∷ c ∷ [] in
    let g' = push_flag flag g in
    let others = parse_combined_flags cs next g' in
    if not (takes_value flag)
    then others
    else if not (is_empty cs)
    then (false, set_flag flag cs g')
    else elim next [ some value ↦ (true, set_flag flag value g') | none ↦ others ]

-- One argument after the subcommand; `true` if the next one was used up.
unfoldable pub parse_arg : Text → Option Text → GitCommand → Bool × GitCommand
unfolding is_flag has_prefix add_flag parse_combined_flags
parse_arg arg next g =
    if not (is_flag arg)
    then (false, record g { args = g.args ++ (arg ∷ []) })
    else if has_prefix arg (codes "--")
    then add_flag arg next g
    else if length arg == 2
    then add_flag arg next g
    else parse_combined_flags (drop 1 arg) next g

unfoldable pub parse_args : List Text → GitCommand → GitCommand
unfolding parse_arg
parse_args [] g = g
parse_args (arg ∷ []) g = (parse_arg arg none g).1
parse_args (arg ∷ (next ∷ rest)) g =
    let (used, g') = parse_arg arg (some next) g in
    elim used [ true ↦ parse_args rest g' | false ↦ parse_args (next ∷ rest) g' ]

abbrev pub start_command : Text → Map Text → Text → GitCommand
start_command sub globals dir = record {
  subcommand = sub;
  flags = [];
  args = [];
  flag_map = [];
  global_options = globals;
  git_working_directory = dir;
}

-- `none` where there is no subcommand.
unfoldable pub parse_after : Text → List Text × Map Text → Result GitError GitCommand
unfolding parse_args
parse_after dir ([], globals) = err no_subcommand
parse_after dir (sub ∷ rest, globals) = ok (parse_args rest (start_command sub globals dir))

unfoldable pub parse_git_command : Command → Result GitError GitCommand
unfolding text_eq parse_global_options parse_after
parse_git_command cmd =
    if not (text_eq cmd.name (codes "git"))
    then err not_git_command
    else parse_after cmd.working_directory (parse_global_options cmd.args [])

-- A short flag is also looked for among the letters of a combined one.
unfoldable pub in_combined : Text → Text → Bool
in_combined (d ∷ (letter ∷ [])) (e ∷ (c ∷ (c' ∷ cs))) =
    d == b'-' && e == b'-' && not (c == b'-') && any (λ x. x == letter) (c ∷ (c' ∷ cs))
in_combined flag f = false

unfoldable pub has_flag : GitCommand → Text → Bool
unfolding text_eq in_combined
has_flag g flag = any (λ f. text_eq f flag || in_combined flag f) g.flags

unfoldable pub get_flag_value : GitCommand → Text → Text
unfolding lookup
get_flag_value g flag = get_or (lookup flag g.flag_map) []

unfoldable pub extract_commit_message : GitCommand → Text
unfolding get_flag_value
extract_commit_message g =
    let short = get_flag_value g (codes "-m") in
    if not (is_empty short) then short else get_flag_value g (codes "--message")

abbrev pub first_text : List Text → Text
first_text [] = []
first_text (a ∷ as_) = a

abbrev pub second_text : List Text → Text
second_text (a ∷ (b ∷ bs)) = b
second_text _ = []

unfoldable pub extract_remote : GitCommand → Text
unfolding text_eq
extract_remote g =
    if text_eq g.subcommand (codes "push")
      || text_eq g.subcommand (codes "pull")
      || text_eq g.subcommand (codes "fetch")
    then first_text g.args
    else []

unfoldable pub extract_branch_name : GitCommand → Text
unfolding text_eq last_text
extract_branch_name g =
    if text_eq g.subcommand (codes "checkout")
    then first_text g.args
    else if text_eq g.subcommand (codes "branch")
    then get_or (last_text g.args) []
    else if text_eq g.subcommand (codes "switch")
    then first_text g.args
    else if text_eq g.subcommand (codes "push") || text_eq g.subcommand (codes "pull")
    then second_text g.args
    else []

unfoldable pub extract_file_paths : GitCommand → List Text
unfolding text_eq last_text
extract_file_paths g =
    if text_eq g.subcommand (codes "add") || text_eq g.subcommand (codes "rm")
    then g.args
    else if text_eq g.subcommand (codes "mv") && ltb 1 (length g.args)
    then get_or (last_text g.args) [] ∷ []
    else []

unfoldable pub get_working_directory : GitCommand → Text
unfolding lookup
get_working_directory g = get_or (lookup (codes "-C") g.global_options) g.git_working_directory

unfoldable pub get_git_dir : GitCommand → Text
unfolding lookup
get_git_dir g = get_or (lookup (codes "--git-dir") g.global_options) []

unfoldable pub has_global_option : GitCommand → Text → Bool
unfolding lookup
has_global_option g opt = is_some (lookup opt g.global_options)
