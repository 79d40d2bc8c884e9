-- ===== src/Validator/Registry.antt =====
-- The validator registry and its predicates (internal/validator/registry.go). The shell parser is
-- a parameter; the predicates over regular expressions and globs are left out.
use claude_hooks.Common.{
  ℕ, Bool, true, false, not, ◌&&◌, ◌||◌, List, [], ◌∷◌, ◌++◌, ◌==◌, if◌then◌else◌, any, map, length,
}
use claude_hooks.Common.Text.{
  Text, codes, text_eq, contains, has_prefix, contains_text, contains_byte, trim_space,
}
use claude_hooks.Common.Result.{Result, ok, err}
use claude_hooks.Hook.{
  Context, EventType, ToolType, event_eq, tool_eq, get_command, get_file_path, is_bash_tool,
}
use claude_hooks.Shell.{ShellParser}
use claude_hooks.Parser.{Command, ParseError, ParseResult, parse_bash, is_git}
use claude_hooks.Parser.Git.{GitCommand, parse_git_command, has_flag}
use claude_hooks.Validator.{Validator}

abbrev pub Predicate : Type 0
Predicate = Context → Bool

pub record Registration : Type 0 where
  pub validator : Validator
  pub predicate : Predicate

abbrev pub Registry : Type 0
Registry = List Registration

abbrev pub new_registry : Registry
new_registry = []

unfoldable pub register : Validator → Predicate → Registry → Registry
register v p r = r ++ (record { validator = v; predicate = p } ∷ [])

unfoldable pub find_validators : Context → Registry → List Validator
find_validators ctx [] = []
find_validators ctx (reg ∷ r) =
    let rest = find_validators ctx r in if reg.predicate ctx then reg.validator ∷ rest else rest

abbrev pub count : Registry → ℕ
count r = length r

abbrev pub event_type_is : EventType → Predicate
event_type_is e ctx = event_eq ctx.event_type e

abbrev pub tool_type_is : ToolType → Predicate
tool_type_is t ctx = tool_eq ctx.tool_name t

abbrev pub tool_type_in : List ToolType → Predicate
tool_type_in ts ctx = any (λ t. tool_eq t ctx.tool_name) ts

abbrev pub command_contains : Text → Predicate
command_contains s ctx = contains_text (get_command ctx) s

abbrev pub command_starts_with : Text → Predicate
command_starts_with p ctx = has_prefix (trim_space (get_command ctx)) p

abbrev pub file_path_contains : Text → Predicate
file_path_contains s ctx = contains_text (get_file_path ctx) s

-- `filepath.Ext`: the text from the last dot after the last slash, if there is one.
unfoldable pub file_ext : Text → Text
unfolding contains_byte
file_ext [] = []
file_ext (c ∷ s) =
    let later = file_ext s in
    if contains_byte b'/' s || contains_byte b'.' s then later else if c == b'.' then c ∷ s else []

-- An extension with its leading dot.
abbrev pub normalize_ext : Text → Text
normalize_ext ext = if has_prefix ext (codes ".") then ext else b'.' ∷ ext

abbrev pub file_extension_is : Text → Predicate
file_extension_is ext ctx = text_eq (file_ext (get_file_path ctx)) (normalize_ext ext)

abbrev pub file_extension_in : List Text → Predicate
file_extension_in exts ctx = contains (map normalize_ext exts) (file_ext (get_file_path ctx))

abbrev pub and_all : List Predicate → Predicate
and_all [] ctx = true
and_all (p ∷ ps) ctx = p ctx && and_all ps ctx

abbrev pub or_any : List Predicate → Predicate
or_any [] ctx = false
or_any (p ∷ ps) ctx = p ctx || or_any ps ctx

abbrev pub not_p : Predicate → Predicate
not_p p ctx = not (p ctx)

abbrev pub always : Predicate
always ctx = true

abbrev pub never : Predicate
never ctx = false

abbrev pub writes_extension : List Text → Result ParseError ParseResult → Bool
writes_extension exts (err e) = false
writes_extension exts (ok r) = any (λ w. contains exts (file_ext w.path)) r.file_writes

-- The git commands among the commands; those that do not parse are skipped.
unfoldable pub parsed_git : List Command → List GitCommand
parsed_git [] = []
parsed_git (cmd ∷ cmds) =
    let rest = parsed_git cmds in
    if is_git cmd then elim (parse_git_command cmd) [ ok g ↦ g ∷ rest | err e ↦ rest ] else rest

abbrev pub git_of : Result ParseError ParseResult → List GitCommand
git_of (err e) = []
git_of (ok r) = parsed_git r.commands

module _ (sh : ShellParser) where
  unfoldable pub bash_writes_file_with_extension : List Text → Predicate
  bash_writes_file_with_extension exts ctx =
      if not (is_bash_tool ctx)
      then false
      else writes_extension (map normalize_ext exts) (parse_bash sh (get_command ctx))

  -- `parseAllGitFromContext`.
  unfoldable pub git_commands : Context → List GitCommand
  git_commands ctx = if not (is_bash_tool ctx) then [] else git_of (parse_bash sh (get_command ctx))

  unfoldable pub git_subcommand_is : Text → Predicate
  git_subcommand_is sub ctx = any (λ g. text_eq g.subcommand sub) (git_commands ctx)

  unfoldable pub git_subcommand_in : List Text → Predicate
  git_subcommand_in subs ctx = any (λ g. contains subs g.subcommand) (git_commands ctx)

  unfoldable pub git_has_flag : Text → Predicate
  git_has_flag flag ctx = any (λ g. has_flag g flag) (git_commands ctx)

  unfoldable pub git_has_any_flag : List Text → Predicate
  git_has_any_flag fs ctx = any (λ g. any (has_flag g) fs) (git_commands ctx)

  unfoldable pub git_subcommand_with_flag : Text → Text → Predicate
  git_subcommand_with_flag sub flag ctx =
      any (λ g. text_eq g.subcommand sub && has_flag g flag) (git_commands ctx)

  unfoldable pub git_subcommand_with_any_flag : Text → List Text → Predicate
  git_subcommand_with_any_flag sub fs ctx =
      any (λ g. text_eq g.subcommand sub && any (has_flag g) fs) (git_commands ctx)

  unfoldable pub git_subcommand_without_flag : Text → Text → Predicate
  git_subcommand_without_flag sub flag ctx =
      any (λ g. text_eq g.subcommand sub && not (has_flag g flag)) (git_commands ctx)

  unfoldable pub git_subcommand_without_any_flag : Text → List Text → Predicate
  git_subcommand_without_any_flag sub fs ctx =
      any (λ g. text_eq g.subcommand sub && not (any (has_flag g) fs)) (git_commands ctx)
