-- ===== src/GitValidators/Add/Blocked.antt =====
-- Which git add commands are refused (internal/validators/git/add.go).
use claude_hooks.Common.{Bool, ◌&&◌, List, Option, any, drop}
use claude_hooks.Common.Text.{Text}
use claude_hooks.Parser.{Command}
use claude_hooks.GitValidators.Add.{extract_file_paths, is_git_add_command, is_file_blocked}

module _ (path_match : Text → Text → Option Bool) where
  -- A git add that names a file, cleaned, that a pattern matches or whose directory it is.
  abbrev pub adds_blocked : List Text → Command → Bool
  adds_blocked patterns d =
      is_git_add_command d
      && any (λ f. is_file_blocked path_match f patterns) (extract_file_paths (drop 1 d.args))
