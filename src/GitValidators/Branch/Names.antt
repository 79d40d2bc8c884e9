-- ===== src/GitValidators/Branch/Names.antt =====
-- Which branch names pass (validateBranchName in internal/validators/git/branch.go).
use claude_hooks.Common.{Bool, false, Option, none, some, if◌then◌else◌}
use claude_hooks.Common.Text.{Text, to_lower}
use claude_hooks.GitValidators.Branch.{
  BranchConfig, get_valid_types, is_allow_uppercase, type_valid,
}

-- The type of a name, in lower case where upper case is allowed, is one of the configuration.
abbrev pub type_of_parts : BranchConfig → Text × Option Text → Bool
type_of_parts c (kind, none) = false
type_of_parts c (kind, some description) =
    type_valid (if is_allow_uppercase c then to_lower kind else kind) (get_valid_types c)
