-- ===== src/GitValidators/Templates.antt =====
-- The messages of the validators of git commands (internal/templates/git.go), with what the text
-- templates make of their data.
use claude_hooks.Common.{List, [], ◌∷◌, ◌++◌, ℕ, if◌then◌else◌, not}
use claude_hooks.Common.Int.{pos}
use claude_hooks.Common.Text.{Text, codes, is_empty, itoa}

-- The mark ❌ and a space, and a bullet and a space, in UTF-8.
abbrev pub cross : Text
cross = 226 ∷ 157 ∷ 140 ∷ 32 ∷ []

abbrev bullet : Text
bullet = codes "  " ++ (226 ∷ 128 ∷ 162 ∷ 32 ∷ [])

abbrev file_lines : List Text → Text
file_lines [] = []
file_lines (f ∷ fs) = codes "  - " ++ f ++ codes "\n" ++ file_lines fs

unfoldable pub git_add_tmp_files : List Text → Text
git_add_tmp_files fs =
    codes "Files in tmp/ should be in .gitignore or .git/info/exclude\n\nFiles being added:\n"
    ++ file_lines fs
    ++ codes "\nAdd tmp/ to .git/info/exclude:\n  echo 'tmp/' >> .git/info/exclude"

unfoldable pub git_commit_flags : Text → Text
git_commit_flags args =
    codes "Git commit must use -sS flags (signoff + GPG sign)\n\nCurrent command: git commit "
    ++ args
    ++ codes "\nExpected: git commit -sS -m \"message\""

unfoldable pub git_commit_no_staged : ℕ → ℕ → Text
unfolding itoa
git_commit_no_staged modified untracked =
    codes "No files staged for commit and no -a/-A flag specified\n\nCurrent status:\n"
    ++ codes "  Modified files (not staged): "
    ++ itoa (pos modified)
    ++ codes "\n  Untracked files: "
    ++ itoa (pos untracked)
    ++ codes "\n  Staged files: 0\n\nDid you forget to:\n"
    ++ bullet
    ++ codes "Stage files? Run 'git add <files>' or 'git add .'\n"
    ++ bullet
    ++ codes "Use -a flag? Run 'git commit -a' to commit all modified files"

abbrev pub branch_space_error : Text
branch_space_error =
    codes "Branch name appears to contain spaces\n\n"
    ++ codes "Branch names cannot contain spaces. Use hyphens instead.\n\n"
    ++ codes "Example: feat/my-feature not feat/my feature"

abbrev pub branch_uppercase : Text → Text → Text
branch_uppercase name lower =
    codes "Branch name must be lowercase\n\nBranch name '"
    ++ name
    ++ codes "' contains uppercase characters\n\nUse: "
    ++ lower

abbrev pub branch_pattern : Text → Text
branch_pattern name =
    codes "Branch name must follow type/description format\n\nBranch name '"
    ++ name
    ++ codes "' doesn't match pattern\n\nExpected format: <type>/<description>\n"
    ++ codes "Valid types: feat, fix, docs, style, refactor, test, chore, ci, build, perf\n\n"
    ++ codes "Example: feat/add-user-auth or fix/login-bug-123"

abbrev pub branch_missing_parts : Text → Text
branch_missing_parts name =
    codes "Branch name must contain type and description\n\nBranch name '"
    ++ name
    ++ codes "' is missing type or description\n\nExpected format: <type>/<description>"

abbrev pub branch_invalid_type : Text → Text → Text
branch_invalid_type kind types =
    codes "Invalid branch type\n\nBranch type '"
    ++ kind
    ++ codes "' is not valid\n\nValid types: "
    ++ types

abbrev remote_lines : List (Text × Text) → Text
remote_lines [] = []
remote_lines ((name, url) ∷ rs) =
    codes "  " ++ name ++ codes "  " ++ url ++ codes "\n" ++ remote_lines rs

unfoldable pub push_remote_not_found : Text → List (Text × Text) → Text
push_remote_not_found remote rs =
    cross
    ++ codes "Remote '"
    ++ remote
    ++ codes "' does not exist\n\nAvailable remotes:\n"
    ++ remote_lines rs
    ++ codes "\nUse 'git remote -v' to list all configured remotes."

abbrev alternatives : Text → Text → Text
alternatives suggested available =
    if not (is_empty suggested)
    then codes "\nSuggested alternatives: [" ++ suggested ++ codes "]"
    else if not (is_empty available)
    then codes "\nAvailable remotes: [" ++ available ++ codes "]"
    else []

unfoldable pub push_blocked_remote : Text → Text → Text → Text → Text
push_blocked_remote remote blocked suggested available =
    cross
    ++ codes "Remote '"
    ++ remote
    ++ codes "' is blocked for push operations\n\n"
    ++ codes "Blocked remotes: ["
    ++ blocked
    ++ codes "]"
    ++ alternatives suggested available

abbrev pub git_no_verify : Text
git_no_verify =
    codes "Git commit --no-verify is not allowed\n\n"
    ++ codes "The --no-verify flag bypasses pre-commit hooks and validation.\n"
    ++ codes "All commits must go through proper validation.\n\nUse: git commit -sS -m \"message\""
