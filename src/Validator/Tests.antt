-- ===== src/Validator/Tests.antt =====
-- References and registries at concrete values, and the theorems at them.
use claude_hooks.Common.{◌≡◌, refl, true, List, [], ◌∷◌, some, map}
use claude_hooks.Common.Text.{Text, codes, contains_byte}
use claude_hooks.Hook.{Context, pre_tool_use, bash}
use claude_hooks.Shell.{ShellParser, Parts, part, no_parts, lit, call, Location}
use claude_hooks.Validator.{Validator}
use claude_hooks.Validator.Reference.{category, ref_of}
use claude_hooks.Validator.Registry.{
  Registry, event_type_is, tool_type_is, and_all, or_any, not_p, file_ext, git_subcommand_is,
  git_subcommand_with_any_flag, git_has_any_flag,
}
use claude_hooks.Validator.Chains.{not-and_all, with_any_flag-both}

git022 : category (ref_of (codes "GIT022")) ≡ codes "GIT"
unfolding category claude_hooks.Validator.Reference.after_last_slash contains_byte
git022 = refl

md_ext : file_ext (codes "/a.b/read.me.md") ≡ codes ".md"
unfolding file_ext
md_ext = refl

no_ext : file_ext (codes "/a.b/makefile") ≡ []
unfolding file_ext
no_ext = refl

abbrev on_command : Text → Context
on_command s = record {
  event_type = pre_tool_use;
  tool_name = bash;
  tool_input = record {
    command = s;
    file_path = [];
    path = [];
    content = [];
    old_string = [];
    new_string = [];
    pattern_text = [];
    additional = [];
  };
  notification_type = [];
  raw_json = [];
  session_id = codes "s1";
  tool_use_id = [];
  transcript_path = [];
}

not-and_all_example :
    not_p (and_all (tool_type_is bash ∷ event_type_is pre_tool_use ∷ [])) (on_command [])
    ≡ or_any (map not_p (tool_type_is bash ∷ event_type_is pre_tool_use ∷ [])) (on_command [])
not-and_all_example =
    not-and_all (tool_type_is bash ∷ event_type_is pre_tool_use ∷ []) (on_command [])

abbrev word : Text → Parts
word s = part (lit s) no_parts

abbrev here : Location
here = record { line = 1; column = 1 }

-- git commit -s && git push
abbrev commit_then_push : ShellParser
commit_then_push s = some (record {
  nodes =
      call (word (codes "git") ∷ word (codes "commit") ∷ word (codes "-s") ∷ []) here
      ∷ call (word (codes "git") ∷ word (codes "push") ∷ []) here
      ∷ [];
  last = [];
})

abbrev sign_flags : List Text
sign_flags = codes "-s" ∷ codes "-S" ∷ []

signed_commit :
    git_subcommand_with_any_flag commit_then_push
      (codes "commit")
      sign_flags
      (on_command (codes "x"))
    ≡ true
unfolding git_subcommand_with_any_flag claude_hooks.Validator.Registry.git_commands
    claude_hooks.Parser.parse_bash claude_hooks.Parser.Git.parse_git_command
    claude_hooks.Parser.Git.has_flag claude_hooks.Validator.Registry.parsed_git
signed_commit = refl

with_any_flag-both_example :
    and_all
      (git_subcommand_is commit_then_push (codes "commit")
        ∷ git_has_any_flag commit_then_push sign_flags
        ∷ [])
      (on_command (codes "x"))
    ≡ true
with_any_flag-both_example =
    with_any_flag-both commit_then_push (codes "commit") sign_flags (on_command (codes "x"))
      signed_commit
