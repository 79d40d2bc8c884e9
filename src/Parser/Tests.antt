-- ===== src/Parser/Tests.antt =====
-- Command lines and git commands at concrete texts, and the theorems at them.
use claude_hooks.Common.{◌≡◌, refl, List, [], ◌∷◌, none, some, map}
use claude_hooks.Common.Text.{Text, codes}
use claude_hooks.Common.Result.{ok, err}
use claude_hooks.Shell.{
  Parts, part, no_parts, lit, statement, call, ShellParser, rdr_out, hdoc, Location,
}
use claude_hooks.Parser.{Command, FileWrite, parse_bash}
use claude_hooks.Parser.Git.{GitCommand, parse_git_command}
use claude_hooks.Parser.Git.Message.{commit_command}

abbrev here : Location
here = record { line = 1; column = 1 }

abbrev word : Text → Parts
word s = part (lit s) no_parts

-- cd /srv && cp a b <<EOF > c.md
abbrev two_writes : ShellParser
two_writes s = some (record {
  nodes =
      call (word (codes "cd") ∷ word (codes "/srv") ∷ []) here
      ∷ statement [] [] (
          record {
            op = rdr_out;
            word = some (word (codes "c.md"));
            hdoc_word = none;
            redir_location = here;
          }
          ∷ record {
            op = hdoc;
            word = none;
            hdoc_word = some (word (codes "# Hi"));
            redir_location = here;
          }
          ∷ [])
      ∷ call (word (codes "cp") ∷ word (codes "a") ∷ word (codes "b") ∷ []) here
      ∷ [];
  last = [];
})

abbrev written : FileWrite → Text × Text
written f = (f.path, f.content)

abbrev summary : ShellParser → Text → List (Text × Text) × List Text
summary sh s = elim (parse_bash sh s) [
  | err e ↦ ([], [])
  | ok r ↦ (map written r.file_writes, map (λ c. c.working_directory) r.commands)
]

two_writes_found :
    summary two_writes (codes "x")
    ≡ ((codes "c.md", codes "# Hi") ∷ (codes "b", []) ∷ [], [] ∷ codes "/srv" ∷ [])
unfolding parse_bash
two_writes_found = refl

abbrev signed : Command
signed = commit_command (codes "-sSm" ∷ codes "feat: x" ∷ codes "file.go" ∷ [])

abbrev flags_and_args : Command → List Text × List Text
flags_and_args cmd = elim (parse_git_command cmd) [ ok g ↦ (g.flags, g.args) | err e ↦ ([], []) ]

signed_split :
    flags_and_args signed ≡ (codes "-s" ∷ codes "-S" ∷ codes "-m" ∷ [], codes "file.go" ∷ [])
unfolding parse_git_command
signed_split = refl

abbrev parsed : GitCommand
parsed = record {
  subcommand = codes "commit";
  flags = codes "-s" ∷ codes "-S" ∷ codes "-m" ∷ [];
  args = codes "file.go" ∷ [];
  flag_map = (codes "-m", codes "feat: x") ∷ [];
  global_options = [];
  git_working_directory = [];
}
