-- ===== src/Parser.antt =====
-- The commands and file writes of a Bash command line: the walk over its syntax tree
-- (pkg/parser/ast_walker.go, bash.go, command.go, files.go).
pub mod Git
pub mod Walk
mod Tests
use claude_hooks.Common.{
  Bool, false, not, ◌&&◌, ◌||◌, List, [], ◌∷◌, ◌++◌, Option, none, some, ◌==◌, if◌then◌else◌,
  get_or, select, map,
}
use claude_hooks.Common.Text.{Text, codes, is_empty, text_eq, trim_space, has_prefix}
use claude_hooks.Common.Result.{Result, ok, err}
use claude_hooks.Shell.{
  Part, lit, sgl_quoted, dbl_quoted, cmd_subst, other, Parts, no_parts, part, Substituted, no_stmts,
  stmt, Redirs, no_redirs, heredoc, empty_heredoc, other_redir, Location, RedirOp, rdr_out, app_out,
  hdoc, dash_hdoc, other_op, Redirect, Node, statement, call, ShellFile, ShellParser, or_else,
}

-- The text of a word: literals, and inside a command substitution the first heredoc of its
-- statements that has a text.
unfoldable mutual
  pub part_text : Part → Text
  part_text (lit s) = s
  part_text (sgl_quoted s) = s
  part_text (dbl_quoted ps) = dq_text ps
  part_text (cmd_subst ss) = get_or (heredoc_text ss) []
  part_text other = []

  pub dq_part_text : Part → Text
  dq_part_text (lit s) = s
  dq_part_text (cmd_subst ss) = get_or (heredoc_text ss) []
  dq_part_text (sgl_quoted s) = []
  dq_part_text (dbl_quoted ps) = []
  dq_part_text other = []

  pub parts_text : Parts → Text
  parts_text no_parts = []
  parts_text (part p ps) = part_text p ++ parts_text ps

  pub dq_text : Parts → Text
  dq_text no_parts = []
  dq_text (part p ps) = dq_part_text p ++ dq_text ps

  pub heredoc_text : Substituted → Option Text
  heredoc_text no_stmts = none
  heredoc_text (stmt rs ss) = or_else (redirs_text rs) (heredoc_text ss)

  pub redirs_text : Redirs → Option Text
  redirs_text no_redirs = none
  redirs_text (heredoc ps rs) = some (parts_text ps)
  redirs_text (empty_heredoc rs) = redirs_text rs
  redirs_text (other_redir rs) = redirs_text rs

unfoldable pub word_to_string : Option Parts → Text
unfolding parts_text
word_to_string none = []
word_to_string (some ps) = parts_text ps

-- Words without text are dropped.
unfoldable pub words_to_strings : List Parts → List Text
unfolding parts_text
words_to_strings ws = select (λ s. not (is_empty s)) (map parts_text ws)

pub data CmdType : Type 0 where
  simple pipe subshell cmd_subst_type chain : CmdType

pub record Command : Type 0 where
  pub name : Text
  pub args : List Text
  pub location : Location
  pub cmd_type : CmdType
  pub raw : Text
  pub working_directory : Text

pub data WriteOp : Type 0 where
  op_none op_redirect op_append op_tee op_copy op_move op_heredoc : WriteOp

pub record FileWrite : Type 0 where
  pub path : Text
  pub operation : WriteOp
  pub source : Text
  pub content : Text
  pub write_location : Location

abbrev pub prefix_then_slash : Text → Text → Bool
prefix_then_slash p path = text_eq path p || has_prefix path (p ++ codes "/")

-- /tmp and /var/tmp, and what lies below them.
unfoldable pub is_protected_path : Text → Bool
unfolding text_eq has_prefix
is_protected_path path =
    if has_prefix path (codes "/tmp")
    then prefix_then_slash (codes "/tmp") path
    else if has_prefix path (codes "/var/tmp")
    then prefix_then_slash (codes "/var/tmp") path
    else false

unfoldable pub is_flag : Text → Bool
is_flag [] = false
is_flag (c ∷ s) = c == b'-'

-- Arguments that are neither empty nor flags.
unfoldable pub extract_tee_targets : List Text → List Text
unfolding is_flag
extract_tee_targets args = select (λ a. not (is_empty a) && not (is_flag a)) args

unfoldable pub last_text : List Text → Option Text
last_text [] = none
last_text (a ∷ []) = some a
last_text (a ∷ (b ∷ bs)) = last_text (b ∷ bs)

-- The last argument where there are two or more.
unfoldable pub last_of_two : WriteOp → List Text → WriteOp × List Text
unfolding last_text
last_of_two op (a ∷ (b ∷ bs)) = (op, get_or (last_text (b ∷ bs)) b ∷ [])
last_of_two op _ = (op_none, [])

unfoldable pub get_file_write_operation : Text → List Text → WriteOp × List Text
unfolding text_eq last_of_two extract_tee_targets
get_file_write_operation name args =
    if text_eq name (codes "tee")
    then (op_tee, extract_tee_targets args)
    else if text_eq name (codes "cp") || text_eq name (codes "copy")
    then last_of_two op_copy args
    else if text_eq name (codes "mv") || text_eq name (codes "move")
    then last_of_two op_move args
    else (op_none, [])

pub record Walker : Type 0 where
  pub commands : List Command
  pub file_writes : List FileWrite
  pub current_dir : Text

unfoldable pub extract_file_write_command : Command → Walker → Walker
unfolding get_file_write_operation
extract_file_write_command cmd w =
    let (op, targets) = get_file_write_operation cmd.name cmd.args in
    let writes : List FileWrite =
      map
        (λ target. record {
          path = target;
          operation = op;
          source = cmd.name;
          content = [];
          write_location = cmd.location;
        })
        targets in
    record w { file_writes = elim op [ op_none ↦ w.file_writes | _ ↦ w.file_writes ++ writes ] }

-- A `cd` with an argument sets the directory of the commands after it.
abbrev pub change_dir : Text → List Text → Text → Text
change_dir name [] dir = dir
change_dir name (a ∷ as_) dir = if text_eq name (codes "cd") then a else dir

abbrev pub call_command : Parts → List Parts → Location → Text → Command
call_command first rest loc dir = record {
  name = parts_text first;
  args = words_to_strings rest;
  location = loc;
  cmd_type = simple;
  raw = [];
  working_directory = dir;
}

unfoldable pub add_command : Command → Walker → Walker
unfolding extract_file_write_command text_eq
add_command cmd w = extract_file_write_command cmd (record w {
  commands = w.commands ++ (cmd ∷ []);
  current_dir = change_dir cmd.name cmd.args w.current_dir;
})

unfoldable pub extract_command : List Parts → Location → Walker → Walker
unfolding parts_text words_to_strings add_command
extract_command [] loc w = w
extract_command (first ∷ rest) loc w =
    let cmd = call_command first rest loc w.current_dir in
    if is_empty cmd.name then w else add_command cmd w

-- What the first pass over the redirections of a statement collects.
pub record Collected : Type 0 where
  pub output : Option (Text × WriteOp × Location)
  pub heredoc_content : Text
  pub heredoc_at : Option Location

-- A target without a text is skipped.
abbrev pub collect_output : Text → WriteOp → Location → Collected → Collected
collect_output p op loc c = if is_empty p then c else record c { output = some (p, op, loc) }

abbrev pub heredoc_word : Option Parts → Text → Text
heredoc_word none old = old
heredoc_word (some ps) old = word_to_string (some ps)

abbrev pub collect_heredoc : Option Parts → Location → Collected → Collected
collect_heredoc w loc c = record c {
  heredoc_content = heredoc_word w c.heredoc_content;
  heredoc_at = some loc;
}

abbrev pub collect_op : RedirOp → Redirect → Collected → Collected
collect_op rdr_out r c = collect_output (word_to_string r.word) op_redirect r.redir_location c
collect_op app_out r c = collect_output (word_to_string r.word) op_append r.redir_location c
collect_op hdoc r c = collect_heredoc r.hdoc_word r.redir_location c
collect_op dash_hdoc r c = collect_heredoc r.hdoc_word r.redir_location c
collect_op other_op r c = c

unfoldable pub collect : Redirect → Collected → Collected
unfolding word_to_string
collect r c = collect_op r.op r c

unfoldable pub collect_all : List Redirect → Collected → Collected
unfolding collect
collect_all [] c = c
collect_all (r ∷ rs) c = collect_all rs (collect r c)

abbrev pub writes_of : Option (Text × WriteOp × Location) → Text → Option Location → List FileWrite
writes_of none text at = []
writes_of (some (p, op, loc)) text (some hloc) =
    record { path = p; operation = op_heredoc; source = []; content = text; write_location = hloc }
    ∷ []
writes_of (some (p, op, loc)) text none =
    record { path = p; operation = op; source = []; content = []; write_location = loc } ∷ []

-- The second pass: a redirection with a heredoc is one write with its content.
unfoldable pub redirect_writes : Collected → List FileWrite
redirect_writes c = writes_of c.output c.heredoc_content c.heredoc_at

unfoldable pub extract_redirect : List Redirect → Walker → Walker
unfolding collect_all redirect_writes
extract_redirect rs w =
    let c = collect_all rs (record { output = none; heredoc_content = []; heredoc_at = none }) in
    record w { file_writes = w.file_writes ++ redirect_writes c }

unfoldable pub visit : Node → Walker → Walker
unfolding extract_command extract_redirect
visit (call ws loc) w = extract_command ws loc w
visit (statement assigns comments rs) w = extract_redirect rs w

unfoldable pub walk : List Node → Walker → Walker
unfolding visit
walk [] w = w
walk (n ∷ ns) w = walk ns (visit n w)

pub record ParseResult : Type 0 where
  pub commands : List Command
  pub file_writes : List FileWrite
  pub git_operations : List Command

pub data ParseError : Type 0 where
  empty_command parse_failed : ParseError

abbrev pub is_git : Command → Bool
is_git cmd = text_eq cmd.name (codes "git")

abbrev pub new_walker : Walker
new_walker = record { commands = []; file_writes = []; current_dir = [] }

unfoldable pub walk_file : Option ShellFile → Result ParseError ParseResult
unfolding walk text_eq
walk_file none = err parse_failed
walk_file (some file) =
    let w = walk file.nodes new_walker in
    ok (record {
      commands = w.commands;
      file_writes = w.file_writes;
      git_operations = select is_git w.commands;
    })

unfoldable pub parse_bash : ShellParser → Text → Result ParseError ParseResult
unfolding trim_space walk_file
parse_bash sh text =
    let command = trim_space text in
    if is_empty command then err empty_command else walk_file (sh command)
