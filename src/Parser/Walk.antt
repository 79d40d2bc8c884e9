-- ===== src/Parser/Walk.antt =====
-- What the walk over a syntax tree collects.
use claude_hooks.Common.{
  ◌≡◌, Bool, true, false, ◌||◌, List, [], ◌∷◌, ◌++◌, Option, none, some, inl, inr, arith,
  Bool-cases, All, select, map, get_or,
}
use claude_hooks.Common.Text.{Text, codes, is_empty, text_eq, trim_space}
use claude_hooks.Common.TextLaws.{All-append}
use claude_hooks.Common.Result.{OnOk}
use claude_hooks.Shell.{
  RedirOp, rdr_out, app_out, hdoc, dash_hdoc, other_op, ShellFile, Parts, Location, Redirect, Node,
  statement, call, ShellParser,
}
use claude_hooks.Parser.{
  Command, FileWrite, WriteOp, op_none, op_copy, op_move, op_redirect, op_append, Walker,
  new_walker, Collected, collect_output, collect_op, writes_of, add_command, call_command,
  walk_file, collect, collect_all, redirect_writes, extract_redirect, extract_command,
  extract_file_write_command, get_file_write_operation, last_of_two, last_text, change_dir,
  words_to_strings, parts_text, visit, walk, parse_bash, word_to_string,
}

abbrev pub NonEmpty : Text → Type 0
NonEmpty s = is_empty s ≡ false

abbrev pub HasPath : FileWrite → Type 0
HasPath f = NonEmpty f.path

select-All :
    (p : Text → Bool) (xs : List Text)
    → ((s : Text) → p s ≡ true → NonEmpty s)
    → All NonEmpty (select p xs)
select-All p [] h = tt
select-All p (x ∷ xs) h = elim (Bool-cases (p x)) [
  | inl keep ↦ rw keep (h x keep, select-All p xs h)
  | inr drop ↦ rw drop (select-All p xs h)
]

words_to_strings-NonEmpty : (ws : List Parts) → All NonEmpty (words_to_strings ws)
unfolding words_to_strings
words_to_strings-NonEmpty ws = select-All _ (map parts_text ws) (λ s h. ground arith)

last_text-NonEmpty :
    (a d : Text) (as_ : List Text)
    → All NonEmpty (a ∷ as_)
    → NonEmpty (get_or (last_text (a ∷ as_)) d)
unfolding last_text
last_text-NonEmpty a d [] h = h.0
last_text-NonEmpty a d (b ∷ bs) h = last_text-NonEmpty b d bs h.1

last_of_two-NonEmpty :
    (op : WriteOp) (as_ : List Text) → All NonEmpty as_ → All NonEmpty (last_of_two op as_).1
unfolding last_of_two
last_of_two-NonEmpty op [] h = tt
last_of_two-NonEmpty op (a ∷ []) h = tt
last_of_two-NonEmpty op (a ∷ (b ∷ bs)) h = (last_text-NonEmpty b b bs h.1, tt)

targets-NonEmpty :
    (name : Text) (as_ : List Text)
    → All NonEmpty as_
    → All NonEmpty (get_file_write_operation name as_).1
unfolding get_file_write_operation
targets-NonEmpty name as_ h = elim (Bool-cases (text_eq name (codes "tee"))) [
  | inl tee ↦ rw tee (select-All _ as_ (λ s k. ground arith))
  | inr n1 ↦ elim (Bool-cases (text_eq name (codes "cp") || text_eq name (codes "copy"))) [
    | inl cp ↦ rw (n1, cp) (last_of_two-NonEmpty op_copy as_ h)
    | inr n2 ↦ elim (Bool-cases (text_eq name (codes "mv") || text_eq name (codes "move"))) [
      | inl mv ↦ rw (n1, n2, mv) (last_of_two-NonEmpty op_move as_ h)
      | inr n3 ↦ rw (n1, n2, n3) tt
    ]
  ]
]

writes-HasPath :
    (cmd : Command) (op : WriteOp) (targets : List Text)
    → All NonEmpty targets
    → All HasPath (
        map
          (λ target. record {
            path = target;
            operation = op;
            source = cmd.name;
            content = [];
            write_location = cmd.location;
          })
          targets)
writes-HasPath cmd op [] h = tt
writes-HasPath cmd op (t ∷ ts) h = (h.0, writes-HasPath cmd op ts h.1)

append_unless :
    (op : WriteOp) (old new : List FileWrite)
    → All HasPath old
    → All HasPath new
    → All HasPath (elim op as (λ _. List FileWrite) [ op_none ↦ old | _ ↦ old ++ new ])
append_unless op_none old new h k = h
append_unless _ old new h k = All-append HasPath old new h k

extract_file_write_command-HasPath :
    (cmd : Command) (w : Walker)
    → All NonEmpty cmd.args
    → All HasPath w.file_writes
    → All HasPath (extract_file_write_command cmd w).file_writes
unfolding extract_file_write_command
extract_file_write_command-HasPath cmd w a h =
    append_unless (get_file_write_operation cmd.name cmd.args).0 w.file_writes _ h
      (writes-HasPath cmd _ _ (targets-NonEmpty cmd.name cmd.args a))

add_command-HasPath :
    (cmd : Command) (w : Walker)
    → All NonEmpty cmd.args
    → All HasPath w.file_writes
    → All HasPath (add_command cmd w).file_writes
unfolding add_command
add_command-HasPath cmd w a h =
    extract_file_write_command-HasPath cmd
      (record w {
        commands = w.commands ++ (cmd ∷ []);
        current_dir = change_dir cmd.name cmd.args w.current_dir;
      })
      a h

extract_command-HasPath :
    (ws : List Parts) (loc : Location) (w : Walker)
    → All HasPath w.file_writes
    → All HasPath (extract_command ws loc w).file_writes
unfolding extract_command
extract_command-HasPath [] loc w h = h
extract_command-HasPath (first ∷ rest) loc w h = elim (Bool-cases (is_empty (parts_text first))) [
  | inl empty ↦ rw empty h
  | inr named ↦ rw named (
      add_command-HasPath (call_command first rest loc w.current_dir) w
        (words_to_strings-NonEmpty rest) h)
]

-- The collected target has a text.
abbrev TargetOk : Option (Text × WriteOp × Location) → Type 0
TargetOk none = Unit
TargetOk (some (p, op, loc)) = NonEmpty p

abbrev Target : Collected → Type 0
Target c = TargetOk c.output

collect_output-Target :
    (p : Text) (op : WriteOp) (loc : Location) (c : Collected)
    → Target c
    → Target (collect_output p op loc c)
collect_output-Target p op loc c h = elim (Bool-cases (is_empty p)) [
  | inl empty ↦ rw empty h
  | inr ne ↦ rw ne ne
]

collect_op-Target :
    (op : RedirOp) (r : Redirect) (c : Collected) → Target c → Target (collect_op op r c)
collect_op-Target rdr_out r c h =
    collect_output-Target (word_to_string r.word) op_redirect r.redir_location c h
collect_op-Target app_out r c h =
    collect_output-Target (word_to_string r.word) op_append r.redir_location c h
collect_op-Target hdoc r c h = h
collect_op-Target dash_hdoc r c h = h
collect_op-Target other_op r c h = h

collect-Target : (r : Redirect) (c : Collected) → Target c → Target (collect r c)
unfolding collect
collect-Target r c h = collect_op-Target r.op r c h

collect_all-Target : (rs : List Redirect) (c : Collected) → Target c → Target (collect_all rs c)
unfolding collect_all
collect_all-Target [] c h = h
collect_all-Target (r ∷ rs) c h = collect_all-Target rs (collect r c) (collect-Target r c h)

writes_of-HasPath :
    (o : Option (Text × WriteOp × Location)) (text : Text) (at : Option Location)
    → TargetOk o
    → All HasPath (writes_of o text at)
writes_of-HasPath none text at h = tt
writes_of-HasPath (some (p, op, loc)) text (some hloc) h = (h, tt)
writes_of-HasPath (some (p, op, loc)) text none h = (h, tt)

redirect_writes-HasPath : (c : Collected) → Target c → All HasPath (redirect_writes c)
unfolding redirect_writes
redirect_writes-HasPath c h = writes_of-HasPath c.output c.heredoc_content c.heredoc_at h

visit-HasPath :
    (n : Node) (w : Walker) → All HasPath w.file_writes → All HasPath (visit n w).file_writes
unfolding visit
visit-HasPath (call ws loc) w h = extract_command-HasPath ws loc w h
visit-HasPath (statement as_ cs rs) w h =
    let none_yet : Collected = record { output = none; heredoc_content = []; heredoc_at = none } in
    unfold extract_redirect in
    All-append HasPath w.file_writes (redirect_writes (collect_all rs none_yet)) h
      (redirect_writes-HasPath (collect_all rs none_yet) (collect_all-Target rs none_yet tt))

walk-HasPath :
    (ns : List Node) (w : Walker) → All HasPath w.file_writes → All HasPath (walk ns w).file_writes
unfolding walk
walk-HasPath [] w h = h
walk-HasPath (n ∷ ns) w h = walk-HasPath ns (visit n w) (visit-HasPath n w h)

walk_file-HasPath : (f : Option ShellFile) → OnOk (λ r. All HasPath r.file_writes) (walk_file f)
unfolding walk_file
walk_file-HasPath none = tt
walk_file-HasPath (some file) = walk-HasPath file.nodes new_walker tt

-- Every file write that is found in a command line has a target, so every synthetic write that is
-- validated for it names a file.
pub parse_bash-HasPath :
    (sh : ShellParser) (text : Text) → OnOk (λ r. All HasPath r.file_writes) (parse_bash sh text)
unfolding parse_bash
parse_bash-HasPath sh text = elim (Bool-cases (is_empty (trim_space text))) [
  | inl empty ↦ rw empty tt
  | inr ne ↦ rw ne (walk_file-HasPath (sh (trim_space text)))
]
