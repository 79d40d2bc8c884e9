-- ===== src/Shell.antt =====
-- Commands as the parsers of the program see them. The shell parser is the package
-- mvdan.cc/sh/v3/syntax: it is a parameter, `ShellParser`, from a command to the part of its syntax
-- tree that the program reads, `none` where it reports an error. `nodes` are the statements and the
-- calls in the order in which `syntax.Walk` visits them; a visitor that has found a token visits no
-- further one.
use claude_hooks.Common.{
  ℕ, ◌+◌, Bool, true, not, ◌&&◌, List, [], ◌∷◌, ◌++◌, Option, none, some, leb, if◌then◌else◌,
  length,
}
use claude_hooks.Common.Text.{Text, text_eq, is_empty}
use claude_hooks.Common.Result.{Result, ok, err, to_option}

-- Words and the statements inside command substitutions; `other` is any other expansion. A
-- redirection of such a statement counts if it is a heredoc, with or without its text.
mutual
  pub data Part : Type 0 where
    lit : Text → Part
    sgl_quoted : Text → Part
    dbl_quoted : Parts → Part
    cmd_subst : Substituted → Part
    other : Part

  pub data Parts : Type 0 where
    no_parts : Parts
    part : Part → Parts → Parts

  pub data Substituted : Type 0 where
    no_stmts : Substituted
    stmt : Redirs → Substituted → Substituted

  pub data Redirs : Type 0 where
    no_redirs : Redirs
    heredoc : Parts → Redirs → Redirs
    empty_heredoc : Redirs → Redirs
    other_redir : Redirs → Redirs

pub record Location : Type 0 where
  pub line : ℕ
  pub column : ℕ

pub data RedirOp : Type 0 where
  rdr_out app_out hdoc dash_hdoc other_op : RedirOp

pub record Redirect : Type 0 where
  pub op : RedirOp
  pub word : Option Parts
  pub hdoc_word : Option Parts
  pub redir_location : Location

pub record Assign : Type 0 where
  pub name : Option Text
  pub value : Option Parts

-- A statement: the assignments of its call (none unless its command is a call), its comments, its
-- redirections. A call: its words.
pub data Node : Type 0 where
  statement : List Assign → List Text → List Redirect → Node
  call : List Parts → Location → Node

pub record ShellFile : Type 0 where
  pub nodes : List Node
  pub last : List Text

abbrev pub ShellParser : Type 0
ShellParser = Text → Option ShellFile

-- Inside double quotes the token parsers read literal text only.
unfoldable pub quoted_literals : Parts → Text
quoted_literals no_parts = []
quoted_literals (part (lit s) ps) = s ++ quoted_literals ps
quoted_literals (part _ ps) = quoted_literals ps

unfoldable pub literals : Parts → Text
unfolding quoted_literals
literals no_parts = []
literals (part (lit s) ps) = s ++ literals ps
literals (part (sgl_quoted s) ps) = s ++ literals ps
literals (part (dbl_quoted ds) ps) = quoted_literals ds ++ literals ps
literals (part _ ps) = literals ps

-- `wordToString` of internal/exceptions and `unpoisonWordToString`.
unfoldable pub token_word : Option Parts → Text
unfolding literals
token_word none = []
token_word (some ps) = literals ps

abbrev pub or_else {ℓ} : {A : Type ℓ} → Option A → Option A → Option A
or_else none o = o
or_else (some a) o = some a

module _ {E T : Type 0} (parse_token : Text → Result E T) where
  -- The token of the first text that parses as one.
  unfoldable pub first_token : List Text → Option T
  first_token [] = none
  first_token (s ∷ ss) = elim (parse_token s) [ ok t ↦ some t | err e ↦ first_token ss ]

  -- The loop over the assignments of one call.
  unfoldable pub token_in_assigns : Text → List Assign → Option T
  unfolding token_word text_eq
  token_in_assigns var [] = none
  token_in_assigns var (a ∷ as_) =
      let rest = token_in_assigns var as_ in
      elim a.name [
        | none ↦ rest
        | some n ↦
            let value = token_word a.value in
            if text_eq n var && not (is_empty value)
            then or_else (to_option (parse_token value)) rest
            else rest
      ]

  -- The walk over the statements for assignments.
  unfoldable pub token_in_env_vars : Text → List Node → Option T
  unfolding token_in_assigns
  token_in_env_vars var [] = none
  token_in_env_vars var (statement assigns comments redirs ∷ ns) =
      or_else (token_in_assigns var assigns) (token_in_env_vars var ns)
  token_in_env_vars var (call words loc ∷ ns) = token_in_env_vars var ns

  -- The walk over the statements for comments.
  unfoldable pub token_in_stmt_comments : List Node → Option T
  unfolding first_token
  token_in_stmt_comments [] = none
  token_in_stmt_comments (statement assigns comments redirs ∷ ns) =
      or_else (first_token comments) (token_in_stmt_comments ns)
  token_in_stmt_comments (call words loc ∷ ns) = token_in_stmt_comments ns

  -- The comments of the statements, then those at the end of the file.
  unfoldable pub token_in_comments : ShellFile → Option T
  unfolding token_in_stmt_comments
  token_in_comments file = or_else (token_in_stmt_comments file.nodes) (first_token file.last)

abbrev pub is_upper : ℕ → Bool
is_upper c = leb b'A' c && leb c b'Z'

abbrev pub is_digit : ℕ → Bool
is_digit c = leb b'0' c && leb c b'9'

-- How many capitals a text begins with, and the rest.
unfoldable pub upper_run : Text → ℕ × Text
upper_run [] = (0, [])
upper_run (c ∷ s) = let (n, rest) = upper_run s in if is_upper c then (n + 1, rest) else (0, c ∷ s)

unfoldable pub all_digits : Text → Bool
all_digits [] = true
all_digits (c ∷ s) = is_digit c && all_digits s

-- The expression ^[A-Z]{2,10}[0-9]{1,5}$ of both parsers.
unfoldable pub is_error_code : Text → Bool
unfolding upper_run all_digits
is_error_code s =
    let (n, rest) = upper_run s in
    leb 2 n && leb n 10 && all_digits rest && leb 1 (length rest) && leb (length rest) 5
