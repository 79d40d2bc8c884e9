-- ===== src/Dispatcher/Hint.antt =====
-- Following the fix hint of a poisoned session (createPoisonedSessionError in
-- internal/dispatcher/session_error.go, the acknowledgement in internal/session/unpoison.go).
use claude_hooks.Common.{List, ◌∷◌, ◌++◌, some, All}
use claude_hooks.Common.Text.{Text, codes}
use claude_hooks.Common.Result.{Result}
use claude_hooks.Shell.{
  ShellParser, ShellFile, Assign, Node, statement, Redirect, lit, dbl_quoted, no_parts, part,
}
use claude_hooks.Session.Unpoison.{ParseResult, env_var}
use claude_hooks.Session.Unpoison.Codes.{IsCode}
use claude_hooks.Session.Unpoison.RoundTrip.{token_text}
use claude_hooks.Dispatcher.{token_assignment}

-- `KLACK="SESS:…"`, as the shell parser gives it.
abbrev pub quoted_token : List Text → Assign
quoted_token cs = record {
  name = some (codes "KLACK");
  value = some (part (dbl_quoted (part (lit (token_text cs)) no_parts)) no_parts);
}

-- The file of a command that starts with the assignment.
abbrev pub file_with_token :
    List Text → List Assign → List Text → List Redirect → List Node → List Text → ShellFile
file_with_token cs assigns comments redirs ns last = record {
  nodes = statement (quoted_token cs ∷ assigns) comments redirs ∷ ns;
  last = last;
}

module _ (c : Text) (cs : List Text) (h : All IsCode (c ∷ cs)) where
  -- What the hint's command parses to.
  abbrev found : ParseResult
  found = record { token = record { acked = c ∷ cs; raw = token_text (c ∷ cs) }; source = env_var }

  module _ (sh : ShellParser) (rest : Text) (assigns : List Assign) (comments : List Text)
      (redirs : List Redirect) (ns : List Node) (last : List Text) where
    abbrev command : Text
    command = token_assignment (c ∷ cs) ++ rest
