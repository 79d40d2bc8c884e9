-- ===== src/Lib.antt =====
-- Verification of klaudiush, the hook handler that checks the commands of a coding agent before they
-- run (the Go packages below internal and pkg).
--
-- A hook invocation is a context (Hook: pkg/hook/context.go). A Bash command line is parsed by a
-- third-party shell parser, whose syntax tree is the data of Shell and which is a parameter,
-- `ShellParser`, everywhere. Parser (pkg/parser/ast_walker.go, command.go, bash.go, files.go) walks
-- the tree for commands and file writes, with Parser/Walk on the writes; Parser/Git
-- (pkg/parser/git.go) reads one git command, with Parser/Git/Shape on its flags and
-- Parser/Git/Message on its message.
--
-- Validator (internal/validator/validator.go) holds the results of validators, Validator/Reference
-- (reference.go) the error codes, Validator/Registry (registry.go) the predicates by which
-- validators are chosen, with their laws in Validator/Chains. A validator itself is a function of
-- the context.
--
-- Session (internal/session/state.go, pkg/config/session.go) and Session/Tracker (tracker.go) keep
-- what is known of each session; a session is poisoned after a blocking error. Session/Tracker/
-- Invariant has the invariant, Automaton each session on its own, History sequences of calls.
-- Session/Unpoison (unpoison.go) reads the tokens that release a session, with Codes and RoundTrip
-- on what they name.
--
-- Dispatcher (internal/dispatcher/session_error.go and the errors of dispatcher.go),
-- Dispatcher/Executor and Dispatcher/Pools (executor.go), and Dispatcher/Dispatch (dispatcher.go)
-- put these together: the session gate, the validators on the context and on each file write, the
-- exceptions, and the poisoning at the end. Dispatcher/Poisoning, Release and Hint are about
-- sessions, Dispatcher/Pools/Results and Completion about the schedules of the parallel executor.
--
-- Exceptions (internal/exceptions, pkg/config/exceptions.go) lets a token bypass an error:
-- Exceptions/Policy (policy.go), Exceptions/RateLimiter (ratelimit.go) with Limits and Windows,
-- Exceptions/TokenParser (token.go) with Accepts, and Exceptions/Handler (engine.go, handler.go, and
-- the checker of internal/dispatcher/exception.go) with Bypass and Effects.
--
-- Rules (internal/rules/types.go, registry.go, evaluator.go, engine.go) is the registry of user
-- rules, with Sorting and Evaluation; Merging is its MergeRules. Rules/Patterns (pattern.go) has the
-- patterns with Cache and Negation, and Rules/Matchers (matcher.go) the conditions: Builder and
-- Build make a rule's matcher, Conditions lists what it must ask for, and Steps, Options,
-- Composition and Categories are about it. Rules/Adapter (adapter.go) is how validators ask for the
-- rules, with Filter.
--
-- Backup (internal/backup/snapshot.go) has the snapshots of configuration files and their index,
-- Backup/Retention (retention.go) the policies, with Grouping and Size on chains and the limit of
-- the size, Backup/Storage (storage.go, with Root on the directories) the files as a state, with
-- `Faults` for the calls of the operating system that fail. Backup/Manager (manager.go) makes
-- backups, with ChainIds, ValidIndex and Effects on them, Backup/Prune is its ApplyRetention with
-- Loop, Removing and Kept, and Backup/Restore (restore.go and the manager's calls of it) has Safe
-- and RoundTrip. The hash is a parameter, and the index file is a value, as JSON gives back what was
-- saved.
--
-- GitValidators (internal/validators/git/remote_helper.go, internal/git/runner.go) is what the
-- validators of git commands share, what git answers being a record, and GitValidators/Templates
-- (internal/templates/git.go) is their messages. GitValidators/Remotes is push.go and fetch.go, with
-- Passing; NoVerify is no_verify.go, with Bypass; Add is add.go, with Blocked; Branch is branch.go,
-- with Names. CommitParser (commit_parser.go, with Titles and Kept), CommitRules and CommitContent
-- (commit_rules.go, with Attribution) and CommitMessage (commit_message.go, with SilentRules,
-- Passing and Priority) validate the message of a commit, and Commit (commit.go, with Checks) the
-- command. The regular expressions in this code are written out as functions on bytes; those of a
-- configuration are an argument, as is the analysis of markdown.
--
-- Common holds what the models share. Texts are lists of bytes, and letters and white space are
-- those of ASCII; `int` and `time.Duration` are unbounded integers; a time is a number of
-- nanoseconds. A Go map is an association list, so a loop over a map runs in the order of the list.
-- A pointer that may be nil is an `Option`; the one alias that matters, the entry that the session
-- tracker hands out, is read from the tracker. An operation takes the readings of the clock as
-- arguments. Recursion is structural; the one function on fuel, the digits of a number, gets one
-- more than the number, and a number has fewer digits than that.
--
-- Not modelled: locks, log lines, files and JSON (session and exception audit files, persistence),
-- the loading of the configuration, git and the linters as external programs, plugins, the doctor,
-- crash dumps, the terminal, and the validators of files, secrets, notifications, merges and pull
-- requests. Regular expressions and globs of rules are parameters; the registry takes the building
-- of a matcher, which Rules/Matchers models, as one too.
pub mod Common
pub mod GitValidators
pub mod Hook
pub mod Session
pub mod Shell
pub mod Parser
pub mod Validator
pub mod Dispatcher
pub mod Exceptions
pub mod Rules
pub mod Backup
