-- ===== src/Rules/Patterns.antt =====
-- Patterns of rules: their kinds, negation, letter case, several patterns in one and the cache
-- (internal/rules/pattern.go). Compiling and matching a regular expression and validating and
-- matching a glob (doublestar) are parameters. A map is an association list.
pub mod Cache
pub mod Negation
use claude_hooks.Common.{
  Bool, true, false, not, ◌&&◌, ◌||◌, List, [], ◌∷◌, ◌++◌, Option, none, some, if◌then◌else◌, any,
}
use claude_hooks.Common.Text.{Text, codes, has_prefix, trim_prefix, contains_text, to_lower, join}
use claude_hooks.Common.Result.{Result, ok, err, ◌>>=◌}

-- The interface `Pattern`: `Match` and `String`.
pub record Pattern : Type 0 where
  pub matches : Text → Bool
  pub string : Text

pub data PatternType : Type 0 where
  glob_type regex_type : PatternType

pub data MultiPatternMode : Type 0 where
  any_mode all_mode : MultiPatternMode

pub record PatternOptions : Type 0 where
  pub case_insensitive : Bool
  pub negate : Bool

abbrev pub regex_indicators : List Text
regex_indicators =
    codes "^"
    ∷ codes "$"
    ∷ codes "(?"
    ∷ codes "\\d"
    ∷ codes "\\w"
    ∷ codes "\\s"
    ∷ codes "\\b"
    ∷ codes "["
    ∷ codes "]"
    ∷ codes "("
    ∷ codes ")"
    ∷ codes "|"
    ∷ codes "+"
    ∷ codes ".*"
    ∷ codes ".+"
    ∷ codes "\\."
    ∷ []

unfoldable pub detect_pattern_type : Text → PatternType
unfolding contains_text
detect_pattern_type p =
    if any (λ indicator. contains_text p indicator) regex_indicators then regex_type else glob_type

unfoldable pub is_negated : Text → Bool
unfolding has_prefix
is_negated p = has_prefix p (codes "!")

unfoldable pub strip_negation : Text → Text
unfolding trim_prefix
strip_negation p = trim_prefix p (codes "!")

unfoldable pub negated_pattern : Pattern → Pattern
negated_pattern p = record { matches = λ s. not (p.matches s); string = codes "!" ++ p.string }

unfoldable pub case_insensitive_pattern : Pattern → Text → Pattern
unfolding to_lower
case_insensitive_pattern inner original = record {
  matches = λ s. inner.matches (to_lower s);
  string = original;
}

-- One of the patterns matches.
unfoldable pub any_matches : List Pattern → Text → Bool
any_matches [] s = false
any_matches (p ∷ ps) s = if p.matches s then true else any_matches ps s

unfoldable pub all_match : List Pattern → Text → Bool
all_match [] s = true
all_match (p ∷ ps) s = if not (p.matches s) then false else all_match ps s

abbrev pub multi_match : List Pattern → MultiPatternMode → Text → Bool
multi_match [] mode s = true
multi_match (p ∷ ps) any_mode s = any_matches (p ∷ ps) s
multi_match (p ∷ ps) all_mode s = all_match (p ∷ ps) s

unfoldable pub multi_pattern : List Pattern → MultiPatternMode → Text → Pattern
unfolding any_matches all_match
multi_pattern ps mode repr = record { matches = λ s. multi_match ps mode s; string = repr }

abbrev pub mode_text : MultiPatternMode → Text
mode_text any_mode = codes "any"
mode_text all_mode = codes "all"

-- The text `any(a, b)` or `all(a, b)`.
unfoldable pub multi_repr : MultiPatternMode → List Text → Text
unfolding join
multi_repr mode ps = mode_text mode ++ codes "(" ++ join (codes ", ") ps ++ codes ")"

-- `(?i)` in front of a regular expression that does not start with it.
unfoldable pub with_flag : Bool → Text → Text
unfolding has_prefix
with_flag insensitive p =
    if insensitive && not (has_prefix p (codes "(?i)")) then codes "(?i)" ++ p else p

abbrev pub wrap_negated : Bool → Pattern → Pattern
wrap_negated true p = negated_pattern p
wrap_negated false p = p

abbrev pub strip_if : Bool → Text → Text
strip_if true p = strip_negation p
strip_if false p = p

module _ (regex_compile : Text → Result Text (Text → Bool)) (validate_pattern : Text → Bool)
    (match_unvalidated : Text → Text → Bool) where
  abbrev pub glob_pattern : Text → Pattern
  glob_pattern p = record { matches = λ s. match_unvalidated p s; string = p }

  unfoldable pub new_glob_pattern : Text → Result Text Pattern
  new_glob_pattern p =
      if not (validate_pattern p)
      then err (codes "invalid glob pattern: " ++ p)
      else ok (glob_pattern p)

  unfoldable pub new_regex_pattern : Text → Result Text Pattern
  new_regex_pattern p =
      regex_compile p >>= λ compiled. ok (record { matches = compiled; string = p })

  unfoldable pub new_case_insensitive_glob_pattern : Text → Result Text Pattern
  unfolding case_insensitive_pattern
  new_case_insensitive_glob_pattern p =
      let lower = to_lower p in
      if not (validate_pattern lower)
      then err (codes "invalid glob pattern: " ++ p)
      else ok (case_insensitive_pattern (glob_pattern lower) p)

  abbrev pub compile_as : PatternType → Text → Result Text Pattern
  compile_as regex_type p = new_regex_pattern p
  compile_as glob_type p = new_glob_pattern p

  unfoldable pub compile_pattern : Text → Result Text Pattern
  compile_pattern p =
      let negated = is_negated p in
      let stripped = strip_if negated p in
      compile_as (detect_pattern_type stripped) stripped >>= λ compiled.
      ok (wrap_negated negated compiled)

  abbrev pub compile_as_with : PatternType → Bool → Text → Result Text Pattern
  compile_as_with regex_type insensitive p = new_regex_pattern (with_flag insensitive p)
  compile_as_with glob_type true p = new_case_insensitive_glob_pattern p
  compile_as_with glob_type false p = new_glob_pattern p

  unfoldable pub compile_pattern_with_options : Text → PatternOptions → Result Text Pattern
  compile_pattern_with_options p opts =
      let negated = opts.negate || is_negated p in
      let stripped = strip_if (is_negated p) p in
      compile_as_with (detect_pattern_type stripped) opts.case_insensitive stripped >>= λ compiled.
      ok (wrap_negated negated compiled)

  -- The patterns compiled in order, up to the first that fails.
  unfoldable pub compile_each : List Text → PatternOptions → Result Text (List Pattern)
  unfolding compile_pattern_with_options
  compile_each [] opts = ok []
  compile_each (p ∷ ps) opts = compile_pattern_with_options p opts >>= λ compiled.
      compile_each ps opts >>= λ rest. ok (compiled ∷ rest)

  unfoldable pub compile_multi_pattern :
      List Text → MultiPatternMode → PatternOptions → Result Text (Option Pattern)
  unfolding compile_each
  compile_multi_pattern [] mode opts = ok none
  compile_multi_pattern (p ∷ []) mode opts =
      compile_pattern_with_options p opts >>= λ compiled. ok (some compiled)
  compile_multi_pattern (p ∷ q ∷ ps) mode opts = compile_each (p ∷ q ∷ ps) opts >>= λ compiled.
      ok (some (multi_pattern compiled mode (multi_repr mode (p ∷ q ∷ ps))))
