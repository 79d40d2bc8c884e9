-- ===== src/Rules/Patterns/Negation.antt =====
-- Negation of patterns: `!` in front of each of several patterns, and De Morgan's law between the
-- modes `any` and `all` (internal/rules/pattern.go).
use claude_hooks.Common.{
  ◌≡◌, refl, ap, Bool, true, false, not, List, [], ◌∷◌, ◌++◌, Option, none, some, All, map,
}
use native.Mathlib.Omega.{arith}
use claude_hooks.Common.Text.{Text, codes, has_prefix, trim_prefix}
use claude_hooks.Common.Result.{Result, ok, err, ◌>>=◌}
use claude_hooks.Rules.Patterns.{
  Pattern, PatternOptions, MultiPatternMode, any_mode, all_mode, is_negated, strip_negation,
  negated_pattern, any_matches, all_match, multi_pattern, multi_match, compile_pattern_with_options,
  compile_each, compile_multi_pattern, compile_as_with, detect_pattern_type, multi_repr,
}

-- The text with `!` in front.
abbrev pub bang : Text → Text
bang p = codes "!" ++ p

is_negated-bang : (p : Text) → is_negated (bang p) ≡ true
unfolding is_negated has_prefix
is_negated-bang p = ground arith

strip_negation-bang : (p : Text) → strip_negation (bang p) ≡ p
unfolding strip_negation trim_prefix has_prefix
strip_negation-bang p = refl

-- One of the negations matches where not all the patterns match.
pub any_matches-negated :
    (ps : List Pattern) (s : Text) → any_matches (map negated_pattern ps) s ≡ not (all_match ps s)
unfolding any_matches all_match negated_pattern
any_matches-negated [] s = refl
any_matches-negated (p ∷ ps) s = ground (arith, any_matches-negated ps s)

pub all_match-negated :
    (ps : List Pattern) (s : Text) → all_match (map negated_pattern ps) s ≡ not (any_matches ps s)
unfolding any_matches all_match negated_pattern
all_match-negated [] s = refl
all_match-negated (p ∷ ps) s = ground (arith, all_match-negated ps s)

-- The negation of an outcome.
abbrev pub negate_ok : Result Text Pattern → Result Text Pattern
negate_ok (ok p) = ok (negated_pattern p)
negate_ok (err e) = err e

-- The answer of a compiled pattern, if there is one.
abbrev pub verdict : Result Text (Option Pattern) → Text → Option Bool
verdict (err e) s = none
verdict (ok none) s = none
verdict (ok (some p)) s = some (p.matches s)

abbrev pub dual : MultiPatternMode → MultiPatternMode
dual any_mode = all_mode
dual all_mode = any_mode

abbrev pub not_verdict : Option Bool → Option Bool
not_verdict none = none
not_verdict (some b) = some (not b)

module _ (regex_compile : Text → Result Text (Text → Bool)) (validate_pattern : Text → Bool)
    (match_unvalidated : Text → Text → Bool) (insensitive : Bool) where
  abbrev opts : PatternOptions
  opts = record { case_insensitive = insensitive; negate = false }

  abbrev compile : Text → Result Text Pattern
  compile p = compile_pattern_with_options regex_compile validate_pattern match_unvalidated p opts

  negate_bind :
      (r : Result Text Pattern) → (r >>= λ c. ok (negated_pattern c)) ≡ negate_ok (r >>= λ c. ok c)
  negate_bind (ok p) = refl
  negate_bind (err e) = refl

  compile-bang : (p : Text) → is_negated p ≡ false → compile (bang p) ≡ negate_ok (compile p)
  unfolding compile_pattern_with_options
  compile-bang p h =
      rw (is_negated-bang p, strip_negation-bang p, h)
        (negate_bind (
          compile_as_with regex_compile validate_pattern match_unvalidated (detect_pattern_type p)
            insensitive p))

  abbrev each : List Text → Result Text (List Pattern)
  each ps = compile_each regex_compile validate_pattern match_unvalidated ps opts

  abbrev negate_all : Result Text (List Pattern) → Result Text (List Pattern)
  negate_all (ok ps) = ok (map negated_pattern ps)
  negate_all (err e) = err e

  cons_negated :
      (r : Result Text Pattern) (rs : Result Text (List Pattern))
      → (negate_ok r >>= λ c. negate_all rs >>= λ cs. ok (c ∷ cs))
        ≡ negate_all (r >>= λ c. rs >>= λ cs. ok (c ∷ cs))
  cons_negated (ok p) (ok ps) = refl
  cons_negated (ok p) (err e) = refl
  cons_negated (err e) rs = refl

  each-bang :
      (ps : List Text)
      → All (λ p. is_negated p ≡ false) ps
      → each (map bang ps) ≡ negate_all (each ps)
  unfolding compile_each
  each-bang [] h = refl
  each-bang (p ∷ ps) h =
      rw (compile-bang p h.0, each-bang ps h.1) (cons_negated (compile p) (each ps))

  multi_match-negated :
      (mode : MultiPatternMode) (p : Pattern) (ps : List Pattern) (s : Text)
      → multi_match (map negated_pattern (p ∷ ps)) (dual mode) s ≡ not (multi_match (p ∷ ps) mode s)
  multi_match-negated any_mode p ps s = all_match-negated (p ∷ ps) s
  multi_match-negated all_mode p ps s = any_matches-negated (p ∷ ps) s

  verdict-dual :
      (mode : MultiPatternMode) (t u : Text) (r : Result Text Pattern)
      (rs : Result Text (List Pattern)) (s : Text)
      → verdict
          (negate_all (r >>= λ c. rs >>= λ cs. ok (c ∷ cs)) >>= λ cs.
            ok (some (multi_pattern cs (dual mode) t)))
          s
        ≡ not_verdict (
            verdict
              ((r >>= λ c. rs >>= λ cs. ok (c ∷ cs)) >>= λ cs. ok (some (multi_pattern cs mode u)))
              s)
  unfolding multi_pattern
  verdict-dual mode t u (ok p) (ok ps) s = ap some (multi_match-negated mode p ps s)
  verdict-dual mode t u (ok p) (err e) s = refl
  verdict-dual mode t u (err e) rs s = refl

  verdict-single :
      (r : Result Text Pattern) (s : Text)
      → verdict (negate_ok r >>= λ c. ok (some c)) s
        ≡ not_verdict (verdict (r >>= λ c. ok (some c)) s)
  unfolding negated_pattern
  verdict-single (ok p) s = refl
  verdict-single (err e) s = refl

  abbrev pub multi : List Text → MultiPatternMode → Result Text (Option Pattern)
  multi ps mode =
      compile_multi_pattern regex_compile validate_pattern match_unvalidated ps mode opts

  -- For patterns that do not start with `!`: with `!` in front of each and the other of the modes any
  -- and all, what they compile to matches exactly the texts that it did not match before, and it
  -- compiles exactly where it did before.
  pub compile_multi_pattern-dual :
      (ps : List Text)
      → All (λ p. is_negated p ≡ false) ps
      → (mode : MultiPatternMode) (s : Text)
      → verdict (multi (map bang ps) (dual mode)) s ≡ not_verdict (verdict (multi ps mode) s)
  unfolding compile_multi_pattern
  compile_multi_pattern-dual [] h mode s = refl
  compile_multi_pattern-dual (p ∷ []) h mode s =
      rw (compile-bang p h.0) (verdict-single (compile p) s)
  compile_multi_pattern-dual (p ∷ q ∷ ps) h mode s = rw (each-bang (p ∷ q ∷ ps) h) (
      verdict-dual mode (multi_repr (dual mode) (map bang (p ∷ q ∷ ps)))
        (multi_repr mode (p ∷ q ∷ ps)) (compile p) (each (q ∷ ps)) s)
