-- ===== src/Rules/Patterns/Cache.antt =====
-- The cache of compiled patterns (PatternCache in internal/rules/pattern.go), under its lock.
use claude_hooks.Common.{
  ℕ, length, ◌≡◌, refl, sym, arith, Bool, List, [], ◌∷◌, Option, none, some, if◌then◌else◌, All,
  Bool-cases, inl, inr,
}
use mathlib.Core.Path.{subst}
use claude_hooks.Common.Text.{Text, text_eq, text_eq_iff}
use claude_hooks.Common.Result.{Result, ok, err}
use claude_hooks.Rules.Patterns.{Pattern, compile_pattern}

pub record PatternCache : Type 0 where
  pub patterns : List (Text × Pattern)
  pub errors : List (Text × Text)

abbrev pub new_pattern_cache : PatternCache
new_pattern_cache = record { patterns = []; errors = [] }

-- `Clear` and `Size`, the number of patterns that compiled.
abbrev pub clear : PatternCache → PatternCache
clear c = new_pattern_cache

abbrev pub size : PatternCache → ℕ
size c = length c.patterns

unfoldable pub find_key : {A : Type 0} → Text → List (Text × A) → Option A
unfolding text_eq
find_key k [] = none
find_key k (e ∷ es) = if text_eq e.0 k then some e.1 else find_key k es

module _ (regex_compile : Text → Result Text (Text → Bool)) (validate_pattern : Text → Bool)
    (match_unvalidated : Text → Text → Bool) where
  abbrev pub compiled : Text → Result Text Pattern
  compiled p = compile_pattern regex_compile validate_pattern match_unvalidated p

  abbrev pub remember :
      Text → Result Text Pattern → PatternCache → PatternCache × Result Text Pattern
  remember p (ok x) c = (record { patterns = (p, x) ∷ c.patterns; errors = c.errors }, ok x)
  remember p (err e) c = (record { patterns = c.patterns; errors = (p, e) ∷ c.errors }, err e)

  abbrev pub get_missing : Text → Option Text → PatternCache → PatternCache × Result Text Pattern
  get_missing p (some e) c = (c, err e)
  get_missing p none c = remember p (compiled p) c

  abbrev pub get_found : Text → Option Pattern → PatternCache → PatternCache × Result Text Pattern
  get_found p (some x) c = (c, ok x)
  get_found p none c = get_missing p (find_key p c.errors) c

  -- `Get`: the second look under the write lock finds what the first one found.
  unfoldable pub get_pattern : Text → PatternCache → PatternCache × Result Text Pattern
  unfolding find_key
  get_pattern p c = get_found p (find_key p c.patterns) c

  -- Each entry holds what compiling its text gives.
  abbrev pub Coherent : PatternCache → Type 0
  Coherent c =
      All (λ e. compiled e.0 ≡ ok e.1) c.patterns × All (λ e. compiled e.0 ≡ err e.1) c.errors

  find_key-All :
      {A : Type 0} (f : A → Result Text Pattern) (p : Text) (es : List (Text × A))
      → All (λ e. compiled e.0 ≡ f e.1) es
      → (x : A) → find_key p es ≡ some x
      → compiled p ≡ f x
  unfolding find_key
  find_key-All f p [] h x e = ground arith
  find_key-All f p (d ∷ es) h x e = elim (Bool-cases (text_eq d.0 p)) [
    | inl y ↦
        let same : d.0 ≡ p = (text_eq_iff d.0 p).0 y in
        let found : some d.1 ≡ some x = rw y at e in
        let value : d.1 ≡ x = cc in subst (λ q. compiled q ≡ f x) same (rw value at h.0)
    | inr n ↦ find_key-All f p es h.1 x (rw n at e)
  ]

  -- What an outcome of a look-up must be.
  abbrev Answers : Text → PatternCache × Result Text Pattern → Type 0
  Answers p out = Coherent out.0 × (out.1 ≡ compiled p)

  remember-Coherent :
      (p : Text) (r : Result Text Pattern) (c : PatternCache)
      → compiled p ≡ r
      → Coherent c
      → Answers p (remember p r c)
  remember-Coherent p (ok x) c e h = (((e, h.0), h.1), sym e)
  remember-Coherent p (err x) c e h = ((h.0, (e, h.1)), sym e)

  get_missing-Coherent :
      (p : Text) (c : PatternCache)
      → Coherent c
      → (o : Option Text) → find_key p c.errors ≡ o
      → Answers p (get_missing p o c)
  get_missing-Coherent p c h (some e) found = (h, sym (find_key-All err p c.errors h.1 e found))
  get_missing-Coherent p c h none found = remember-Coherent p (compiled p) c refl h

  get_found-Coherent :
      (p : Text) (c : PatternCache)
      → Coherent c
      → (o : Option Pattern) → find_key p c.patterns ≡ o
      → Answers p (get_found p o c)
  get_found-Coherent p c h (some x) found = (h, sym (find_key-All ok p c.patterns h.0 x found))
  get_found-Coherent p c h none found = get_missing-Coherent p c h (find_key p c.errors) refl

  -- On a coherent cache a look-up answers what compiling the text gives, and the cache stays
  -- coherent.
  pub get_pattern-compiled :
      (p : Text) (c : PatternCache)
      → Coherent c
      → Coherent (get_pattern p c).0 × ((get_pattern p c).1 ≡ compiled p)
  unfolding get_pattern
  get_pattern-compiled p c h = get_found-Coherent p c h (find_key p c.patterns) refl
