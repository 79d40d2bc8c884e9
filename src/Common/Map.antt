-- ===== src/Common/Map.antt =====
-- A Go map with text keys as an association list: a key that is there is updated in place, a new
-- one goes to the end. Where the program ranges over a map, its order is the list's.
use mathlib.Core.Path.{◌≡◌, refl, sym, subst, subst₂}
use mathlib.Core.Logic.{inl, inr}
use mathlib.Core.Bool.{Bool}
use mathlib.Core.Option.{Option, none, some}
use mathlib.Core.List.{List, [], ◌∷◌}
use native.Mathlib.Omega.{arith}
use claude_hooks.Common.Tests.{if◌then◌else◌, Bool-cases}
use claude_hooks.Common.Text.{Text, text_eq, text_eq_iff, text_eq_refl}

abbrev pub Map : Type 0 → Type 0
Map V = List (Text × V)

module _ {V : Type 0} where
  unfoldable pub lookup : Text → Map V → Option V
  unfolding text_eq
  lookup k [] = none
  lookup k ((j, v) ∷ m) = if text_eq j k then some v else lookup k m

  unfoldable pub insert : Text → V → Map V → Map V
  unfolding text_eq
  insert k v [] = (k, v) ∷ []
  insert k v ((j, w) ∷ m) = if text_eq j k then (j, v) ∷ m else (j, w) ∷ insert k v m

  unfoldable pub delete : Text → Map V → Map V
  unfolding text_eq
  delete k [] = []
  delete k ((j, w) ∷ m) = let rest = delete k m in if text_eq j k then rest else (j, w) ∷ rest

  -- The entries whose value passes the test.
  unfoldable pub retain : (V → Bool) → Map V → Map V
  retain p [] = []
  retain p ((j, w) ∷ m) = let rest = retain p m in if p w then (j, w) ∷ rest else rest

  abbrev pub keep_if : (V → Bool) → Option V → Option V
  keep_if p none = none
  keep_if p (some v) = if p v then some v else none

  -- No key stands twice.
  abbrev pub IsMap : Map V → Type 0
  IsMap [] = Unit
  IsMap ((k, v) ∷ m) = (lookup k m ≡ none) × IsMap m

module _ {V : Type 0} where
  pub lookup-insert :
      (k j : Text) (v : V) (m : Map V)
      → lookup j (insert k v m) ≡ (if text_eq k j then some v else lookup j m)
  unfolding lookup insert
  lookup-insert k j v [] = refl
  lookup-insert k j v ((i, w) ∷ m) =
      ground (arith, text_eq_iff k j, text_eq_iff i k, text_eq_iff i j, lookup-insert k j v m)

  pub lookup-delete :
      (k j : Text) (m : Map V) → lookup j (delete k m) ≡ (if text_eq k j then none else lookup j m)
  unfolding lookup delete
  lookup-delete k j [] = ground arith
  lookup-delete k j ((i, w) ∷ m) =
      ground (arith, text_eq_iff k j, text_eq_iff i k, text_eq_iff i j, lookup-delete k j m)

  pub lookup-insert_self : (k : Text) (v : V) (m : Map V) → lookup k (insert k v m) ≡ some v
  lookup-insert_self k v m = simp (lookup-insert, text_eq_refl)

  -- A key that is missing stays missing when entries are dropped.
  pub lookup-retain-none :
      (p : V → Bool) (k : Text) (m : Map V) → lookup k m ≡ none → lookup k (retain p m) ≡ none
  unfolding lookup retain
  lookup-retain-none p k [] h = refl
  lookup-retain-none p k ((i, w) ∷ m) h = ground (arith, lookup-retain-none p k m)

  -- `retain` keeps exactly the entries that pass, under their keys.
  pub lookup-retain :
      (p : V → Bool) (k : Text) (m : Map V)
      → IsMap m
      → lookup k (retain p m) ≡ keep_if p (lookup k m)
  unfolding lookup retain
  lookup-retain p k [] h = refl
  lookup-retain p k ((i, w) ∷ m) h =
      ground (arith, text_eq_iff i k, lookup-retain p k m, lookup-retain-none p k m)

  pub insert-IsMap : (k : Text) (v : V) (m : Map V) → IsMap m → IsMap (insert k v m)
  unfolding insert
  insert-IsMap k v [] h = (unfold lookup in refl, tt)
  insert-IsMap k v ((i, w) ∷ m) h =
      ground
        (arith, text_eq_iff i k, text_eq_iff k i, lookup-insert k i v m, insert-IsMap k v m h.1)

  pub delete-IsMap : (k : Text) (m : Map V) → IsMap m → IsMap (delete k m)
  unfolding delete
  delete-IsMap k [] h = tt
  delete-IsMap k ((i, w) ∷ m) h =
      ground (arith, text_eq_iff i k, text_eq_iff k i, lookup-delete k i m, delete-IsMap k m h.1)

  pub retain-IsMap : (p : V → Bool) (m : Map V) → IsMap m → IsMap (retain p m)
  unfolding retain
  retain-IsMap p [] h = tt
  retain-IsMap p ((i, w) ∷ m) h = ground (arith, lookup-retain-none p i m h.0, retain-IsMap p m h.1)

  -- A property of every entry.
  abbrev pub Each {ℓ} : (Text → V → Type ℓ) → Map V → Type ℓ
  Each P [] = Unit
  Each P ((k, v) ∷ m) = P k v × Each P m

module _ {ℓ} {V : Type 0} (P : Text → V → Type ℓ) where
  pub Each-lookup : (k : Text) {v : V} (m : Map V) → Each P m → lookup k m ≡ some v → P k v
  unfolding lookup
  Each-lookup k [] h e = cc
  Each-lookup k {v} ((i, w) ∷ m) h e = elim (Bool-cases (text_eq i k)) [
    | inl same ↦
        let at_head : w ≡ v = ground arith in subst₂ P ((text_eq_iff i k).0 same) at_head h.0
    | inr other ↦ Each-lookup k m h.1 (rw other at e)
  ]

  pub Each-insert : (k : Text) (v : V) (m : Map V) → P k v → Each P m → Each P (insert k v m)
  unfolding insert
  Each-insert k v [] p h = (p, tt)
  Each-insert k v ((i, w) ∷ m) p h = elim (Bool-cases (text_eq i k)) [
    | inl same ↦ rw same (subst (λ j. P j v) (sym ((text_eq_iff i k).0 same)) p, h.1)
    | inr other ↦ rw other (h.0, Each-insert k v m p h.1)
  ]

  pub Each-delete : (k : Text) (m : Map V) → Each P m → Each P (delete k m)
  unfolding delete
  Each-delete k [] h = tt
  Each-delete k ((i, w) ∷ m) h = elim (Bool-cases (text_eq i k)) [
    | inl same ↦ rw same (Each-delete k m h.1)
    | inr other ↦ rw other (h.0, Each-delete k m h.1)
  ]

  pub Each-retain : (p : V → Bool) (m : Map V) → Each P m → Each P (retain p m)
  unfolding retain
  Each-retain p [] h = tt
  Each-retain p ((i, w) ∷ m) h = elim (Bool-cases (p w)) [
    | inl keep ↦ rw keep (h.0, Each-retain p m h.1)
    | inr drop ↦ rw drop (Each-retain p m h.1)
  ]

  pub Each-weaken {κ} :
      (Q : Text → V → Type κ)
      → ((k : Text) (v : V) → P k v → Q k v)
      → (m : Map V) → Each P m
      → Each Q m
  Each-weaken Q f [] h = tt
  Each-weaken Q f ((i, w) ∷ m) h = (f i w h.0, Each-weaken Q f m h.1)
