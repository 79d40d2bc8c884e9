-- ===== src/Common/Booleans.antt =====
-- What a conjunction of tests says of its parts.
use mathlib.Core.Path.{◌≡◌, refl}
use mathlib.Core.Bool.{Bool, true, false, not, ◌&&◌, ◌||◌}

pub false-true : false ≡ true → ⊥
false-true h = cc

pub and_left : (a b : Bool) → (a && b) ≡ true → a ≡ true
and_left true b h = refl
and_left false b h = absurd (false-true h)

pub and_right : (a b : Bool) → (a && b) ≡ true → b ≡ true
and_right true b h = h
and_right false b h = absurd (false-true h)

pub and_left_not : (a b : Bool) → (not a && not b) ≡ true → a ≡ false
and_left_not true b h = absurd (false-true h)
and_left_not false b h = refl

pub and_right_not : (a b : Bool) → (not a && not b) ≡ true → b ≡ false
and_right_not true b h = absurd (false-true h)
and_right_not false true h = absurd (false-true h)
and_right_not false false h = refl

pub or_false_left : (a b : Bool) → (a || b) ≡ false → a ≡ false
or_false_left true b h = h
or_false_left false b h = refl

pub or_false_right : (a b : Bool) → (a || b) ≡ false → b ≡ false
or_false_right true b h = absurd (cc)
or_false_right false b h = h

pub not-true : (a : Bool) → not a ≡ true → a ≡ false
not-true true h = absurd (false-true h)
not-true false h = refl

pub not-false : (a : Bool) → not a ≡ false → a ≡ true
not-false true h = refl
not-false false h = cc

pub not-not : (a : Bool) → not (not a) ≡ a
not-not true = refl
not-not false = refl

pub not_and_nots : (a b : Bool) → not (not a && not b) ≡ (a || b)
not_and_nots true b = refl
not_and_nots false b = not-not b
