-- ===== src/Common/Result.antt =====
-- A Go result with an error: `(value, nil)` or `(_, err)`.
use mathlib.Core.Path.{◌≡◌}
use mathlib.Core.Option.{Option, none, some}

pub data Result (E A : Type 0) : Type 0 where
  ok : A → Result E A
  err : E → Result E A

-- `if err != nil { return err }`.
infixl 5 ◌>>=◌
abbrev pub ◌>>=◌ : {E A B : Type 0} → Result E A → (A → Result E B) → Result E B
ok a >>= f = f a
err e >>= f = err e

abbrev pub to_option : {E A : Type 0} → Result E A → Option A
to_option (ok a) = some a
to_option (err e) = none

-- What holds of the value, where there is one.
abbrev pub OnOk {ℓ} : {E A : Type 0} → (A → Type ℓ) → Result E A → Type ℓ
OnOk P (ok a) = P a
OnOk P (err e) = Unit

pub OnOk-ok {ℓ} :
    {E A : Type 0} (P : A → Type ℓ) {r : Result E A} {a : A} → OnOk P r → r ≡ ok a → P a
OnOk-ok P h e = rw e at h
