-- ===== src/Dispatcher/Executor.antt =====
-- The sequential executor (internal/dispatcher/executor.go). `done i` is what `ctx.Done()` says
-- before the i-th validator.
use claude_hooks.Common.{
  ℕ, suc, ◌≡◌, refl, Bool, not, List, [], ◌∷◌, arith, if◌then◌else◌, take, zero, length,
}
use claude_hooks.Hook.{Context}
use claude_hooks.Validator.{Validator}
use claude_hooks.Dispatcher.{ValidationError, to_validation_error}

-- The errors of the validators that do not pass, in their order.
unfoldable pub failures : Context → List Validator → List ValidationError
failures ctx [] = []
failures ctx (v ∷ vs) =
    let result = v.validate ctx in
    let rest = failures ctx vs in
    if not result.passed then to_validation_error v result ∷ rest else rest

-- The loop of `Execute` from the i-th validator on.
unfoldable pub execute_from : (ℕ → Bool) → ℕ → Context → List Validator → List ValidationError
execute_from done i ctx [] = []
execute_from done i ctx (v ∷ vs) =
    let result = v.validate ctx in
    let rest = execute_from done (suc i) ctx vs in
    if done i then [] else if not result.passed then to_validation_error v result ∷ rest else rest

unfoldable pub execute_sequential : (ℕ → Bool) → Context → List Validator → List ValidationError
unfolding execute_from
execute_sequential done ctx vs = execute_from done 0 ctx vs

-- How many of `n` validators run, from the i-th on, before the context is done.
abbrev pub runs : (ℕ → Bool) → ℕ → ℕ → ℕ
runs done i zero = 0
runs done i (suc n) = let rest = runs done (suc i) n in if done i then 0 else suc rest

execute_from-failures :
    (done : ℕ → Bool) (i : ℕ) (ctx : Context) (vs : List Validator)
    → execute_from done i ctx vs ≡ failures ctx (take (runs done i (length vs)) vs)
unfolding execute_from failures
execute_from-failures done i ctx [] = refl
execute_from-failures done i ctx (v ∷ vs) =
    ground (arith, execute_from-failures done (suc i) ctx vs)

-- The sequential executor gives the failures, in order, of the validators before the first one at
-- which the context is done, and of no other.
pub execute_sequential-failures :
    (done : ℕ → Bool) (ctx : Context) (vs : List Validator)
    → execute_sequential done ctx vs ≡ failures ctx (take (runs done 0 (length vs)) vs)
unfolding execute_sequential
execute_sequential-failures done ctx vs = execute_from-failures done 0 ctx vs
