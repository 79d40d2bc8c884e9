-- ===== src/Dispatcher/Pools/Results.antt =====
-- Whatever the schedule, the parallel executor collects the errors of the sequential one and keeps
-- to the sizes of its pools (internal/dispatcher/executor.go).
use claude_hooks.Common.{
  ℕ, suc, ◌+◌, ◌≤◌, ◌≡◌, refl, ◌∙◌, Bool, true, false, List, [], ◌∷◌, ◌++◌, arith, if◌then◌else◌,
}
use claude_hooks.Hook.{Context}
use claude_hooks.Validator.{Validator, Category, cpu, io, git}
use claude_hooks.Dispatcher.{ValidationError}
use claude_hooks.Dispatcher.Executor.{failures, execute_sequential}
use claude_hooks.Dispatcher.Pools.{
  Slots, slots, set_slots, Workers, Pick, here, there, Step, acquire, finish, give_up, Steps, done,
  next, start, Executes, no_validators, one_validator, all_done,
}

-- How many elements pass a test.
abbrev pub tally : {A : Type 0} → (A → Bool) → List A → ℕ
tally p [] = 0
tally p (x ∷ xs) = let rest = tally p xs in if p x then suc rest else rest

tally-append :
    {A : Type 0} (p : A → Bool) (xs ys : List A) → tally p (xs ++ ys) ≡ tally p xs + tally p ys
tally-append p [] ys = omega arith
tally-append p (x ∷ xs) ys = ground (arith, tally-append p xs ys)

tally-Pick :
    {A : Type 0} (p : A → Bool) {v : A} {xs ys : List A}
    → Pick v xs ys
    → tally p xs ≡ tally p (v ∷ ys)
tally-Pick p here = refl
tally-Pick p {v} (there {x} {xs} {ys} k) = ground (arith, tally-Pick p k)

module _ (ctx : Context) (p : ValidationError → Bool) where
  abbrev failing : List Validator → ℕ
  failing vs = tally p (failures ctx vs)

  failing-cons :
      (v : Validator) (vs : List Validator) → failing (v ∷ vs) ≡ failing (v ∷ []) + failing vs
  unfolding failures
  failing-cons v vs = ground arith

  failing-Pick :
      {v : Validator} {xs ys : List Validator} → Pick v xs ys → failing xs ≡ failing (v ∷ ys)
  failing-Pick here = refl
  failing-Pick {v} (there {x} {xs} {ys} k) = omega (
    arith,
    failing-Pick k,
    failing-cons x xs,
    failing-cons v ys,
    failing-cons x ys,
    failing-cons v (x ∷ ys),
  )

  -- The errors that a state has and will have.
  abbrev due : Workers → ℕ
  due w = failing w.waiting + failing w.running + tally p w.results

  Step-due : (w w' : Workers) → Step ctx false w w' → due w' ≡ due w
  Step-due _ _ (acquire {v} {ws} {ws'} {rs} k e) =
      omega (arith, failing-Pick k, failing-cons v ws', failing-cons v rs)
  Step-due _ _ (finish {v} {ws} {rs} {rs'} {es} k) =
      omega (arith, failing-Pick k, failing-cons v rs', tally-append p es (failures ctx (v ∷ [])))
  Step-due _ _ (give_up c k) = cc

  Steps-due : (w w' : Workers) → Steps ctx false w w' → due w' ≡ due w
  Steps-due w _ done = refl
  Steps-due w w'' (next {w' = w'} s ss) = Steps-due w' w'' ss ∙ Step-due w w' s

  Executes-failing :
      (sizes : Slots) (vs : List Validator) (es : List ValidationError)
      → Executes ctx false sizes vs es
      → tally p es ≡ failing vs
  unfolding failures
  Executes-failing sizes _ _ no_validators = refl
  Executes-failing sizes _ _ one_validator = refl
  Executes-failing sizes _ _ (all_done {v} {u} {vs} {w} ss (no_waiting, no_running)) =
      let total = Steps-due (start sizes (v ∷ (u ∷ vs))) w ss in
      omega (arith, (rw (no_waiting, no_running) at total))

never_done :
    (i : ℕ) (ctx : Context) (vs : List Validator)
    → claude_hooks.Dispatcher.Executor.execute_from (λ _. false) i ctx vs ≡ failures ctx vs
unfolding claude_hooks.Dispatcher.Executor.execute_from failures
never_done i ctx [] = refl
never_done i ctx (v ∷ vs) = rw (never_done (suc i) ctx vs)

-- Whatever the schedule and the sizes of the pools, the parallel executor returns the errors of the
-- sequential one, each as often, in some order, where the context is not cancelled.
pub same_errors :
    (ctx : Context) (sizes : Slots) (vs : List Validator) (es : List ValidationError)
    → Executes ctx false sizes vs es
    → (p : ValidationError → Bool) → tally p es ≡ tally p (execute_sequential (λ _. false) ctx vs)
unfolding execute_sequential
same_errors ctx sizes vs es x p = rw (never_done 0 ctx vs) (Executes-failing ctx p sizes vs es x)

abbrev pub category_eq : Category → Category → Bool
category_eq cpu cpu = true
category_eq io io = true
category_eq git git = true
category_eq _ _ = false

-- The running validators of a category.
abbrev pub running_in : Category → Workers → ℕ
running_in c w = tally (λ v. category_eq c v.category) w.running

slots-set :
    (c k : Category) (n : ℕ) (s : Slots)
    → slots c (set_slots k n s) ≡ (if category_eq c k then n else slots c s)
slots-set cpu cpu n s = refl
slots-set cpu io n s = refl
slots-set cpu git n s = refl
slots-set io cpu n s = refl
slots-set io io n s = refl
slots-set io git n s = refl
slots-set git cpu n s = refl
slots-set git io n s = refl
slots-set git git n s = refl

slots-eq : (c k : Category) (s : Slots) → category_eq c k ≡ true → slots c s ≡ slots k s
slots-eq cpu cpu s h = refl
slots-eq io io s h = refl
slots-eq git git s h = refl
slots-eq cpu io s h = cc
slots-eq cpu git s h = cc
slots-eq io cpu s h = cc
slots-eq io git s h = cc
slots-eq git cpu s h = cc
slots-eq git io s h = cc

module _ (ctx : Context) (cancelled : Bool) where
  Step-slots :
      (c : Category) (w w' : Workers)
      → Step ctx cancelled w w'
      → slots c w'.free + running_in c w' ≡ slots c w.free + running_in c w
  Step-slots c _ _ (acquire {v} {ws} {ws'} {rs} {es} {n} {s} k e) =
      ground (arith, slots-set c v.category n s, slots-eq c v.category s)
  Step-slots c _ _ (finish {v} {ws} {rs} {rs'} {es} {s} k) = ground (
    arith,
    slots-set c v.category (suc (slots v.category s)) s,
    slots-eq c v.category s,
    tally-Pick (λ u. category_eq c u.category) k,
  )
  Step-slots c _ _ (give_up g k) = refl

  Steps-slots :
      (c : Category) (w w' : Workers)
      → Steps ctx cancelled w w'
      → slots c w'.free + running_in c w' ≡ slots c w.free + running_in c w
  Steps-slots c w _ done = refl
  Steps-slots c w w'' (next {w' = w'} s ss) = Steps-slots c w' w'' ss ∙ Step-slots c w w' s

  -- In every state that the executor reaches, at most as many validators of a category run as its
  -- pool has slots, and where nothing runs all slots are free again.
  pub pool_bound :
      (sizes : Slots) (vs : List Validator) (w : Workers) (c : Category)
      → Steps ctx cancelled (start sizes vs) w
      → (running_in c w ≤ slots c sizes) × (w.running ≡ [] → slots c w.free ≡ slots c sizes)
  pool_bound sizes vs w c ss =
      let total = Steps-slots c (start sizes vs) w ss in
      (omega arith, λ none_running. omega (arith, (rw none_running at total)))
