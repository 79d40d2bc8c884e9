-- ===== src/Dispatcher/Pools/Completion.antt =====
-- The parallel executor neither deadlocks nor runs forever (internal/dispatcher/executor.go).
use claude_hooks.Common.{
  ℕ, zero, suc, ◌+◌, ◌-◌, ◌*◌, ◌≤◌, ◌≡◌, ◌⊎◌, inl, inr, refl, Bool, List, [], ◌∷◌, arith, length,
}
use claude_hooks.Hook.{Context}
use claude_hooks.Validator.{Validator, Category}
use claude_hooks.Dispatcher.{ValidationError}
use claude_hooks.Dispatcher.Pools.{
  Slots, slots, Workers, Pick, here, there, Step, acquire, finish, give_up, Steps, done, next,
  start, IsDone,
}
use claude_hooks.Dispatcher.Pools.Results.{pool_bound}

length-Pick : {A : Type 0} {v : A} {xs ys : List A} → Pick v xs ys → length xs ≡ suc (length ys)
length-Pick here = refl
length-Pick (there k) = omega (arith, length-Pick k)

-- What is left to do: two moves for a goroutine that waits, one for one that runs.
abbrev pub remaining : Workers → ℕ
remaining w = 2 * length w.waiting + length w.running

module _ (ctx : Context) (cancelled : Bool) where
  Step-remaining : (w w' : Workers) → Step ctx cancelled w w' → suc (remaining w') ≤ remaining w
  Step-remaining _ _ (acquire k e) = omega (arith, length-Pick k)
  Step-remaining _ _ (finish k) = omega (arith, length-Pick k)
  Step-remaining _ _ (give_up c k) = omega (arith, length-Pick k)

  abbrev pub moves : {w w' : Workers} → Steps ctx cancelled w w' → ℕ
  moves done = 0
  moves (next s ss) = suc (moves ss)

  abbrev Positive : Slots → Type 0
  Positive s = (c : Category) → 1 ≤ slots c s

  append_steps :
      (w w' w'' : Workers)
      → Steps ctx cancelled w w'
      → Steps ctx cancelled w' w''
      → Steps ctx cancelled w w''
  append_steps w _ w'' done tail = tail
  append_steps w w' w'' (next {w' = u} s ss) tail = next s (append_steps u w' w'' ss tail)

  module _ (sizes : Slots) (vs : List Validator) (positive : Positive sizes) where
    one_more :
        (ws rs : List Validator) (es : List ValidationError) (s : Slots)
        → let w : Workers = record { waiting = ws; running = rs; results = es; free = s } in
          Steps ctx cancelled (start sizes vs) w
          → IsDone w ⊎ ((w' : Workers) × Step ctx cancelled w w')
    one_more [] [] es s ss = inl (refl, refl)
    one_more ws (v ∷ rs) es s ss = inr (_, finish here)
    one_more (v ∷ ws) [] es s ss =
        let all_free = (pool_bound ctx cancelled sizes vs _ v.category ss).1 refl in
        inr (
          _,
          acquire {n = slots v.category s - 1} here (omega (arith, all_free, positive v.category)),
        )

    finish_from :
        (fuel : ℕ) (w : Workers)
        → remaining w ≤ fuel
        → Steps ctx cancelled (start sizes vs) w
        → (w' : Workers) × Steps ctx cancelled w w' × IsDone w'
    finish_from zero w le ss = elim (one_more w.waiting w.running w.results w.free ss) [
      | inl d ↦ (w, done, d)
      | inr (w', s) ↦ absurd (omega (arith, Step-remaining w w' s))
    ]
    finish_from (suc n) w le ss = elim (one_more w.waiting w.running w.results w.free ss) [
      | inl d ↦ (w, done, d)
      | inr (w', s) ↦
          let (w'', tail, d) =
            finish_from n w' (omega (arith, Step-remaining w w' s))
              (append_steps _ w w' ss (next s done)) in
          (w'', next s tail, d)
    ]

    -- With a slot in every pool, each state that the executor reaches can go on to one where no
    -- goroutine is left: it does not deadlock.
    pub completes :
        (w : Workers)
        → Steps ctx cancelled (start sizes vs) w
        → (w' : Workers) × Steps ctx cancelled w w' × IsDone w'
    completes w ss = finish_from (remaining w) w (omega arith) ss
