-- ===== src/Dispatcher/Pools.antt =====
-- The parallel executor (internal/dispatcher/executor.go): goroutines that take a slot of the pool
-- of their category, run, and give it back. A step is what one goroutine does under the
-- semaphores and the mutex; the scheduler picks any.
pub mod Results
pub mod Completion
use claude_hooks.Common.{ℕ, suc, ◌*◌, ◌≡◌, Bool, true, List, [], ◌∷◌, ◌++◌, Option, get_or}
use claude_hooks.Hook.{Context}
use claude_hooks.Validator.{Validator, Category, cpu, io, git}
use claude_hooks.Dispatcher.{ValidationError}
use claude_hooks.Dispatcher.Executor.{failures}

-- The free slots of the three semaphores; also `ParallelExecutorConfig`, of the sizes.
pub record Slots : Type 0 where
  pub cpu_slots : ℕ
  pub io_slots : ℕ
  pub git_slots : ℕ

-- `poolFor`.
abbrev pub slots : Category → Slots → ℕ
slots cpu s = s.cpu_slots
slots io s = s.io_slots
slots git s = s.git_slots

abbrev pub set_slots : Category → ℕ → Slots → Slots
set_slots cpu n s = record s { cpu_slots = n }
set_slots io n s = record s { io_slots = n }
set_slots git n s = record s { git_slots = n }

-- `num_cpu` is `runtime.NumCPU()`.
abbrev pub default_parallel_config : ℕ → Slots
default_parallel_config num_cpu = record {
  cpu_slots = num_cpu;
  io_slots = num_cpu * 2;
  git_slots = 1;
}

abbrev pub new_parallel_executor : ℕ → Option Slots → Slots
new_parallel_executor num_cpu cfg = get_or cfg (default_parallel_config num_cpu)

-- Goroutines before `Acquire` and after it, the errors collected so far, and the free slots.
pub record Workers : Type 0 where
  pub waiting : List Validator
  pub running : List Validator
  pub results : List ValidationError
  pub free : Slots

-- `xs` is `ys` with `v` somewhere in it.
pub data Pick {A : Type 0} (v : A) : List A → List A → Type 0 where
  here : {xs : List A} → Pick v (v ∷ xs) xs
  there : {x : A} {xs ys : List A} → Pick v xs ys → Pick v (x ∷ xs) (x ∷ ys)

-- A goroutine acquires, finishes with its error if it has one, or gives up because the context is
-- done, which it notices without keeping a slot.
pub data Step (ctx : Context) (cancelled : Bool) : Workers → Workers → Type 0 where
  acquire :
      {v : Validator} {ws ws' rs : List Validator} {es : List ValidationError} {n : ℕ} {s : Slots}
      → Pick v ws ws'
      → slots v.category s ≡ suc n
      → Step ctx cancelled
          (record { waiting = ws; running = rs; results = es; free = s })
          (record {
            waiting = ws';
            running = v ∷ rs;
            results = es;
            free = set_slots v.category n s;
          })
  finish :
      {v : Validator} {ws rs rs' : List Validator} {es : List ValidationError} {s : Slots}
      → Pick v rs rs'
      → Step ctx cancelled
          (record { waiting = ws; running = rs; results = es; free = s })
          (record {
            waiting = ws;
            running = rs';
            results = es ++ failures ctx (v ∷ []);
            free = set_slots v.category (suc (slots v.category s)) s;
          })
  give_up :
      {v : Validator} {ws ws' rs : List Validator} {es : List ValidationError} {s : Slots}
      → cancelled ≡ true
      → Pick v ws ws'
      → Step ctx cancelled
          (record { waiting = ws; running = rs; results = es; free = s })
          (record { waiting = ws'; running = rs; results = es; free = s })

pub data Steps (ctx : Context) (cancelled : Bool) : Workers → Workers → Type 0 where
  done : {w : Workers} → Steps ctx cancelled w w
  next :
      {w w' w'' : Workers}
      → Step ctx cancelled w w'
      → Steps ctx cancelled w' w''
      → Steps ctx cancelled w w''

abbrev pub start : Slots → List Validator → Workers
start sizes vs = record { waiting = vs; running = []; results = []; free = sizes }

-- Nothing for `wg.Wait()` to wait for.
abbrev pub IsDone : Workers → Type 0
IsDone w = (w.waiting ≡ []) × (w.running ≡ [])

-- What `Execute` can return: no validator, one on the spot, or the results of all goroutines.
pub data Executes (ctx : Context) (cancelled : Bool) (sizes : Slots)
    : List Validator → List ValidationError → Type 0 where
  no_validators : Executes ctx cancelled sizes [] []
  one_validator : {v : Validator} → Executes ctx cancelled sizes (v ∷ []) (failures ctx (v ∷ []))
  all_done :
      {v u : Validator} {vs : List Validator} {w : Workers}
      → Steps ctx cancelled (start sizes (v ∷ (u ∷ vs))) w
      → IsDone w
      → Executes ctx cancelled sizes (v ∷ (u ∷ vs)) w.results
