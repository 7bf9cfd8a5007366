-- ===== src/Hook.antt =====
-- hook/hook.go: registration and dispatch of lifecycle callbacks. A callback of type `F` is called
-- through `call`, which may change everything, the registrations included, and may panic.
pub mod Order
pub mod Dynamic
mod Tests
use Prim.Native.String.{String}
use agile_pool.Prelude.{Option, none, some, List, [], ◌∷◌, ◌++◌}

pub data Event : Type 0 where
  task_submitted : Event
  task_enqueued : Event
  task_started : Event
  task_completed : Event
  pool_closed : Event

pub record Hooks {ℓ} (F : Type ℓ) : Type ℓ where
  pub task_submitted : List F
  pub task_enqueued : List F
  pub task_started : List F
  pub task_completed : List F
  pub pool_closed : List F

pub data Line (P : Type 0) : Type 0 where
  hook_panicked : (name : String) (recovered : P) → Line P
  received_nil_pointer : Line P

-- The hooks, what was logged, and what the callbacks work on.
pub record World {ℓ κ} (F : Type ℓ) (P : Type 0) (S : Type κ) : Type (ℓ ⊔ κ) where
  pub hooks : Hooks F
  pub log : List (Line P)
  pub rest : S

-- A call of a Dispatch method: `C` is the type of contexts, `Q` that of pools.
pub data Call (C P Q : Type 0) : Type 0 where
  submitted : (ctx : C) → Call C P Q
  enqueued : (ctx : C) → Call C P Q
  started : (ctx : C) → Call C P Q
  completed : (ctx : C) (recovered : Option P) → Call C P Q
  closed : (pool : Option Q) → Call C P Q

module _ {ℓ} {F : Type ℓ} where
  pub new_hooks : Hooks F
  new_hooks = record {
    task_submitted = [];
    task_enqueued = [];
    task_started = [];
    task_completed = [];
    pool_closed = [];
  }

  -- The five Add methods.
  pub add : Event → F → Hooks F → Hooks F
  add task_submitted fn h = record h { task_submitted = h.task_submitted ++ fn ∷ [] }
  add task_enqueued fn h = record h { task_enqueued = h.task_enqueued ++ fn ∷ [] }
  add task_started fn h = record h { task_started = h.task_started ++ fn ∷ [] }
  add task_completed fn h = record h { task_completed = h.task_completed ++ fn ∷ [] }
  add pool_closed fn h = record h { pool_closed = h.pool_closed ++ fn ∷ [] }

-- The deferred function: a panic is logged, and goes no further.
pub recover {ℓ κ} :
    {F : Type ℓ} {P : Type 0} {S : Type κ} → String → Option P → World F P S → World F P S
recover name none w = w
recover name (some recovered) w = record w { log = w.log ++ hook_panicked name recovered ∷ [] }

module _ {ℓ κ} {F : Type ℓ} {C P Q : Type 0} {S : Type κ}
    (call : F → Call C P Q → World F P S → World F P S × Option P) where
  pub invoke : F → Call C P Q → String → World F P S → World F P S
  invoke fn d name w = let (w', panic) = call fn d w in recover name panic w'

  -- The loop, over the slice that `range` read at its start.
  pub invoke_all : List F → Call C P Q → String → World F P S → World F P S
  invoke_all [] d name w = w
  invoke_all (fn ∷ fns) d name w = invoke_all fns d name (invoke fn d name w)

  -- The five Dispatch methods.
  pub dispatch : Call C P Q → World F P S → World F P S
  dispatch (submitted ctx) w = invoke_all w.hooks.task_submitted (submitted ctx) "OnTaskSubmitted" w
  dispatch (enqueued ctx) w = invoke_all w.hooks.task_enqueued (enqueued ctx) "OnTaskEnqueued" w
  dispatch (started ctx) w = invoke_all w.hooks.task_started (started ctx) "OnTaskStarted" w
  dispatch (completed ctx recovered) w =
      invoke_all w.hooks.task_completed (completed ctx recovered) "OnTaskCompleted" w
  dispatch (closed none) w = record w { log = w.log ++ received_nil_pointer ∷ [] }
  dispatch (closed (some pool)) w =
      invoke_all w.hooks.pool_closed (closed (some pool)) "OnPoolClosed" w
