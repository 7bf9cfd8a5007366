-- ===== src/Task.antt =====
-- task.go, pool.go and worker.go: the kinds of tasks, the calls that submit them, and `runTask` with
-- the panics that it stops. What a function of the user does is a parameter: it changes a state `S`,
-- and returns or panics.
pub mod Run
pub mod Submit
pub mod Admission
pub mod Count
pub mod Pieces
pub mod Balance
pub mod Session
mod Tests
use agile_pool.Prelude.{
  ℕ, suc, ◌+◌, ◌≡◌, Bool, true, false, not, Option, none, some, List, [], ◌∷◌, ◌++◌, if◌then◌else◌,
}
use agile_pool.Hook.{Call, started, completed}

-- `context.Background()`, or another context.
pub data Ctx : Type 0 where
  background : Ctx
  derived : ℕ → Ctx

abbrev pub or_background : Option Ctx → Ctx
or_background none = background
or_background (some c) = c

-- What an interface of type `Task` holds. `func`, `retry` and `context_task` may be nil pointers;
-- `deadline c t` is the function that `SubmitBefore` wraps round `t`.
pub data Task : Type 0 where
  nil_interface : Task
  func : Option ℕ → Task
  retry : Option ℕ → Task
  nil_context_task : Task
  context_task : Ctx → Task → Task
  deadline : Ctx → Task → Task

-- What happens, in order: a task was added to the pending ones, counted as submitted, handed over
-- through a shard or the buffer; a worker was started for it; a task of the user has returned, or panicked; `cancel` was called; the
-- hooks and the handler were called, or their panics logged; `consumeCount` and `done`.
pub data Mark (P : Type 0) : Type 0 where
  pending_added : Mark P
  submit_counted : Mark P
  worker_started : Mark P
  queued : Mark P
  buffered : Mark P
  consumed : Mark P
  hooks_called : Call Ctx P (Unit {0}) → Mark P
  hooks_panicked : P → Mark P
  ran : Task → Option P → Mark P
  cancelled : Ctx → Mark P
  panic_logged : P → Mark P
  handler_called : Task → P → Mark P
  handler_panicked : P → Mark P
  done : Mark P

pub record World {ℓ} (P : Type 0) (S : Type ℓ) : Type ℓ where
  pub journal : List (Mark P)
  pub rest : S

-- `UpdateTask`
pub update_task : Option Ctx → Task → Task
update_task ctx task = context_task (or_background ctx) task

unfoldable pub is_nil_task : Task → Bool
is_nil_task nil_interface = true
is_nil_task (func none) = true
is_nil_task (func (some f)) = false
is_nil_task (retry none) = true
is_nil_task (retry (some r)) = false
is_nil_task nil_context_task = true
is_nil_task (context_task ctx task) = is_nil_task task
is_nil_task (deadline ctx task) = false

-- The context of a task's hooks. `isNilTask` keeps nil pointers away.
unfoldable pub hook_ctx : Task → Ctx
hook_ctx (context_task ctx task) = ctx
hook_ctx task = background

unfoldable pub note {ℓ} : {P : Type 0} {S : Type ℓ} → Mark P → World P S → World P S
note m w = record w { journal = w.journal ++ m ∷ [] }

-- A recovered panic leaves a mark.
unfoldable pub recover {ℓ} :
    {P : Type 0} {S : Type ℓ} → (P → Mark P) → Option P → World P S → World P S
recover mark none w = w
recover mark (some recovered) w = note (mark recovered) w

-- What the pool calls and does not implement: contexts (`Err() != nil`), tasks, the hooks and the
-- panic handler if there are any, and the value of a nil dereference.
pub record User {ℓ} (P : Type 0) (S : Type ℓ) : Type ℓ where
  pub is_done : Ctx → S → Bool
  pub body : Task → S → S × Option P
  pub hooks : Option (Call Ctx P (Unit {0}) → S → S × Option P)
  pub panic_handler : Option (Task → P → S → S × Option P)
  pub nil_dereference : P

module _ {ℓ} {P : Type 0} {S : Type ℓ} where
  -- `dispatchHook`, for the hooks that are set.
  unfoldable pub call_hooks :
      Option (Call Ctx P (Unit {0}) → S → S × Option P)
      → Call Ctx P (Unit {0})
      → World P S
      → World P S
  call_hooks none d w = w
  call_hooks (some hooks) d w =
      let (s, panic) = hooks d w.rest in
      recover hooks_panicked panic (record { journal = w.journal ++ hooks_called d ∷ []; rest = s })

  -- `handlePanic`, for the handler that is set.
  unfoldable pub handle_panic :
      Option (Task → P → S → S × Option P) → Task → P → World P S → World P S
  handle_panic none task recovered w = note (panic_logged recovered) w
  handle_panic (some handler) task recovered w =
      let (s, panic) = handler task recovered w.rest in
      recover handler_panicked panic
        (record { journal = w.journal ++ handler_called task recovered ∷ []; rest = s })

module _ {ℓ} {P : Type 0} {S : Type ℓ} (u : User P S) where
  -- A function or retry task of the user.
  unfoldable pub run_body : Task → World P S → World P S × Option P
  run_body t w =
      let (s, panic) = u.body t w.rest in
      (record { journal = w.journal ++ ran t panic ∷ []; rest = s }, panic)

  -- The `process` methods. The deferred `cancel` runs after a panic as well.
  unfoldable pub process : Task → World P S → World P S × Option P
  process nil_interface w = (w, some u.nil_dereference)
  process (func none) w = (w, some u.nil_dereference)
  process (func (some f)) w = run_body (func (some f)) w
  process (retry none) w = (w, some u.nil_dereference)
  process (retry (some r)) w = run_body (retry (some r)) w
  process nil_context_task w = (w, some u.nil_dereference)
  process (context_task ctx task) w =
      let inner = process task w in if u.is_done ctx w.rest then (w, none) else inner
  process (deadline ctx task) w =
      let inner = process task w in
      let (w', panic) = if u.is_done ctx w.rest then (w, none) else inner in
      (note (cancelled ctx) w', panic)

  unfoldable pub dispatch_hook : Call Ctx P (Unit {0}) → World P S → World P S
  dispatch_hook d w = call_hooks u.hooks d w

  -- The second deferred function of `runTask`.
  unfoldable pub report : Task → Option P → World P S → World P S
  report task none w = w
  report task (some p) w = handle_panic u.panic_handler task p w

  unfoldable pub run_task : Task → World P S → World P S
  run_task task w =
      let ctx = hook_ctx task in
      let w1 = dispatch_hook (started ctx) (note consumed w) in
      let (w2, recovered) = process task w1 in
      note done (dispatch_hook (completed ctx recovered) (report task recovered w2))

-- The calls that submit a task, over what `submit` does with a task that comes with a context, and
-- whether it accepts it.
module _ {ℓ} {P : Type 0} {S : Type ℓ} (u : User P S)
    (submit : Ctx → Task → World P S → World P S × Bool) where
  pub submit_task : Task → World P S → World P S
  submit_task task w = if is_nil_task task then w else (submit background task w).0

  pub try_submit : Task → World P S → World P S × Bool
  try_submit task w = if is_nil_task task then (w, false) else submit background task w

  pub submit_ctx : Option Ctx → Task → World P S → World P S
  submit_ctx ctx task w =
      let c = or_background ctx in
      if is_nil_task task
      then w
      else if u.is_done c w.rest
      then w
      else (submit c (context_task c task) w).0

  -- `ctx` is the context that `context.WithTimeout` makes.
  pub submit_before : (ctx : Ctx) → Task → World P S → World P S
  submit_before ctx task w =
      if is_nil_task task
      then w
      else let (w', accepted) = submit ctx (deadline ctx task) w in
        if accepted then w' else note (cancelled ctx) w'
