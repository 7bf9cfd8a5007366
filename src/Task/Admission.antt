-- ===== src/Task/Admission.antt =====
-- pool.go: `submit`, with the hooks that it dispatches. What other goroutines do meanwhile decides
-- the outcome of each access of shared memory.
use agile_pool.Prelude.{Bool, true, false}
use agile_pool.Hook.{submitted, enqueued}
use agile_pool.TaskBuffer.{PushResult}
use agile_pool.Task.{
  Ctx, Task, Mark, pending_added, submit_counted, worker_started, queued, buffered, done, World,
  hook_ctx, note, User, dispatch_hook,
}

-- How the last `select` ends.
pub data Wait : Type 0 where
  sent ctx_done pool_closed : Wait

-- What one call of `submit` finds: whether the pool is closed, whether no worker runs and the
-- compare-and-swap wins, whether the shard has room, what PushAndForward says, and how the wait ends.
pub record Turn : Type 0 where
  pub closed : Bool
  pub none_running : Bool
  pub swapped : Bool
  pub room : Bool
  pub pushed : PushResult
  pub waited : Wait

module _ {ℓ} {P : Type 0} {S : Type ℓ} (u : User P S) where
  -- `dispatchTaskEnqueuedFor` and `return true`, after the task was handed over.
  unfoldable pub accept : Mark P → Task → World P S → World P S × Bool
  accept mark task w = (dispatch_hook u (enqueued (hook_ctx task)) (note mark w), true)

  -- `p.done()` and `return false`
  unfoldable pub refuse : World P S → World P S × Bool
  refuse w = (note done w, false)

  unfoldable pub finish_wait : Wait → Task → World P S → World P S × Bool
  finish_wait sent task w = accept queued task w
  finish_wait ctx_done task w = refuse w
  finish_wait pool_closed task w = refuse w

  unfoldable pub after_push : PushResult → Wait → Task → World P S → World P S × Bool
  after_push PushResult.accepted wait task w = accept buffered task w
  after_push PushResult.closed wait task w = refuse w
  after_push PushResult.full wait task w = finish_wait wait task w

  unfoldable pub hand_over : (room nonblock : Bool) → Turn → Task → World P S → World P S × Bool
  hand_over true nonblock t task w = accept queued task w
  hand_over false true t task w = refuse w
  hand_over false false t task w = after_push t.pushed t.waited task w

  unfoldable pub cold_start : (none_running swapped : Bool) → World P S → World P S
  cold_start true true w = note worker_started w
  cold_start true false w = w
  cold_start false swapped w = w

  unfoldable pub admit : (closed nonblock : Bool) → Turn → Task → World P S → World P S × Bool
  admit true nonblock t task w = refuse w
  admit false nonblock t task w = hand_over t.room nonblock t task (
      dispatch_hook u (submitted (hook_ctx task))
        (cold_start t.none_running t.swapped (note submit_counted w)))

  unfoldable pub submit : (nonblock : Bool) → Turn → Ctx → Task → World P S → World P S × Bool
  submit nonblock t ctx task w = admit t.closed nonblock t task (note pending_added w)
