-- ===== src/Task/Tests.antt =====
-- A task with a deadline that panics, and a nil task.
use Prim.Native.String.{String}
use agile_pool.Prelude.{
  ℕ, suc, ◌≡◌, refl, Bool, true, false, none, some, List, [], ◌∷◌, ◌++◌, if◌then◌else◌, ltb, ◌==◌,
  ◌&&◌,
}
use agile_pool.Hook.{started, completed}
use agile_pool.Task.{
  Ctx, background, derived, Task, func, context_task, deadline, consumed, hooks_called, ran,
  cancelled, handler_called, handler_panicked, done, World, User, run_task, process, dispatch_hook,
  run_body, call_hooks, handle_panic, recover, note, report, hook_ctx, is_nil_task,
}
use agile_pool.Task.Run.{life, life_marks, run_task-journal}
use agile_pool.TaskBuffer.{PushResult}
use agile_pool.Task.Admission.{Wait, Turn}
use agile_pool.Task.Count.{Balanced}
use agile_pool.Task.Session.{Act, by_submit, by_ctx, by_before, runs, act_all, act_all-Balanced}

-- Every function panics, and so does the handler.
abbrev user : User String ℕ
user = record {
  is_done = λ c s. false;
  body = λ t s. (suc s, some "boom");
  hooks = some (λ d s. (suc s, none));
  panic_handler = some (λ t p s. (s, some "handler"));
  nil_dereference = "nil";
}

abbrev start : World String ℕ
start = record { journal = []; rest = 0 }

abbrev task : Task
task = deadline (derived 1) (context_task (derived 2) (func (some 7)))

run_marks :
    (run_task user task start).journal
    ≡ consumed
      ∷ hooks_called (started background)
      ∷ ran (func (some 7)) (some "boom")
      ∷ cancelled (derived 1)
      ∷ handler_called task "boom"
      ∷ handler_panicked "handler"
      ∷ hooks_called (completed background (some "boom"))
      ∷ done
      ∷ []
unfolding run_task process run_body dispatch_hook call_hooks handle_panic recover note report
    hook_ctx
run_marks = refl

abbrev second_done : Ctx → Bool
second_done background = false
second_done (derived n) = n == 2

-- The hooks cancel the inner context before the task runs.
abbrev hurried : User String ℕ
hurried = record user { is_done = λ c s. second_done c && ltb 0 s }

run_task-journal_example :
    ((run_task user task start).journal ≡ [] ++ life_marks user task (life user task 0).0)
    × ((run_task user task start).rest ≡ 3)
run_task-journal_example = run_task-journal user task start tt

skipped_marks :
    (run_task hurried task start).journal
    ≡ consumed
      ∷ hooks_called (started background)
      ∷ cancelled (derived 1)
      ∷ hooks_called (completed background none)
      ∷ done
      ∷ []
unfolding run_task process run_body dispatch_hook call_hooks handle_panic recover note report
    hook_ctx
skipped_marks = refl

-- A `submit` that runs the task at once, and one that rejects nil tasks.
abbrev run_now : Ctx → Task → World String ℕ → World String ℕ × Bool
run_now c t w = (run_task user t w, true)

abbrev check_first : Ctx → Task → World String ℕ → World String ℕ × Bool
check_first c t w = if is_nil_task t then (w, false) else run_now c t w

-- The shard is full, and the buffer too; then the pool closes, or there is room.
abbrev crowded : Wait → Turn
crowded wait = record {
  closed = false;
  none_running = true;
  swapped = true;
  room = false;
  pushed = PushResult.full;
  waited = wait;
}

abbrev acts : List Act
acts =
    by_submit (crowded Wait.sent) (func (some 7))
    ∷ by_before (crowded Wait.pool_closed) (derived 1) (func (some 7))
    ∷ by_ctx (crowded Wait.sent) (some (derived 2)) (func none)
    ∷ runs (func (some 7))
    ∷ []

act_all-Balanced_example :
    Balanced user.hooks (act_all user false acts (record { journal = []; rest = 0 })).journal
act_all-Balanced_example = act_all-Balanced user false acts 0 (tt, (tt, (tt, (tt, tt))))
