-- ===== src/Task/Session.antt =====
-- Any sequence of the four Submit calls and of runs of tasks keeps the books.
use agile_pool.Prelude.{
  ◌≡◌, refl, sym, subst, ap, ◌∙◌, Bool, false, not, Option, List, [], ◌∷◌, ◌++◌, append_assoc,
  Bool-cases, inl, inr,
}
use agile_pool.Prelude.All.{All}
use agile_pool.Task.{
  Ctx, Task, cancelled, World, note, User, run_task, is_nil_task, or_background, context_task,
  deadline, background, submit_task, try_submit, submit_ctx, submit_before,
}
use agile_pool.Task.Run.{Ready, recovered, life, run_task-journal}
use agile_pool.Task.Admission.{Turn, submit}
use agile_pool.Task.Count.{Kind, count, hooked-zero, Balanced, Balanced-append}
use agile_pool.Task.Pieces.{run-Tally}
use agile_pool.Task.Balance.{bit, Adds-Keeps, Keeps, stay-Keeps, submit-Adds, submit-Keeps}

-- A call with what it finds, or a worker that runs a task.
pub data Act : Type 0 where
  by_submit : Turn → Task → Act
  by_try : Turn → Task → Act
  by_ctx : Turn → Option Ctx → Task → Act
  by_before : Turn → Ctx → Task → Act
  runs : Task → Act

-- Workers run tasks that can be processed.
abbrev pub CanRun : Act → Type 0
CanRun (by_submit t task) = Unit
CanRun (by_try t task) = Unit
CanRun (by_ctx t given task) = Unit
CanRun (by_before t ctx task) = Unit
CanRun (runs task) = Ready task

module _ {ℓ} {P : Type 0} {S : Type ℓ} (u : User P S) (nonblock : Bool) where
  pub act : Act → World P S → World P S
  act (by_submit t task) w = submit_task u (submit u nonblock t) task w
  act (by_try t task) w = (try_submit u (submit u nonblock t) task w).0
  act (by_ctx t given task) w = submit_ctx u (submit u nonblock t) given task w
  act (by_before t ctx task) w = submit_before u (submit u nonblock t) ctx task w
  act (runs task) w = run_task u task w

  pub act_all : List Act → World P S → World P S
  act_all [] w = w
  act_all (a ∷ acts) w = act_all acts (act a w)

  Keeps-then : (w1 w2 w3 : World P S) → Keeps u w1 w2 → Keeps u w2 w3 → Keeps u w1 w3
  Keeps-then w1 w2 w3 (xs, e, s) (ys, f, t) = (
    xs ++ ys,
    f ∙ ap (◌++ ys) e ∙ append_assoc w1.journal xs ys,
    Balanced-append u.hooks xs ys s t,
  )

  cancel-Keeps : (ctx : Ctx) (w : World P S) → Keeps u w (note (cancelled ctx) w)
  unfolding note
  cancel-Keeps ctx w =
      let none_ = sym (hooked-zero u.hooks) in
      (cancelled ctx ∷ [], refl, (refl, none_, none_, none_, none_))

  run_task-Keeps : (task : Task) (w : World P S) → Ready task → Keeps u w (run_task u task w)
  run_task-Keeps task w h =
      let l = (life u task w.rest).0 in
      let told = (run_task-journal u task w h).0 in
      Adds-Keeps u w (run_task u task w) refl
        (_, told, run-Tally u.hooks u.panic_handler task l (recovered l.ended))

  submit_task-Keeps :
      (t : Turn) (task : Task) (w : World P S)
      → Keeps u w (submit_task u (submit u nonblock t) task w)
  unfolding submit_task
  submit_task-Keeps t task w = elim (Bool-cases (is_nil_task task)) [
    | inl nil ↦ rw nil (stay-Keeps u w)
    | inr some_ ↦ rw some_ (submit-Keeps u nonblock t background task w)
  ]

  try_submit-Keeps :
      (t : Turn) (task : Task) (w : World P S)
      → Keeps u w (try_submit u (submit u nonblock t) task w).0
  unfolding try_submit
  try_submit-Keeps t task w = elim (Bool-cases (is_nil_task task)) [
    | inl nil ↦ rw nil (stay-Keeps u w)
    | inr some_ ↦ rw some_ (submit-Keeps u nonblock t background task w)
  ]

  submit_ctx-Keeps :
      (t : Turn) (given : Option Ctx) (task : Task) (w : World P S)
      → Keeps u w (submit_ctx u (submit u nonblock t) given task w)
  unfolding submit_ctx
  submit_ctx-Keeps t given task w =
      let c = or_background given in
      elim (Bool-cases (is_nil_task task)) [
        | inl nil ↦ rw nil (stay-Keeps u w)
        | inr some_ ↦ rw some_ (elim (Bool-cases (u.is_done c w.rest)) [
          | inl over ↦ rw over (stay-Keeps u w)
          | inr open_ ↦ rw open_ (submit-Keeps u nonblock t c (context_task c task) w)
        ])
      ]

  submit_before-Keeps :
      (t : Turn) (ctx : Ctx) (task : Task) (w : World P S)
      → Keeps u w (submit_before u (submit u nonblock t) ctx task w)
  unfolding submit_before
  submit_before-Keeps t ctx task w =
      let r = submit u nonblock t ctx (deadline ctx task) w in
      let kept = submit-Keeps u nonblock t ctx (deadline ctx task) w in
      elim (Bool-cases (is_nil_task task)) [
        | inl nil ↦ rw nil (stay-Keeps u w)
        | inr some_ ↦ rw some_ (elim (Bool-cases r.1) [
          | inl accepted ↦ rw accepted kept
          | inr refused ↦
              rw refused (Keeps-then w r.0 (note (cancelled ctx) r.0) kept (cancel-Keeps ctx r.0))
        ])
      ]

  act-Keeps : (a : Act) (w : World P S) → CanRun a → Keeps u w (act a w)
  unfolding act
  act-Keeps (by_submit t task) w h = submit_task-Keeps t task w
  act-Keeps (by_try t task) w h = try_submit-Keeps t task w
  act-Keeps (by_ctx t given task) w h = submit_ctx-Keeps t given task w
  act-Keeps (by_before t ctx task) w h = submit_before-Keeps t ctx task w
  act-Keeps (runs task) w h = run_task-Keeps task w h

  act_all-Keeps : (acts : List Act) (w : World P S) → All CanRun acts → Keeps u w (act_all acts w)
  unfolding act_all
  act_all-Keeps [] w h = stay-Keeps u w
  act_all-Keeps (a ∷ acts) w (can, h) =
      Keeps-then w (act a w) (act_all acts (act a w)) (act-Keeps a w can)
        (act_all-Keeps acts (act a w) h)

  -- After every sequence of the four Submit calls and of runs of tasks by workers, whatever the
  -- queues, the contexts, the hooks and the tasks do: a task that was added to the pending ones was
  -- handed over, or refused with one `done`, and a run ends with one `done`; DispatchTaskSubmitted was
  -- called once for every submission that an open pool counted, DispatchTaskEnqueued once for every
  -- task that was handed over, to a shard or to the buffer, and DispatchTaskStarted and
  -- DispatchTaskCompleted once for every run, if there are hooks.
  pub act_all-Balanced :
      (acts : List Act) (s : S)
      → All CanRun acts
      → Balanced u.hooks (act_all acts (record { journal = []; rest = s })).journal
  act_all-Balanced acts s h =
      let (ms, e, b) = act_all-Keeps acts (record { journal = []; rest = s }) h in
      subst (Balanced u.hooks) (sym e) b

  -- TrySubmit says whether it handed the task over, and `done` is called at once if it did not.
  pub try_submit-result :
      (t : Turn) (task : Task) (s : S)
      → is_nil_task task ≡ false
      → let r = try_submit u (submit u nonblock t) task (record { journal = []; rest = s }) in
        (count Kind.handovers r.0.journal ≡ bit r.1)
        × (count Kind.dones r.0.journal ≡ bit (not r.1))
        × (count Kind.pendings r.0.journal ≡ 1)
  unfolding try_submit
  try_submit-result t task s e = rw e (
      let (c, (ms, told, n)) =
        submit-Adds u nonblock t background task (record { journal = []; rest = s }) in
      rw told (n.handovers, n.dones, n.pendings))
