-- ===== src/Task/Submit.antt =====
-- No nil task reaches `submit`.
use agile_pool.Prelude.{
  ◌≡◌, refl, ap, Bool, false, Option, none, some, if◌then◌else◌, Bool-cases, inl, inr,
}
use agile_pool.Task.{
  Ctx, background, Task, nil_interface, func, retry, nil_context_task, context_task, deadline,
  cancelled, World, is_nil_task, note, User, or_background, submit_task, try_submit, submit_ctx,
  submit_before,
}
use agile_pool.Task.Run.{Plain, Ready}

-- What a user can make: no function of `SubmitBefore` is in it.
abbrev pub Made : Task → Type 0
Made (context_task ctx task) = Made task
Made (deadline ctx task) = ⊥
Made task = Unit

is_nil_task-Plain : (task : Task) → Made task → is_nil_task task ≡ false → Plain task
unfolding is_nil_task
is_nil_task-Plain (func (some f)) m e = tt
is_nil_task-Plain (retry (some r)) m e = tt
is_nil_task-Plain (context_task ctx task) m e = is_nil_task-Plain task m e
is_nil_task-Plain (deadline ctx task) m e = elim m [ ]
is_nil_task-Plain task m e = cc

Plain-Ready : (task : Task) → Plain task → Ready task
Plain-Ready (deadline ctx task) p = elim p [ ]
Plain-Ready (func f) p = p
Plain-Ready task p = p

Plain-is_nil_task : (task : Task) → Plain task → is_nil_task task ≡ false
unfolding is_nil_task
Plain-is_nil_task (func (some f)) p = refl
Plain-is_nil_task (retry (some r)) p = refl
Plain-is_nil_task (context_task ctx task) p = Plain-is_nil_task task p
Plain-is_nil_task nil_interface p = elim p [ ]
Plain-is_nil_task (func none) p = elim p [ ]
Plain-is_nil_task (retry none) p = elim p [ ]
Plain-is_nil_task nil_context_task p = elim p [ ]
Plain-is_nil_task (deadline ctx task) p = elim p [ ]

pub Ready-is_nil_task : (task : Task) → Ready task → is_nil_task task ≡ false
unfolding is_nil_task
Ready-is_nil_task (deadline ctx task) p = refl
Ready-is_nil_task (func f) p = Plain-is_nil_task (func f) p
Ready-is_nil_task (retry r) p = Plain-is_nil_task (retry r) p
Ready-is_nil_task (context_task ctx task) p = Plain-is_nil_task task p
Ready-is_nil_task task p = elim p [ ]

-- Two ways to submit that do the same for tasks that can be processed.
module _ {ℓ} {P : Type 0} {S : Type ℓ} (u : User P S)
    (submit submit' : Ctx → Task → World P S → World P S × Bool)
    (agree : (c : Ctx) (task : Task) (w : World P S)
      → Ready task
      → submit c task w ≡ submit' c task w) where
  -- The four calls give `submit` only tasks that `process` can run to an end of the user's function:
  -- for a task of the user they do the same with any `submit'` that agrees with it on those.
  pub submits_ready :
      (task : Task) (c : Ctx) (given : Option Ctx) (w : World P S)
      → Made task
      → (submit_task u submit task w ≡ submit_task u submit' task w)
        × (try_submit u submit task w ≡ try_submit u submit' task w)
        × (submit_ctx u submit given task w ≡ submit_ctx u submit' given task w)
        × (submit_before u submit c task w ≡ submit_before u submit' c task w)
  unfolding submit_task try_submit submit_ctx submit_before
  submits_ready task c given w m = elim (Bool-cases (is_nil_task task)) [
    | inl nil ↦ rw nil (refl, refl, refl, refl)
    | inr some_ ↦
        let plain = is_nil_task-Plain task m some_ in
        let g = or_background given in
        rw some_ (
          ap (λ r. r.0) (agree background task w (Plain-Ready task plain)),
          agree background task w (Plain-Ready task plain),
          ap (λ r. if u.is_done g w.rest then w else r.0) (agree g (context_task g task) w plain),
          ap (λ r. if r.1 then r.0 else note (cancelled c) r.0) (agree c (deadline c task) w plain),
        )
  ]
