-- ===== src/Task/Run.antt =====
-- `runTask` stops every panic and keeps its order of calls.
use agile_pool.Prelude.{
  ◌≡◌, refl, sym, ap, ◌∙◌, subst, inl, inr, Option, none, some, List, [], ◌∷◌, ◌++◌, append_assoc,
  append-nil, Bool-cases, Bool, false, ◌||◌, if◌then◌else◌,
}
use agile_pool.Hook.{Call, started, completed}
use agile_pool.Task.{
  Ctx, Task, nil_interface, func, retry, nil_context_task, context_task, deadline, Mark, consumed,
  hooks_called, hooks_panicked, ran, cancelled, panic_logged, handler_called, handler_panicked,
  done, World, hook_ctx, note, User, run_body, process, recover, call_hooks, dispatch_hook,
  handle_panic, report, run_task,
}

-- Tasks that `isNilTask` accepts from a user.
abbrev pub Plain : Task → Type 0
Plain (func (some f)) = Unit
Plain (retry (some r)) = Unit
Plain (context_task ctx task) = Plain task
Plain task = ⊥

-- Tasks that `submit` gets: a plain one, or a deadline round it.
abbrev pub Ready : Task → Type 0
Ready (deadline ctx task) = Plain task
Ready task = Plain task

-- The function of the user in a task.
abbrev pub innermost : Task → Task
innermost (context_task ctx task) = innermost task
innermost (deadline ctx task) = innermost task
innermost task = task

-- How a run went: the panics of the hooks and of the handler, and how the function of the user ended,
-- `none` when it was not called.
pub record Life (P : Type 0) : Type 0 where
  pub started_panic : Option P
  pub ended : Option (Option P)
  pub handler_panic : Option P
  pub completed_panic : Option P

module _ {P : Type 0} where
  abbrev pub recovered : Option (Option P) → Option P
  recovered none = none
  recovered (some panic) = panic

  abbrev pub stopped : (P → Mark P) → Option P → List (Mark P)
  stopped mark none = []
  stopped mark (some p) = mark p ∷ []

  abbrev pub ran_marks : Task → Option (Option P) → List (Mark P)
  ran_marks task none = []
  ran_marks task (some panic) = ran (innermost task) panic ∷ []

  abbrev pub cancel_marks : Task → List (Mark P)
  cancel_marks (deadline ctx task) = cancelled ctx ∷ []
  cancel_marks task = []

  abbrev pub hook_marks {κ} :
      {H : Type κ} → Option H → Call Ctx P (Unit {0}) → Option P → List (Mark P)
  hook_marks none d panic = []
  hook_marks (some h) d panic = hooks_called d ∷ stopped hooks_panicked panic

  abbrev pub report_marks {κ} : {H : Type κ} → Option H → Task → Option P → Option P → List (Mark P)
  report_marks handler task none panic = []
  report_marks none task (some p) panic = panic_logged p ∷ []
  report_marks (some h) task (some p) panic = handler_called task p ∷ stopped handler_panicked panic

  module _ {ℓ} {S : Type ℓ} where
    -- The hooks or the handler, if there are any: what they leave and what they panic with.
    abbrev pub call_effect {κ} : {A : Type κ} → Option (A → S → S × Option P) → A → S → S × Option P
    call_effect none d s = (s, none)
    call_effect (some h) d s = h d s

    abbrev pub handler_effect :
        Option (Task → P → S → S × Option P) → Task → Option P → S → S × Option P
    handler_effect handler task none s = (s, none)
    handler_effect none task (some p) s = (s, none)
    handler_effect (some h) task (some p) s = h task p s

    -- The journal grew by `ms`, and the state is `s`.
    abbrev Tells : List (Mark P) → S → World P S → World P S → Type ℓ
    Tells ms s w w' = (w'.journal ≡ w.journal ++ ms) × (w'.rest ≡ s)

    abbrev Hooked :
        Option (Call Ctx P (Unit {0}) → S → S × Option P)
        → Call Ctx P (Unit {0})
        → S
        → World P S
        → World P S
        → Type ℓ
    Hooked hooks d s w w' =
        let (s', panic) = call_effect hooks d s in Tells (hook_marks hooks d panic) s' w w'

    abbrev Reported :
        Option (Task → P → S → S × Option P) → Task → Option P → S → World P S → World P S → Type ℓ
    Reported handler task r s w w' =
        let (s', panic) = handler_effect handler task r s in
        Tells (report_marks handler task r panic) s' w w'

    recover-Tells :
        (mark : P → Mark P) (panic : Option P) (w : World P S)
        → Tells (stopped mark panic) w.rest w (recover mark panic w)
    unfolding recover note
    recover-Tells mark none w = (sym (append-nil _), refl)
    recover-Tells mark (some p) w = (refl, refl)

    call_hooks-Hooked :
        (hooks : Option (Call Ctx P (Unit {0}) → S → S × Option P)) (d : Call Ctx P (Unit {0}))
        (w : World P S)
        → Hooked hooks d w.rest w (call_hooks hooks d w)
    unfolding call_hooks
    call_hooks-Hooked none d w = (sym (append-nil _), refl)
    call_hooks-Hooked (some h) d w =
        let (s, panic) = h d w.rest in
        let (told, kept) =
          recover-Tells hooks_panicked panic
            (record { journal = w.journal ++ hooks_called d ∷ []; rest = s }) in
        (told ∙ append_assoc w.journal (hooks_called d ∷ []) (stopped hooks_panicked panic), kept)

    pub call_hooks-journal :
        (hooks : Option (Call Ctx P (Unit {0}) → S → S × Option P)) (d : Call Ctx P (Unit {0}))
        (w : World P S)
        → (panic : Option P) × ((call_hooks hooks d w).journal
            ≡ w.journal ++ hook_marks hooks d panic)
    call_hooks-journal hooks d w = ((call_effect hooks d w.rest).1, (call_hooks-Hooked hooks d w).0)

    handle_panic-Reported :
        (handler : Option (Task → P → S → S × Option P)) (task : Task) (p : P) (w : World P S)
        → Reported handler task (some p) w.rest w (handle_panic handler task p w)
    unfolding handle_panic note
    handle_panic-Reported none task p w = (refl, refl)
    handle_panic-Reported (some h) task p w =
        let (s, panic) = h task p w.rest in
        let (told, kept) =
          recover-Tells handler_panicked panic
            (record { journal = w.journal ++ handler_called task p ∷ []; rest = s }) in
        (
          told
              ∙ append_assoc w.journal (handler_called task p ∷ [])
                  (stopped handler_panicked panic),
          kept,
        )

  module _ {ℓ} {S : Type ℓ} (u : User P S) where
    -- The marks of a run, in order.
    abbrev pub life_marks : Task → Life P → List (Mark P)
    life_marks task l =
        let r = recovered l.ended in
        consumed
        ∷ (hook_marks u.hooks (started (hook_ctx task)) l.started_panic
            ++ (ran_marks task l.ended
                ++ (cancel_marks task
                    ++ (report_marks u.panic_handler task r l.handler_panic
                        ++ (hook_marks u.hooks (completed (hook_ctx task) r) l.completed_panic
                            ++ done ∷ [])))))

    report-Reported :
        (task : Task) (r : Option P) (w : World P S)
        → Reported u.panic_handler task r w.rest w (report u task r w)
    unfolding report
    report-Reported task none w = (sym (append-nil _), refl)
    report-Reported task (some p) w = handle_panic-Reported u.panic_handler task p w

    -- Whether a context in the task is done.
    abbrev pub skipped : Task → S → Bool
    skipped (context_task ctx task) s = u.is_done ctx s || skipped task s
    skipped (deadline ctx task) s = u.is_done ctx s || skipped task s
    skipped task s = false

    -- The function of the user is called unless a context is done.
    abbrev pub user_effect : Task → S → S × Option (Option P)
    user_effect task s =
        if skipped task s
        then (s, none)
        else let (s', panic) = u.body (innermost task) s in (s', some panic)

    -- How a run goes from a state on, and the state that it leaves.
    abbrev pub life : Task → S → Life P × S
    life task s =
        let (s1, a) = call_effect u.hooks (started (hook_ctx task)) s in
        let (s2, ended) = user_effect task s1 in
        let r = recovered ended in
        let (s3, b) = handler_effect u.panic_handler task r s2 in
        let (s4, c) = call_effect u.hooks (completed (hook_ctx task) r) s3 in
        (record { started_panic = a; ended = ended; handler_panic = b; completed_panic = c }, s4)

    -- A run of `process` from a world with the state `s` on, that adds `marks` behind those of the
    -- function of the user.
    abbrev Processes : Task → List (Mark P) → S → World P S → World P S × Option P → Type ℓ
    Processes task marks s w (w', panic) =
        let (s', ended) = user_effect task s in
        (w'.journal ≡ w.journal ++ (ran_marks task ended ++ marks))
        × (w'.rest ≡ s')
        × (panic ≡ recovered ended)

    process-Plain :
        (task : Task) (w : World P S) → Plain task → Processes task [] w.rest w (process u task w)
    unfolding process run_body
    process-Plain (func (some f)) w h = (refl, refl, refl)
    process-Plain (retry (some r)) w h = (refl, refl, refl)
    process-Plain (context_task ctx task) w h = elim (Bool-cases (u.is_done ctx w.rest)) [
      | inl over ↦ rw over (sym (append-nil _), refl, refl)
      | inr open_ ↦ rw open_ (process-Plain task w h)
    ]
    process-Plain nil_interface w h = elim h [ ]
    process-Plain (func none) w h = elim h [ ]
    process-Plain (retry none) w h = elim h [ ]
    process-Plain nil_context_task w h = elim h [ ]
    process-Plain (deadline ctx task) w h = elim h [ ]

    process-Ready :
        (task : Task) (w : World P S)
        → Ready task
        → Processes task (cancel_marks task) w.rest w (process u task w)
    unfolding process note
    process-Ready (func (some f)) w h = process-Plain (func (some f)) w h
    process-Ready (retry (some r)) w h = process-Plain (retry (some r)) w h
    process-Ready (context_task ctx task) w h = process-Plain (context_task ctx task) w h
    process-Ready (deadline ctx task) w h = elim (Bool-cases (u.is_done ctx w.rest)) [
      | inl over ↦ rw over (refl, refl, refl)
      | inr open_ ↦
          let (ran_, kept, ends) = process-Plain task w h in
          let ended = (user_effect task w.rest).1 in
          rw open_ (
            ap (◌++ cancelled ctx ∷ []) (ran_ ∙ ap (w.journal ++◌) (append-nil _))
                ∙ append_assoc w.journal (ran_marks task ended) (cancelled ctx ∷ []),
            kept,
            ends,
          )
    ]
    process-Ready nil_interface w h = elim h [ ]
    process-Ready (func none) w h = elim h [ ]
    process-Ready (retry none) w h = elim h [ ]
    process-Ready nil_context_task w h = elim h [ ]

    -- Whatever the task, the hooks and the handler do, panics included, `runTask` returns after these
    -- calls and no others: the started hooks, the function of the user, exactly if no context in the
    -- task is done then, and the cancel of a deadline, then for a panic the handler, or the logger
    -- without one, then the completed hooks, which get what the function panicked with, and at last
    -- `done`, once. Each call gets the state that the one before it leaves.
    pub run_task-journal :
        (task : Task) (w : World P S)
        → Ready task
        → let (l, s) = life task w.rest in
          ((run_task u task w).journal ≡ w.journal ++ life_marks task l)
          × ((run_task u task w).rest ≡ s)
    unfolding run_task note dispatch_hook
    run_task-journal task w h =
        let d = started (hook_ctx task) in
        let w1 = call_hooks u.hooks d (note consumed w) in
        let (start, at1) = call_hooks-Hooked u.hooks d (note consumed w) in
        let (s2, ended) = user_effect task (call_effect u.hooks d w.rest).0 in
        let (ran_, at2, ends) =
          subst (λ s. Processes task (cancel_marks task) s w1 (process u task w1)) at1
            (process-Ready task w1 h) in
        let (w2, r) = process u task w1 in
        let w3 = report u task r w2 in
        let (told, at3) =
          subst (λ x. Reported u.panic_handler task x s2 w2 w3) ends
            (subst (λ s. Reported u.panic_handler task r s w2 w3) at2
              (report-Reported task r w2)) in
        let (s3, b) = handler_effect u.panic_handler task (recovered ended) s2 in
        let w4 = call_hooks u.hooks (completed (hook_ctx task) r) w3 in
        let (finish, at4) =
          subst (λ x. Hooked u.hooks (completed (hook_ctx task) x) s3 w3 w4) ends
            (subst (λ s. Hooked u.hooks (completed (hook_ctx task) r) s w3 w4) at3
              (call_hooks-Hooked u.hooks (completed (hook_ctx task) r) w3)) in
        let c = (call_effect u.hooks (completed (hook_ctx task) (recovered ended)) s3).1 in
        let front = ran_marks task ended ++ cancel_marks task in
        (
          ap (◌++ done ∷ []) (
                finish
                ∙ ap (◌++ hook_marks u.hooks (completed (hook_ctx task) (recovered ended)) c) (
                    told
                    ∙ ap (◌++ report_marks u.panic_handler task (recovered ended) b)
                        (ran_ ∙ ap (◌++ front) start)))
              ∙ simp (append_assoc),
          at4,
        )
