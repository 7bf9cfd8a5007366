-- ===== src/Task/Pieces.antt =====
-- The pieces that `submit` and `runTask` write into the journal.
use agile_pool.Prelude.{◌+◌, ◌≡◌, refl, ap, Option, none, some, List, [], ◌∷◌, ◌++◌, arith}
use agile_pool.Hook.{Call, submitted, enqueued, started, completed}
use agile_pool.Task.{
  Ctx, Task, nil_interface, func, retry, nil_context_task, context_task, deadline, Mark,
  submit_counted, consumed, done, hook_ctx,
}
use agile_pool.Task.Run.{Life, ran_marks, cancel_marks, report_marks, hook_marks}
use agile_pool.Task.Count.{
  Kind, is_kind, call_kind, mark_kind, count, count-append, hooked, hooked-zero, Tally,
}

module _ {P : Type 0} where
  count-hook_marks {κ} :
      {H : Type κ} (k : Kind) (hooks : Option H) (d : Call Ctx P (Unit {0})) (panic : Option P)
      → count k (hook_marks hooks d panic) ≡ hooked hooks (is_kind (call_kind d) k)
  count-hook_marks k none d panic = refl
  count-hook_marks k (some h) d none = omega arith
  count-hook_marks k (some h) d (some p) = omega arith

  count-ran_marks :
      (k : Kind) (task : Task) (e : Option (Option P)) → count k (ran_marks task e) ≡ 0
  count-ran_marks k task none = refl
  count-ran_marks k task (some panic) = refl

  count-cancel_marks :
      (k : Kind) (task : Task) (xs : List (Mark P)) → count k (cancel_marks task ++ xs) ≡ count k xs
  count-cancel_marks k (deadline ctx task) xs = omega arith
  count-cancel_marks k nil_interface xs = refl
  count-cancel_marks k (func f) xs = refl
  count-cancel_marks k (retry r) xs = refl
  count-cancel_marks k nil_context_task xs = refl
  count-cancel_marks k (context_task ctx task) xs = refl

  count-report_marks {κ} :
      {H : Type κ} (k : Kind) (handler : Option H) (task : Task) (r panic : Option P)
      → count k (report_marks handler task r panic) ≡ 0
  count-report_marks k handler task none panic = refl
  count-report_marks k none task (some p) panic = refl
  count-report_marks k (some h) task (some p) none = refl
  count-report_marks k (some h) task (some p) (some q) = refl

  -- What `submit` notes before the task is handed over, and with that.
  pub front-Tally {κ} :
      {H : Type κ} (hooks : Option H) (ctx : Ctx) (before : List (Mark P)) (panic : Option P)
      → ((k : Kind) → count k before ≡ 0)
      → Tally hooks (submit_counted ∷ (before ++ hook_marks hooks (submitted ctx) panic)) 0 1 0 0 0
  front-Tally hooks ctx before panic none_counted = record {
    pendings = omega (arith, call Kind.pendings, hooked-zero hooks);
    counts = omega (arith, call Kind.counts, hooked-zero hooks);
    handovers = omega (arith, call Kind.handovers, hooked-zero hooks);
    runs = omega (arith, call Kind.runs, hooked-zero hooks);
    dones = omega (arith, call Kind.dones, hooked-zero hooks);
    submits = omega (arith, call Kind.submitted_calls, hooked-zero hooks);
    enqueues = omega (arith, call Kind.enqueued_calls, hooked-zero hooks);
    starts = omega (arith, call Kind.started_calls, hooked-zero hooks);
    completes = omega (arith, call Kind.completed_calls, hooked-zero hooks);
  }
    where
      call :
          (k : Kind)
          → count k (before ++ hook_marks hooks (submitted ctx) panic)
            ≡ hooked hooks (is_kind (some Kind.submitted_calls) k)
      call k = omega (
        arith,
        count-append k before (hook_marks hooks (submitted ctx) panic),
        none_counted k,
        count-hook_marks k hooks (submitted ctx) panic,
      )

  pub handed-Tally {κ} :
      {H : Type κ} (hooks : Option H) (mark : Mark P) (ctx : Ctx) (panic : Option P)
      → mark_kind mark ≡ some Kind.handovers
      → Tally hooks (mark ∷ hook_marks hooks (enqueued ctx) panic) 0 0 1 0 0
  handed-Tally hooks mark ctx panic e = record {
    pendings = omega (arith, call Kind.pendings, hooked-zero hooks);
    counts = omega (arith, call Kind.counts, hooked-zero hooks);
    handovers = omega (arith, call Kind.handovers, hooked-zero hooks);
    runs = omega (arith, call Kind.runs, hooked-zero hooks);
    dones = omega (arith, call Kind.dones, hooked-zero hooks);
    submits = omega (arith, call Kind.submitted_calls, hooked-zero hooks);
    enqueues = omega (arith, call Kind.enqueued_calls, hooked-zero hooks);
    starts = omega (arith, call Kind.started_calls, hooked-zero hooks);
    completes = omega (arith, call Kind.completed_calls, hooked-zero hooks);
  }
    where
      call :
          (k : Kind)
          → count k (mark ∷ hook_marks hooks (enqueued ctx) panic)
            ≡ is_kind (some Kind.handovers) k + hooked hooks (is_kind (some Kind.enqueued_calls) k)
      call k = omega (
        arith,
        ap (λ (m : Option Kind). is_kind m k) e,
        count-hook_marks k hooks (enqueued ctx) panic,
      )

  abbrev pub run_marks {κ μ} :
      {H : Type κ} {G : Type μ} → Option H → Option G → Task → Life P → Option P → List (Mark P)
  run_marks hooks handler task l r =
      consumed
      ∷ (hook_marks hooks (started (hook_ctx task)) l.started_panic
          ++ (ran_marks task l.ended
              ++ (cancel_marks task
                  ++ (report_marks handler task r l.handler_panic
                      ++ (hook_marks hooks (completed (hook_ctx task) r) l.completed_panic
                          ++ done ∷ [])))))

  pub run-Tally {κ μ} :
      {H : Type κ} {G : Type μ} (hooks : Option H) (handler : Option G) (task : Task) (l : Life P)
      (r : Option P)
      → Tally hooks (run_marks hooks handler task l r) 0 0 0 1 1
  run-Tally hooks handler task l r = record {
    pendings = omega (arith, all Kind.pendings, hooked-zero hooks);
    counts = omega (arith, all Kind.counts, hooked-zero hooks);
    handovers = omega (arith, all Kind.handovers, hooked-zero hooks);
    runs = omega (arith, all Kind.runs, hooked-zero hooks);
    dones = omega (arith, all Kind.dones, hooked-zero hooks);
    submits = omega (arith, all Kind.submitted_calls, hooked-zero hooks);
    enqueues = omega (arith, all Kind.enqueued_calls, hooked-zero hooks);
    starts = omega (arith, all Kind.started_calls, hooked-zero hooks);
    completes = omega (arith, all Kind.completed_calls, hooked-zero hooks);
  }
    where
      all :
          (k : Kind)
          → count k (run_marks hooks handler task l r)
            ≡ is_kind (some Kind.runs) k
              + hooked hooks (is_kind (some Kind.started_calls) k)
              + hooked hooks (is_kind (some Kind.completed_calls) k)
              + is_kind (some Kind.dones) k
      all k =
          let a = hook_marks hooks (started (hook_ctx task)) l.started_panic in
          let b = ran_marks task l.ended in
          let e = report_marks handler task r l.handler_panic in
          let f = hook_marks hooks (completed (hook_ctx task) r) l.completed_panic in
          let g : List (Mark P) = done ∷ [] in
          omega (
            arith,
            count-append k a (b ++ (cancel_marks task ++ (e ++ (f ++ g)))),
            count-append k b (cancel_marks task ++ (e ++ (f ++ g))),
            count-cancel_marks k task (e ++ (f ++ g)),
            count-append k e (f ++ g),
            count-append k f g,
            count-hook_marks k hooks (started (hook_ctx task)) l.started_panic,
            count-ran_marks k task l.ended,
            count-report_marks k handler task r l.handler_panic,
            count-hook_marks k hooks (completed (hook_ctx task) r) l.completed_panic,
          )
