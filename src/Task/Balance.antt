-- ===== src/Task/Balance.antt =====
-- The calls that submit tasks and the runs of tasks keep the books: what is pending, and which hooks
-- were called.
use agile_pool.Prelude.{
  ℕ, ◌+◌, ◌≡◌, refl, sym, ap, ◌∙◌, Bool, true, false, not, some, List, [], ◌∷◌, ◌++◌, append-nil,
  append_assoc, arith,
}
use agile_pool.Hook.{submitted, enqueued}
use agile_pool.TaskBuffer.{PushResult}
use agile_pool.Task.{
  Ctx, Task, Mark, pending_added, submit_counted, worker_started, queued, buffered, done, World,
  hook_ctx, note, User, dispatch_hook,
}
use agile_pool.Task.Run.{hook_marks, call_hooks-journal}
use agile_pool.Task.Admission.{
  Wait, Turn, accept, refuse, finish_wait, after_push, hand_over, cold_start, admit, submit,
}
use agile_pool.Task.Count.{
  Kind, mark_kind, count, hooked, hooked-zero, Balanced, Tally, Tally-append, Tally-Balanced,
}
use agile_pool.Task.Pieces.{front-Tally, handed-Tally}

abbrev pub bit : Bool → ℕ
bit true = 1
bit false = 0

module _ {ℓ} {P : Type 0} {S : Type ℓ} (u : User P S) where
  -- A piece with these counts was written behind the journal.
  abbrev pub Adds : (a c h r d : ℕ) → World P S → World P S → Type 0
  Adds a c h r d w w' =
      (ms : List (Mark P)) × (w'.journal ≡ w.journal ++ ms) × Tally u.hooks ms a c h r d

  Adds-then :
      {a c h r d a' c' h' r' d' : ℕ} (w1 w2 w3 : World P S)
      → Adds a c h r d w1 w2
      → Adds a' c' h' r' d' w2 w3
      → Adds (a + a') (c + c') (h + h') (r + r') (d + d') w1 w3
  Adds-then w1 w2 w3 (xs, e, s) (ys, f, t) =
      (xs ++ ys, f ∙ ap (◌++ ys) e ∙ append_assoc w1.journal xs ys, Tally-append u.hooks xs ys s t)

  Adds-eq :
      {a c h r d a' c' h' r' d' : ℕ} (w w' : World P S)
      → Adds a c h r d w w'
      → (a ≡ a') × (c ≡ c') × (h ≡ h') × (r ≡ r') × (d ≡ d')
      → Adds a' c' h' r' d' w w'
  Adds-eq w w' (ms, f, t) (ea, ec, eh, er, ed) = (
    ms,
    f,
    record {
      pendings = t.pendings ∙ ea;
      counts = t.counts ∙ ec;
      handovers = t.handovers ∙ eh;
      runs = t.runs ∙ er;
      dones = t.dones ∙ ed;
      submits = t.submits ∙ ap (hooked u.hooks) ec;
      enqueues = t.enqueues ∙ ap (hooked u.hooks) eh;
      starts = t.starts ∙ ap (hooked u.hooks) er;
      completes = t.completes ∙ ap (hooked u.hooks) er;
    },
  )

  pending-Adds : (w : World P S) → Adds 1 0 0 0 0 w (note pending_added w)
  unfolding note
  pending-Adds w = (
    pending_added ∷ [],
    refl,
    record {
      pendings = refl;
      counts = refl;
      handovers = refl;
      runs = refl;
      dones = refl;
      submits = sym (hooked-zero u.hooks);
      enqueues = sym (hooked-zero u.hooks);
      starts = sym (hooked-zero u.hooks);
      completes = sym (hooked-zero u.hooks);
    },
  )

  done-Adds : (w : World P S) → Adds 0 0 0 0 1 w (note done w)
  unfolding note
  done-Adds w = (
    done ∷ [],
    refl,
    record {
      pendings = refl;
      counts = refl;
      handovers = refl;
      runs = refl;
      dones = refl;
      submits = sym (hooked-zero u.hooks);
      enqueues = sym (hooked-zero u.hooks);
      starts = sym (hooked-zero u.hooks);
      completes = sym (hooked-zero u.hooks);
    },
  )

  -- The end of a submission: handed over and accepted, or refused with one `done`.
  abbrev Ends : World P S → World P S × Bool → Type 0
  Ends w (w', accepted) = Adds 0 0 (bit accepted) 0 (bit (not accepted)) w w'

  accept-Ends :
      (mark : Mark P) (task : Task) (w : World P S)
      → mark_kind mark ≡ some Kind.handovers
      → Ends w (accept u mark task w)
  unfolding accept note dispatch_hook
  accept-Ends mark task w e =
      let (panic, told) = call_hooks-journal u.hooks (enqueued (hook_ctx task)) (note mark w) in
      (
        mark ∷ hook_marks u.hooks (enqueued (hook_ctx task)) panic,
        told
            ∙ append_assoc w.journal (mark ∷ [])
                (hook_marks u.hooks (enqueued (hook_ctx task)) panic),
        handed-Tally u.hooks mark (hook_ctx task) panic e,
      )

  refuse-Ends : (w : World P S) → Ends w (refuse u w)
  unfolding refuse
  refuse-Ends w = done-Adds w

  finish_wait-Ends :
      (wait : Wait) (task : Task) (w : World P S) → Ends w (finish_wait u wait task w)
  unfolding finish_wait
  finish_wait-Ends Wait.sent task w = accept-Ends queued task w refl
  finish_wait-Ends Wait.ctx_done task w = refuse-Ends w
  finish_wait-Ends Wait.pool_closed task w = refuse-Ends w

  after_push-Ends :
      (pushed : PushResult) (wait : Wait) (task : Task) (w : World P S)
      → Ends w (after_push u pushed wait task w)
  unfolding after_push
  after_push-Ends PushResult.accepted wait task w = accept-Ends buffered task w refl
  after_push-Ends PushResult.closed wait task w = refuse-Ends w
  after_push-Ends PushResult.full wait task w = finish_wait-Ends wait task w

  hand_over-Ends :
      (room nonblock : Bool) (t : Turn) (task : Task) (w : World P S)
      → Ends w (hand_over u room nonblock t task w)
  unfolding hand_over
  hand_over-Ends true nonblock t task w = accept-Ends queued task w refl
  hand_over-Ends false true t task w = refuse-Ends w
  hand_over-Ends false false t task w = after_push-Ends t.pushed t.waited task w

  cold_start-journal :
      (none_running swapped : Bool) (w : World P S)
      → (ms : List (Mark P)) × ((cold_start u none_running swapped w).journal ≡ w.journal ++ ms)
        × ((k : Kind) → count k ms ≡ 0)
  unfolding cold_start note
  cold_start-journal true true w = (worker_started ∷ [], refl, λ k. refl)
  cold_start-journal true false w = ([], sym (append-nil _), λ k. refl)
  cold_start-journal false swapped w = ([], sym (append-nil _), λ k. refl)

  -- A closed pool counts no submission.
  admit-Adds :
      (shut nonblock : Bool) (t : Turn) (task : Task) (w : World P S)
      → let r = admit u shut nonblock t task w in
        (c : ℕ) × Adds 0 c (bit r.1) 0 (bit (not r.1)) w r.0
  unfolding admit note dispatch_hook
  admit-Adds true nonblock t task w = (0, refuse-Ends w)
  admit-Adds false nonblock t task w =
      let w1 = note submit_counted w in
      let w2 = cold_start u t.none_running t.swapped w1 in
      let w3 = dispatch_hook u (submitted (hook_ctx task)) w2 in
      let (before, cold, none_counted) = cold_start-journal t.none_running t.swapped w1 in
      let (panic, told) = call_hooks-journal u.hooks (submitted (hook_ctx task)) w2 in
      let called = hook_marks u.hooks (submitted (hook_ctx task)) panic in
      let front : Adds 0 1 0 0 0 w w3 = (
        submit_counted ∷ (before ++ called),
        told
            ∙ ap (◌++ called) cold
            ∙ append_assoc (w.journal ++ submit_counted ∷ []) before called
            ∙ append_assoc w.journal (submit_counted ∷ []) (before ++ called),
        front-Tally u.hooks (hook_ctx task) before panic none_counted,
      ) in
      let last = hand_over u t.room nonblock t task w3 in
      (
        1,
        Adds-eq w last.0 (Adds-then w w3 last.0 front (hand_over-Ends t.room nonblock t task w3))
            (omega arith),
      )

  pub submit-Adds :
      (nonblock : Bool) (t : Turn) (ctx : Ctx) (task : Task) (w : World P S)
      → let r = submit u nonblock t ctx task w in
        (c : ℕ) × Adds 1 c (bit r.1) 0 (bit (not r.1)) w r.0
  unfolding submit
  submit-Adds nonblock t ctx task w =
      let w1 = note pending_added w in
      let (c, rest) = admit-Adds t.closed nonblock t task w1 in
      let last = admit u t.closed nonblock t task w1 in
      (c, Adds-eq w last.0 (Adds-then w w1 last.0 (pending-Adds w) rest) (omega arith))

  pub bits : (b : Bool) → 1 + 0 ≡ bit b + bit (not b)
  bits true = refl
  bits false = refl

  -- What keeps the books balanced.
  abbrev pub Keeps : World P S → World P S → Type 0
  Keeps w w' = (ms : List (Mark P)) × (w'.journal ≡ w.journal ++ ms) × Balanced u.hooks ms

  pub Adds-Keeps :
      {a c h r d : ℕ} (w w' : World P S) → a + r ≡ h + d → Adds a c h r d w w' → Keeps w w'
  Adds-Keeps w w' e (ms, f, t) = (ms, f, Tally-Balanced u.hooks ms t e)

  pub stay-Keeps : (w : World P S) → Keeps w w
  stay-Keeps w =
      let none_ = sym (hooked-zero u.hooks) in
      ([], sym (append-nil _), (refl, none_, none_, none_, none_))

  pub submit-Keeps :
      (nonblock : Bool) (t : Turn) (ctx : Ctx) (task : Task) (w : World P S)
      → Keeps w (submit u nonblock t ctx task w).0
  submit-Keeps nonblock t ctx task w =
      let (c, adds) = submit-Adds nonblock t ctx task w in
      let r = submit u nonblock t ctx task w in Adds-Keeps w r.0 (bits r.1) adds
