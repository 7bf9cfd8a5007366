-- ===== src/Pool/Account.antt =====
-- Where each submitted task is.
use agile_pool.Prelude.{
  ℕ, ◌+◌, ◌≤◌, ◌<◌, ◌≡◌, refl, ap, ◌∙◌, inl, inr, [], arith, sym, subst, if◌then◌else◌, ◌==◌,
  Bool-cases, length, length-replicate,
}
use agile_pool.Prelude.Update.{update}
use agile_pool.Prelude.Threads.{total, total-update, total-spawn, weight-le-total, total-zero}
use agile_pool.Pool.State.{Task, Settings, Worker, Shared, Pc, System}
use agile_pool.Pool.State.{
  idle, load_closed, add_submit, load_running, cas_running, cold_start, pick_shard, select_shard,
  push_buffer, pick_again, blocked, undo, scan, run_task, process, report_done, decide,
}
use agile_pool.Pool.Channels.{
  next_shard, mass, mass_all, mass-take-drop, mass-send, mass-receive, mass_all-replicate,
  length-send, length-receive, next_shard-lt, masked-lt,
}
use agile_pool.Pool.Overflow.{enqueue-mass}
use agile_pool.Pool.Moves.{
  batch_size, shard_of, Move, Spawn, Step, act, go, init, Reach, start, next, submit, pick,
  send_now, push_accepted, repick, send_late, receive_task, take_batch, cold, reuse, fresh,
}

module _ (weight : Task → ℕ) where
  -- The tasks in a goroutine's hands.
  abbrev pub held : Pc → ℕ
  held (load_closed t) = weight t
  held (add_submit t) = weight t
  held (load_running t) = weight t
  held (cas_running t) = weight t
  held (cold_start t) = weight t
  held (pick_shard t) = weight t
  held (select_shard t q) = weight t
  held (push_buffer t) = weight t
  held (pick_again t) = weight t
  held (blocked t q) = weight t
  held (run_task w t rest) = weight t + mass weight rest
  held (process w t rest) = weight t + mass weight rest
  held (report_done w rest) = mass weight rest
  held _ = 0

  -- The tasks in the queues.
  abbrev pub queued : Shared → ℕ
  queued m = mass_all weight m.channels.queues + mass weight m.buffer.tasks

  abbrev pub settled : Shared → ℕ
  settled m = mass weight m.finished + mass weight m.refused

-- A call of `done` is due for a task that is in nobody's hands any more.
abbrev pub reports : Pc → ℕ
reports undo = 1
reports (report_done w rest) = 1
reports _ = 0

abbrev pub one : Task → ℕ
one t = 1

abbrev pub OnShard : Settings → Pc → Type 0
OnShard c (select_shard t q) = q < c.shard_count
OnShard c (blocked t q) = q < c.shard_count
OnShard c _ = Unit

pub shard_of-lt :
    (c : Settings) (w : Worker) (i : ℕ) → 0 < c.shard_count → shard_of c w i < c.shard_count
shard_of-lt c w i h = masked-lt c (w.cursor + i) h

module _ (c : Settings) {m : Shared} (some_shard : 0 < c.shard_count)
    (shape : length m.channels.queues ≡ c.shard_count) where
  Move-shape :
      {p p' : Pc} {m' : Shared} → Move c m p m' p' → length m'.channels.queues ≡ c.shard_count
  unfolding next_shard
  Move-shape (submit t) = shape
  Move-shape pick = shape
  Move-shape (send_now {t} {q} g) = omega (arith, length-send m.channels q t)
  Move-shape (push_accepted {t} g) = (enqueue-mass one c m.channels some_shard shape t m.buffer g).0
  Move-shape (send_late {t} {q} g) = omega (arith, length-send m.channels q t)
  Move-shape (receive_task {w} {i} {t} {rest} g e) =
      omega (arith, length-receive m.channels (shard_of c w i) rest)
  Move-shape mv = shape

  Move-OnShard : {p p' : Pc} {m' : Shared} → Move c m p m' p' → OnShard c p → OnShard c p'
  Move-OnShard (submit t) o = tt
  Move-OnShard pick o = next_shard-lt c m.channels some_shard
  Move-OnShard repick o = next_shard-lt c m.channels some_shard
  Move-OnShard mv o = tt

  -- Tasks that appear are submitted, and tasks that disappear are finished or refused.
  Move-balance :
      (weight : Task → ℕ) {p p' : Pc} {m' : Shared}
      → Move c m p m' p'
      → OnShard c p
      → mass weight m'.submitted + held weight p + queued weight m + settled weight m
        ≡ mass weight m.submitted + held weight p' + queued weight m' + settled weight m'
  unfolding mass next_shard
  Move-balance weight (submit t) o = omega arith
  Move-balance weight (send_now {t} {q} g) o = omega (arith, mass-send weight m.channels q t)
  Move-balance weight (push_accepted {t} g) o =
      omega (arith, enqueue-mass weight c m.channels some_shard shape t m.buffer g)
  Move-balance weight (send_late {t} {q} g) o = omega (arith, mass-send weight m.channels q t)
  Move-balance weight (receive_task {w} {i} {t} {rest} g e) o = omega (
    arith,
    mass-receive weight m.channels (shard_of c w i) t rest
        (omega (arith, shard_of-lt c w i some_shard)) e,
  )
  Move-balance weight (take_batch {w} {t} {rest} e) o =
      omega (arith, mass-take-drop weight batch_size m.buffer.tasks, ap (mass weight) e)
  Move-balance weight mv o = omega arith

  -- `pendingTasks` changes as the number of tasks that are held, queued or about to be reported.
  Move-pending :
      {p p' : Pc} {m' : Shared}
      → Move c m p m' p'
      → OnShard c p
      → reports p ≤ m.pending
      → m'.pending + reports p + held one p + queued one m
        ≡ m.pending + reports p' + held one p' + queued one m'
  unfolding mass next_shard
  Move-pending (submit t) o h = omega arith
  Move-pending (send_now {t} {q} g) o h = omega (arith, mass-send one m.channels q t)
  Move-pending (push_accepted {t} g) o h =
      omega (arith, enqueue-mass one c m.channels some_shard shape t m.buffer g)
  Move-pending (send_late {t} {q} g) o h = omega (arith, mass-send one m.channels q t)
  Move-pending (receive_task {w} {i} {t} {rest} g e) o h = omega (
    arith,
    mass-receive one m.channels (shard_of c w i) t rest
        (omega (arith, shard_of-lt c w i some_shard)) e,
  )
  Move-pending (take_batch {w} {t} {rest} e) o h =
      omega (arith, mass-take-drop one batch_size m.buffer.tasks, ap (mass one) e)
  Move-pending mv o h = omega arith

-- A spawn moves no task.
Spawn-balance :
    (c : Settings) (weight : Task → ℕ) {m m' : Shared} {p p' : Pc} {w : Worker}
    → Spawn c m p m' p' w
    → (held weight p ≡ held weight p')
      × (reports p ≡ reports p')
      × (m'.pending ≡ m.pending)
      × (mass weight m'.submitted ≡ mass weight m.submitted)
      × (queued weight m' ≡ queued weight m)
      × (settled weight m' ≡ settled weight m)
      × (m'.channels ≡ m.channels)
      × OnShard c p'
Spawn-balance c weight cold = (refl, refl, refl, refl, refl, refl, refl, tt)
Spawn-balance c weight (reuse i e) = (refl, refl, refl, refl, refl, refl, refl, tt)
Spawn-balance c weight (fresh e) = (refl, refl, refl, refl, refl, refl, refl, tt)

pub record Account (c : Settings) (n : ℕ) (s : System) : Type 0 where
  pub some_shard : 0 < c.shard_count
  pub shape : length s.shared.channels.queues ≡ c.shard_count
  pub on_shard : (i : ℕ) → OnShard c (s.pc i)
  pub counted :
      s.shared.pending ≡ total reports n s.pc + total (held one) n s.pc + queued one s.shared
  pub conserved :
      (weight : Task → ℕ)
      → mass weight s.shared.submitted
        ≡ total (held weight) n s.pc + queued weight s.shared + settled weight s.shared

OnShard-update :
    (c : Settings) (pc : ℕ → Pc) (i : ℕ) (p : Pc)
    → ((j : ℕ) → OnShard c (pc j))
    → OnShard c p
    → (j : ℕ) → OnShard c (update pc i p j)
OnShard-update c pc i p h k j = elim (Bool-cases (i == j)) [
  | inl same ↦ subst (λ b. OnShard c (if b then p else pc j)) (sym same) k
  | inr other ↦ subst (λ b. OnShard c (if b then p else pc j)) (sym other) (h j)
]

pub Step-Account :
    {c : Settings} {n : ℕ} {s t : System} → Step c n s t → Account c n s → Account c n t
Step-Account {c} {n} {s} (act i {m} {p} lt mv) a = record {
  some_shard = a.some_shard;
  shape = Move-shape c a.some_shard a.shape mv;
  on_shard =
      OnShard-update c s.pc i p a.on_shard (Move-OnShard c a.some_shard a.shape mv (a.on_shard i));
  counted =
      let r = weight-le-total reports n i s.pc lt in
      omega (
        arith,
        a.counted,
        total-update reports n i s.pc p lt,
        total-update (held one) n i s.pc p lt,
        Move-pending c a.some_shard a.shape mv (a.on_shard i) (omega (arith, a.counted, r)),
      );
  conserved = λ weight. omega (
    arith,
    a.conserved weight,
    total-update (held weight) n i s.pc p lt,
    Move-balance c a.some_shard a.shape weight mv (a.on_shard i),
  );
}
Step-Account {c} {n} {s} (go i j {m} {p} {w} lt lt' ne e sp) a = record {
  some_shard = a.some_shard;
  shape = ap (λ ch. length ch.queues) (Spawn-balance c one sp).6 ∙ a.shape;
  on_shard =
      OnShard-update c _ j (scan w 0)
        (OnShard-update c s.pc i p a.on_shard (Spawn-balance c one sp).7) tt;
  counted = omega (
    arith,
    a.counted,
    total-spawn reports n i j s.pc p (scan w 0) lt lt' ne e,
    total-spawn (held one) n i j s.pc p (scan w 0) lt lt' ne e,
    Spawn-balance c one sp,
  );
  conserved = λ weight. omega (
    arith,
    a.conserved weight,
    total-spawn (held weight) n i j s.pc p (scan w 0) lt lt' ne e,
    Spawn-balance c weight sp,
  );
}

pub init-Account : (c : Settings) (n : ℕ) → 0 < c.shard_count → Account c n (init c)
unfolding mass
init-Account c n h = record {
  some_shard = h;
  shape = length-replicate c.shard_count [];
  on_shard = λ i. OnShard-update c (λ _. idle) 0 decide (λ _. tt) tt i;
  counted = omega (
    arith,
    total-zero reports n (init c).pc (λ i. ground arith),
    total-zero (held one) n (init c).pc (λ i. ground arith),
    mass_all-replicate one c.shard_count,
  );
  conserved = λ weight. omega (
    arith,
    total-zero (held weight) n (init c).pc (λ i. ground arith),
    mass_all-replicate weight c.shard_count,
  );
}

pub Reach-Account :
    {c : Settings} {n : ℕ} {s : System} → 0 < c.shard_count → Reach c n s → Account c n s
Reach-Account {c} {n} h start = init-Account c n h
Reach-Account h (next r st) = Step-Account st (Reach-Account h r)
