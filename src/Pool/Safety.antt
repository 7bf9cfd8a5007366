-- ===== src/Pool/Safety.antt =====
-- What the interleavings of submitters, workers, scaler and `Close` preserve.
use agile_pool.Prelude.{
  ℕ, ◌+◌, ◌≤◌, ◌<◌, ◌≡◌, refl, ◌≢◌, true, List, [], ◌∷◌, arith, ◌==◌, if◌then◌else◌, ltb,
}
use agile_pool.Prelude.Threads.{total, total-zero_of, weight-le-total, weight-two}
use agile_pool.Pool.State.{Task, Settings, System, Pc, idle}
use agile_pool.Pool.State
use agile_pool.Pool.Channels.{mass, mass_all}
use agile_pool.Pool.Moves.{Reach}
use agile_pool.Pool.Account.{held, queued, reports, one, Reach-Account}
use agile_pool.Pool.Workers.{works, owner, parked, Reach-Staff}
use agile_pool.Pool.Shutdown.{commits, Sure-stopped, Reach-Ended}

-- Counts the copies of task `t`.
abbrev pub is : Task → Task → ℕ
is t u = if u == t then 1 else 0

-- In a pool with a shard no task is lost and none is run twice: each submission of `t` is in the
-- hands of one goroutine, or in a queue once, or it has finished once, or it was refused once.
pub tasks_conserved :
    {c : Settings} {n : ℕ} {s : System}
    → 0 < c.shard_count
    → Reach c n s
    → (t : Task)
    → mass (is t) s.shared.submitted
      ≡ total (held (is t)) n s.pc
        + queued (is t) s.shared
        + mass (is t) s.shared.finished
        + mass (is t) s.shared.refused
tasks_conserved h r t = omega (arith, (Reach-Account h r).conserved (is t))

mass-zero_of : (weight : Task → ℕ) (ts : List Task) → mass one ts ≡ 0 → mass weight ts ≡ 0
unfolding mass
mass-zero_of weight [] e = refl
mass-zero_of weight (t ∷ ts) e = absurd (omega (arith, e))

mass_all-zero_of :
    (weight : Task → ℕ) (qs : List (List Task)) → mass_all one qs ≡ 0 → mass_all weight qs ≡ 0
unfolding mass_all
mass_all-zero_of weight [] e = refl
mass_all-zero_of weight (q ∷ qs) e =
    omega (
      arith,
      mass-zero_of weight q (omega (arith, e)),
      mass_all-zero_of weight qs (omega (arith, e)),
    )

held-zero_of : (weight : Task → ℕ) (p : Pc) → held one p ≡ 0 → held weight p ≡ 0
held-zero_of weight (State.load_closed t) e = absurd (omega (arith, e))
held-zero_of weight (State.report_done w rest) e = mass-zero_of weight rest e
held-zero_of weight idle e = refl
held-zero_of weight p e = ground arith

-- Once `pendingTasks` of a pool with a shard is 0 every submission has finished or was refused.
pub settled_when_drained :
    {c : Settings} {n : ℕ} {s : System}
    → 0 < c.shard_count
    → Reach c n s
    → s.shared.pending ≡ 0
    → (t : Task)
    → mass (is t) s.shared.submitted ≡ mass (is t) s.shared.finished + mass (is t) s.shared.refused
settled_when_drained {n = n} {s = s} h r quiet t =
    let a = Reach-Account h r in
    omega (
      arith,
      a.conserved (is t),
      total-zero_of (held one) (held (is t)) n s.pc (held-zero_of (is t))
          (omega (arith, a.counted)),
      mass_all-zero_of (is t) s.shared.channels.queues (omega (arith, a.counted)),
      mass-zero_of (is t) s.shared.buffer.tasks (omega (arith, a.counted)),
    )

-- In a pool with a shard `pendingTasks` is the number of tasks in the hands of goroutines, in the
-- queues, or settled with their `done` still to come.
pub pending-total :
    {c : Settings} {n : ℕ} {s : System}
    → 0 < c.shard_count
    → Reach c n s
    → s.shared.pending ≡ total reports n s.pc + total (held one) n s.pc + queued one s.shared
pending-total h r = (Reach-Account h r).counted

-- `runningWorkersNum` is the number of goroutines in `worker.run` ahead of its exit, and of those
-- that a goroutine has counted and is about to start.
pub running-total :
    {c : Settings} {n : ℕ} {s : System} → Reach c n s → s.shared.running ≡ total works n s.pc
running-total r = (Reach-Staff r).counted

-- A worker is run by one goroutine at most, and is not in the idle container meanwhile.
pub worker_exclusive :
    {c : Settings} {n : ℕ} {s : System}
    → Reach c n s
    → (x i j : ℕ) → i < n
    → j < n
    → i ≢ j
    → owner x (s.pc i) ≡ 1
    → (parked x s.shared.idle_works ≡ 0) × (owner x (s.pc j) ≡ 0)
worker_exclusive {n = n} {s = s} r x i j lt lt' ne e = (
  ground (arith, (Reach-Staff r).single x, weight-le-total (owner x) n i s.pc lt),
  ground (arith, (Reach-Staff r).single x, weight-two (owner x) n i j s.pc idle refl lt lt' ne),
)

-- No worker is in the idle container twice, and what is there was made before.
pub idle_distinct :
    {c : Settings} {n : ℕ} {s : System}
    → Reach c n s
    → (x : ℕ) → parked x s.shared.idle_works ≤ (if ltb x s.shared.create_count then 1 else 0)
idle_distinct r x = omega (arith, (Reach-Staff r).single x)

-- When the scaler of a pool with a shard has stopped the pool is closed, the queues are empty, and
-- no goroutine has a task that it could still queue or run: no accepted task is left without
-- workers.
pub scaler_stops_last :
    {c : Settings} {n : ℕ} {s : System}
    → 0 < c.shard_count
    → Reach c n s
    → (i j : ℕ) → j < n
    → s.pc i ≡ State.scaler_stopped
    → (s.shared.closed ≡ true) × (queued one s.shared ≡ 0) × (commits (s.pc j) ≡ 0)
scaler_stops_last {n = n} {s = s} h r i j lt e =
    let d = Reach-Ended h r in
    (
      Sure-stopped s.shared (s.pc i) e (d.sure i),
      omega (arith, d.empty i e),
      omega (arith, d.empty i e, weight-le-total commits n j s.pc lt),
    )
