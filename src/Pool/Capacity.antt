-- ===== src/Pool/Capacity.antt =====
-- How far the worker count can go over the capacity.
use agile_pool.Prelude.{
  ℕ, zero, suc, ◌+◌, ◌≤◌, ◌<◌, max, ◌≡◌, refl, ◌≢◌, ◌⊎◌, inl, inr, Bool, arith, sym, subst, ◌==◌,
  if◌then◌else◌, Bool-cases,
}
use agile_pool.Prelude.Update.{update}
use agile_pool.Prelude.Threads.{
  total, total-update, total-spawn, weight-two, total-none, total-zero,
}
use agile_pool.Pool.State.{Task, Settings, Worker, Shared, Pc, System}
use agile_pool.Pool.State.{
  idle, scan, decide, recheck, reserve, spawn_loop, scaler_closed, scaler_pending, scaler_stopped,
}
use agile_pool.Pool.Moves.{
  Move, Spawn, Step, act, go, init, Reach, start, next, submit, see_open, count_submit, see_none,
  cas_win, want, room_left, add_running, cold, reuse, fresh,
}
use agile_pool.Pool.Workers.{works}

-- The goroutine is the scaler.
abbrev pub scaling : Pc → ℕ
scaling decide = 1
scaling (recheck n) = 1
scaling (reserve k r) = 1
scaling (spawn_loop k) = 1
scaling scaler_closed = 1
scaling scaler_pending = 1
scaling scaler_stopped = 1
scaling _ = 0

-- What the scaler has reserved fits in the room that it saw; since then at most the first worker
-- has come.
abbrev pub Fits : Settings → Shared → Pc → Type 0
Fits c m (reserve k r) = (k + r ≤ c.capacity) × (m.running ≤ max r 1)
Fits c m _ = Unit

pub record Bounded (c : Settings) (n : ℕ) (s : System) : Type 0 where
  pub scalers : total scaling n s.pc ≤ 1
  pub fits : (i : ℕ) → i < n → Fits c s.shared (s.pc i)
  pub bound : s.shared.running ≤ suc c.capacity

module _ (c : Settings) {m : Shared} where
  Move-scaling : {p p' : Pc} {m' : Shared} → Move c m p m' p' → scaling p ≡ scaling p'
  Move-scaling (submit t) = refl
  Move-scaling mv = refl

  Move-own :
      {p p' : Pc} {m' : Shared}
      → Move c m p m' p'
      → Fits c m p
      → m.running ≤ suc c.capacity
      → Fits c m' p' × (m'.running ≤ suc c.capacity)
  Move-own (submit t) f b = (tt, b)
  Move-own (room_left g) f b = omega arith
  Move-own (add_running {k} {r}) f b = omega arith
  Move-own mv f b = omega arith

  -- Only the scaler adds workers that it has reserved; others start the first one.
  Move-others :
      {p p' : Pc} {m' : Shared}
      → Move c m p m' p'
      → scaling p ≡ 0
      → (m'.running ≤ m.running) ⊎ (m'.running ≡ 1)
  Move-others (submit t) h = omega arith
  Move-others mv h = omega arith

  Spawn-scaling :
      {p p' : Pc} {m' : Shared} {w : Worker}
      → Spawn c m p m' p' w
      → (scaling p ≡ scaling p') × (m'.running ≡ m.running) × Fits c m' p'
  Spawn-scaling cold = (refl, refl, tt)
  Spawn-scaling (reuse i e) = (refl, refl, tt)
  Spawn-scaling (fresh e) = (refl, refl, tt)

-- A reservation of another goroutine stands while the count only falls or becomes 1.
Fits-stable :
    (c : Settings) (m m' : Shared) (q : Pc)
    → (scaling q ≡ 1 → (m'.running ≤ m.running) ⊎ (m'.running ≡ 1))
    → Fits c m q
    → Fits c m' q
Fits-stable c m m' (reserve k r) h f = ground (arith, h refl)
Fits-stable c m m' idle h f = tt
Fits-stable c m m' q h f = tt

Fits-update :
    (c : Settings) (m : Shared) (pc : ℕ → Pc) (i : ℕ) (p : Pc) (n : ℕ)
    → Fits c m p
    → ((j : ℕ) → i ≢ j → j < n → Fits c m (pc j))
    → (j : ℕ) → j < n
    → Fits c m (update pc i p j)
Fits-update c m pc i p n f h j lt = elim (Bool-cases (i == j)) [
  | inl same ↦ subst (λ b. Fits c m (if b then p else pc j)) (sym same) f
  | inr other ↦ subst (λ b. Fits c m (if b then p else pc j)) (sym other) (h j (ground arith) lt)
]

Step-Bounded : {c : Settings} {n : ℕ} {s t : System} → Step c n s t → Bounded c n s → Bounded c n t
Step-Bounded {c} {n} {s} (act i {m} {p} lt mv) b = record {
  scalers = omega (arith, b.scalers, total-update scaling n i s.pc p lt, Move-scaling c mv);
  fits = Fits-update c m s.pc i p n own.0 others;
  bound = own.1;
}
  where
    own : Fits c m p × (m.running ≤ suc c.capacity)
    own = Move-own c mv (b.fits i lt) b.bound

    others : (j : ℕ) → i ≢ j → j < n → Fits c m (s.pc j)
    others j ne lt' =
        let two = weight-two scaling n i j s.pc idle refl lt lt' ne in
        Fits-stable c s.shared m (s.pc j) (λ h. Move-others c mv (omega (arith, two, b.scalers, h)))
          (b.fits j lt')
Step-Bounded {c} {n} {s} (go i j {m} {p} {w} lt lt' ne e sp) b = record {
  scalers = omega (
    arith,
    b.scalers,
    total-spawn scaling n i j s.pc p (scan w 0) lt lt' ne e,
    Spawn-scaling c sp,
  );
  fits = Fits-update c m _ j (scan w 0) n tt λ k _ lk.
      Fits-update c m s.pc i p n (Spawn-scaling c sp).2
        (λ l _ ll. Fits-stable c s.shared m (s.pc l) (λ _. inl same) (b.fits l ll)) k lk;
  bound = omega (arith, b.bound, same);
}
  where
    same : m.running ≤ s.shared.running
    same = omega (arith, Spawn-scaling c sp)

total-init : (n : ℕ) → total scaling n (update (λ _. idle) 0 decide) ≤ 1
total-init zero = omega (arith, total-none scaling (update (λ _. idle) 0 decide))
total-init (suc n) = omega (
  arith,
  total-update scaling (suc n) 0 (λ _. idle) decide (omega arith),
  total-zero scaling (suc n) (λ _. idle) (λ _. refl),
)

pub Reach-Bounded : {c : Settings} {n : ℕ} {s : System} → Reach c n s → Bounded c n s
Reach-Bounded {c} {n} start = record {
  scalers = total-init n;
  fits = λ i lt. Fits-update c (init c).shared (λ _. idle) 0 decide n tt (λ _ _ _. tt) i lt;
  bound = omega arith;
}
Reach-Bounded (next r st) = Step-Bounded st (Reach-Bounded r)

-- The worker count exceeds the capacity by one at most, in every reachable state.
pub running-le :
    {c : Settings} {n : ℕ} {s : System} → Reach c n s → s.shared.running ≤ c.capacity + 1
running-le r = omega (arith, (Reach-Bounded r).bound)

abbrev pub one_worker : (shard_count shard_cap : ℕ) → Bool → Settings
one_worker k l b = record { shard_count = k; shard_cap = l; capacity = 1; nonblock = b }

-- The excess happens: the first submission starts its worker between the scaler's second look at
-- the count and its update, and a pool of capacity 1 has two workers.
pub capacity_exceeded :
    (shard_count shard_cap : ℕ) (nonblock : Bool)
    → (s : System) × Reach (one_worker shard_count shard_cap nonblock) 4 s
      × (s.shared.running ≡ 2)
      × (works (s.pc 2) ≡ 1)
      × (works (s.pc 3) ≡ 1)
capacity_exceeded k l b = (_, (second 7).1, refl, refl, refl)
  where
    c : Settings
    c = one_worker k l b

    reserved : (t : Task) → (s : System) × Reach c 4 s
    reserved t = (
      _,
      next
          (next (next start (act 1 (omega arith) (submit t)))
            (act 0 (omega arith) (want 1 (omega arith) (omega arith))))
          (act 0 (omega arith) (room_left (omega arith))),
    )

    first : (t : Task) → (s : System) × Reach c 4 s
    first t = (
      _,
      next
          (next
            (next (next (reserved t).1 (act 1 (omega arith) (see_open refl)))
              (act 1 (omega arith) count_submit))
            (act 1 (omega arith) (see_none refl)))
          (act 1 (omega arith) (cas_win refl)),
    )

    second : (t : Task) → (s : System) × Reach c 4 s
    second t = (
      _,
      next
          (next (next (first t).1 (act 0 (omega arith) add_running))
            (go 1 2 (omega arith) (omega arith) (omega arith) refl cold))
          (go 0 3 (omega arith) (omega arith) (omega arith) refl (fresh refl)),
    )
