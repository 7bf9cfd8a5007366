-- ===== src/Pool/Workers.antt =====
-- The worker count and the identity of workers.
use agile_pool.Prelude.{
  ℕ, zero, suc, ◌+◌, ◌≤◌, ◌≡◌, refl, some, List, [], ◌∷◌, ◌++◌, arith, ltb, ◌==◌, if◌then◌else◌,
  get_elem?,
}
use agile_pool.Prelude.Threads.{total, total-update, total-spawn, weight-le-total, total-zero}
use agile_pool.TaskBuffer.{erase_at}
use agile_pool.Pool.State.{Settings, Worker, Shared, Pc, System}
use agile_pool.Pool.State.{
  cold_start, scan, pop_batch, run_task, process, report_done, park, add_exit, add_idle, spawn_loop,
}
use agile_pool.Pool.Moves.{
  Move, Spawn, Step, act, go, init, Reach, start, next, submit, cas_win, go_idle, expire, cold,
  reuse, fresh,
}

-- A running worker, or one that is reserved and will be started.
abbrev pub works : Pc → ℕ
works (cold_start t) = 1
works (scan w i) = 1
works (pop_batch w) = 1
works (run_task w t rest) = 1
works (process w t rest) = 1
works (report_done w rest) = 1
works (park w) = 1
works (spawn_loop k) = k
works _ = 0

module _ (x : ℕ) where
  abbrev pub bit : Worker → ℕ
  bit w = if w.id == x then 1 else 0

  -- The goroutine runs worker `x`.
  abbrev pub owner : Pc → ℕ
  owner (scan w i) = bit w
  owner (pop_batch w) = bit w
  owner (run_task w t rest) = bit w
  owner (process w t rest) = bit w
  owner (report_done w rest) = bit w
  owner (park w) = bit w
  owner (add_exit w) = bit w
  owner (add_idle w) = bit w
  owner _ = 0

  -- How often worker `x` is in the idle container.
  abbrev pub parked : List Worker → ℕ
  parked [] = 0
  parked (w ∷ ws) = bit w + parked ws

  abbrev pub made : Shared → ℕ
  made m = if ltb x m.create_count then 1 else 0

  parked-append : (ws : List Worker) (w : Worker) → parked (ws ++ w ∷ []) ≡ parked ws + bit w
  parked-append [] w = omega arith
  parked-append (v ∷ ws) w = omega (arith, parked-append ws w)

  parked-erase_at_le : (ws : List Worker) (i : ℕ) → parked (erase_at ws i) ≤ parked ws
  parked-erase_at_le [] i = omega arith
  parked-erase_at_le (w ∷ ws) zero = omega arith
  parked-erase_at_le (w ∷ ws) (suc i) = omega (arith, parked-erase_at_le ws i)

  parked-erase_at :
      (ws : List Worker) (i : ℕ) (w : Worker)
      → get_elem? ws i ≡ some w
      → parked (erase_at ws i) + bit w ≡ parked ws
  parked-erase_at [] i w e = ground arith
  parked-erase_at (v ∷ ws) zero w e = ground arith
  parked-erase_at (v ∷ ws) (suc i) w e = omega (arith, parked-erase_at ws i w e)

module _ (c : Settings) {m : Shared} where
  Move-works :
      {p p' : Pc} {m' : Shared}
      → Move c m p m' p'
      → works p ≤ m.running
      → m'.running + works p ≡ m.running + works p'
  Move-works (submit t) h = refl
  Move-works (cas_win g) h = omega arith
  Move-works mv h = omega arith

  Spawn-works :
      {p p' : Pc} {m' : Shared} {w : Worker}
      → Spawn c m p m' p' w
      → (m'.running ≡ m.running) × (works p ≡ suc (works p'))
  Spawn-works cold = (refl, refl)
  Spawn-works (reuse i e) = (refl, refl)
  Spawn-works (fresh e) = (refl, refl)

  Move-owner :
      (x : ℕ) {p p' : Pc} {m' : Shared}
      → Move c m p m' p'
      → (owner x p' + parked x m'.idle_works ≤ owner x p + parked x m.idle_works)
        × (m'.create_count ≡ m.create_count)
  Move-owner x (submit t) = (omega arith, refl)
  Move-owner x (go_idle {w}) = (omega (arith, parked-append x m.idle_works w), refl)
  Move-owner x (expire i) = (omega (arith, parked-erase_at_le x m.idle_works i), refl)
  Move-owner x mv = (omega arith, refl)

  Spawn-owner :
      (x : ℕ) {p p' : Pc} {m' : Shared} {w : Worker}
      → Spawn c m p m' p' w
      → owner x p' + bit x w + parked x m'.idle_works + made x m
        ≡ owner x p + parked x m.idle_works + made x m'
  Spawn-owner x cold = ground arith
  Spawn-owner x (reuse {w = w} i e) = ground (arith, parked-erase_at x m.idle_works i w)
  Spawn-owner x (fresh e) = ground arith

pub record Staff (n : ℕ) (s : System) : Type 0 where
  pub counted : s.shared.running ≡ total works n s.pc
  pub single : (x : ℕ) → total (owner x) n s.pc + parked x s.shared.idle_works ≤ made x s.shared

Step-Staff : {c : Settings} {n : ℕ} {s t : System} → Step c n s t → Staff n s → Staff n t
Step-Staff {c} {n} {s} (act i {m} {p} lt mv) a = record {
  counted =
      let b = weight-le-total works n i s.pc lt in
      omega (
        arith,
        a.counted,
        total-update works n i s.pc p lt,
        Move-works c mv (omega (arith, a.counted, b)),
      );
  single = λ x. ground (arith, a.single x, total-update (owner x) n i s.pc p lt, Move-owner c x mv);
}
Step-Staff {c} {n} {s} (go i j {m} {p} {w} lt lt' ne e sp) a = record {
  counted =
      omega
        (arith, a.counted, total-spawn works n i j s.pc p (scan w 0) lt lt' ne e, Spawn-works c sp);
  single = λ x. omega (
    arith,
    a.single x,
    total-spawn (owner x) n i j s.pc p (scan w 0) lt lt' ne e,
    Spawn-owner c x sp,
  );
}

pub Reach-Staff : {c : Settings} {n : ℕ} {s : System} → Reach c n s → Staff n s
Reach-Staff {c} {n} start = record {
  counted = omega (arith, total-zero works n (init c).pc (λ i. ground arith));
  single = λ x. ground (arith, total-zero (owner x) n (init c).pc (λ i. ground arith));
}
Reach-Staff (next r st) = Step-Staff st (Reach-Staff r)
