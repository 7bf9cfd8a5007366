-- ===== src/Drain/Safety.antt =====
-- What callers of `Wait` and `done` can rely on.
use agile_pool.Prelude.{
  ℕ, ◌<◌, ◌≡◌, ◌⊎◌, inl, inr, true, false, some, arith, Bool-cases, Option-cases,
}
use agile_pool.Prelude.Threads.{total, total-positive}
use agile_pool.Drain.{System, Reach, done_close, wait_receive, woken}
use agile_pool.Drain.Invariant.{owes, signals, inside, Reach-Inv}

-- A goroutine that `Wait` has let go through its channel has seen the count of pending tasks fall
-- to 0 after it read that count.
pub woken_after_zero :
    {n : ℕ} {s : System} → Reach n s → (i z : ℕ) → s.pc i ≡ woken z → z < s.shared.zeros
woken_after_zero r i z e = ground (arith, (Reach-Inv r).knows i)

-- No wake-up is lost: while a goroutine waits on its channel and no task is pending, the channel
-- is closed, or some goroutine in `done` has yet to decide about it.
pub no_lost_wakeup :
    {n : ℕ} {s : System}
    → Reach n s
    → (i c z : ℕ) → s.pc i ≡ wait_receive c z
    → s.shared.pending ≡ 0
    → (s.shared.is_closed c ≡ true) ⊎ ((j : ℕ) × (j < n) × (0 < signals (s.pc j)))
no_lost_wakeup {n} {s} r i c z e quiet = elim (Bool-cases (s.shared.is_closed c)) [
  | inl done ↦ inl done
  | inr waiting ↦ inr (
      total-positive signals n s.pc
        (ground (arith, (Reach-Inv r).knows i, (Reach-Inv r).signalled c)))
]

-- `close(p.drainCh)` never meets a nil or an already closed channel, on which it would panic.
pub close_is_safe :
    {n : ℕ} {s : System}
    → Reach n s
    → (i : ℕ) → s.pc i ≡ done_close
    → (c : ℕ) × (s.shared.drain_ch ≡ some c) × (s.shared.is_closed c ≡ false)
close_is_safe {s = s} r i e = elim (Option-cases s.shared.drain_ch) [
  | inl missing ↦ absurd (ground (arith, (Reach-Inv r).knows i))
  | inr (c, here) ↦ (c, here, ((Reach-Inv r).current c here).1)
]

-- `drainMu` is held by one goroutine at most.
pub mutual_exclusion :
    {n : ℕ} {s : System}
    → Reach n s
    → (i j : ℕ) → inside (s.pc i) ≡ true
    → inside (s.pc j) ≡ true
    → i ≡ j
mutual_exclusion r i j hi hj = (Reach-Inv r).unique i j hi hj

-- `pendingTasks` is the number of goroutines between `addPending` and `done`.
pub pending-owes : {n : ℕ} {s : System} → Reach n s → s.shared.pending ≡ total owes n s.pc
pending-owes r = (Reach-Inv r).counted
