-- ===== src/SpinLock/Tests.antt =====
-- One goroutine holds the lock and another waits for it.
use agile_pool.Prelude.{◌+◌, ◌≤◌, ◌<◌, ◌≡◌, ◌⊎◌, refl, true, arith}
use agile_pool.SpinLock.{
  max_backoff, Goroutines, act, Run, begin, turn, lock, fast, fast_win, fast_fail,
}
use agile_pool.SpinLock.Safety.{holds, patience, tries, holding_excludes, tries_soon}

abbrev contended : (g : Goroutines) × Run 2 g
contended = (
  _,
  turn (act 1 lock (omega arith)) (
      turn (act 0 (fast_win (omega arith) refl) (omega arith))
        (turn (act 0 lock (omega arith)) begin)),
)

holding_excludes_example : (contended.0.state ≡ 1) × (holds (contended.0.spot 1) ≡ 0)
holding_excludes_example =
    holding_excludes contended.1 0 1 (omega arith) (omega arith) (omega arith) refl

tries_soon_example :
    (patience (contended.0.spot 1) ≤ max_backoff + 2)
    × ((tries (contended.0.spot 1) ≡ true) ⊎ (patience (fast 1) < patience (contended.0.spot 1)))
tries_soon_example =
    tries_soon contended.1 1 (fast_fail (omega arith) (omega arith) (omega arith)) (ground arith)
      (ground arith)
