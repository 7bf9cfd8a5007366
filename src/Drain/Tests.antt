-- ===== src/Drain/Tests.antt =====
-- A goroutine with a task and a waiter.
use agile_pool.Prelude.{ℕ, ◌<◌, ◌≡◌, refl, ◌⊎◌, true, false, some, arith}
use agile_pool.Drain.{
  System, Reach, start, next, run, add_pending, finish_last, lock_done, signal, close, call_wait,
  lock_wait, busy, make_channel, unlock_wait, receive,
}
use agile_pool.Drain.Invariant.{signals}
use agile_pool.Drain.Safety.{woken_after_zero, no_lost_wakeup, close_is_safe}

-- The waiter waits on channel 0, and the task has ended.
abbrev waiting : (s : System) × Reach 2 s
waiting = (
  _,
  next
      (next
        (next
          (next
            (next
              (next (next start (run 0 (omega arith) add_pending)) (run 1 (omega arith) call_wait))
              (run 1 (omega arith) (lock_wait refl)))
            (run 1 (omega arith) (busy (omega arith))))
          (run 1 (omega arith) (make_channel refl)))
        (run 1 (omega arith) unlock_wait))
      (run 0 (omega arith) (finish_last refl)),
)

abbrev signalling : (s : System) × Reach 2 s
signalling = (
  _,
  next (next waiting.1 (run 0 (omega arith) (lock_done refl)))
      (run 0 (omega arith) (signal refl refl)),
)

abbrev ended : (s : System) × Reach 2 s
ended = (
  _,
  next (next signalling.1 (run 0 (omega arith) (close refl))) (run 1 (omega arith) (receive refl)),
)

woken_after_zero_example : 0 < ended.0.shared.zeros
woken_after_zero_example = woken_after_zero ended.1 1 0 refl

no_lost_wakeup_example :
    (waiting.0.shared.is_closed 0 ≡ true) ⊎ ((j : ℕ) × (j < 2) × (0 < signals (waiting.0.pc j)))
no_lost_wakeup_example = no_lost_wakeup waiting.1 1 0 0 refl refl

close_is_safe_example :
    (c : ℕ) × (signalling.0.shared.drain_ch ≡ some c) × (signalling.0.shared.is_closed c ≡ false)
close_is_safe_example = close_is_safe signalling.1 0 refl
