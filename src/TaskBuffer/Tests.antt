-- ===== src/TaskBuffer/Tests.antt =====
-- The buffer at concrete inputs.
use agile_pool.Prelude.{ℕ, ◌-◌, ◌≡◌, refl, Bool, List, [], ◌∷◌, ltb}
use agile_pool.TaskBuffer.{accepted, closed, new}
use agile_pool.TaskBuffer.Queue
use agile_pool.TaskBuffer.Queue.{Op, push, batch, size, shut, Reply, pushed, popped, counted, done}
use agile_pool.TaskBuffer.Simulation.{run, ops_of, run-new}

-- A channel with `s` free slots takes a task while it has one.
abbrev slots : ℕ → ℕ → Bool × ℕ
slots t s = (ltb 0 s, s - 1)

abbrev script : List (Op ℕ × ℕ)
script =
    (push 7, 0)
    ∷ (push 8, 0)
    ∷ (push 9, 0)
    ∷ (size, 0)
    ∷ (batch 5, 0)
    ∷ (push 6, 0)
    ∷ (shut, 0)
    ∷ (push 5, 0)
    ∷ []

-- The first push goes through the buffer to the channel.
script_replies :
    (Queue.run slots (ops_of script) Queue.empty 1).0
    ≡ pushed accepted
      ∷ pushed accepted
      ∷ pushed accepted
      ∷ counted 2
      ∷ popped (8 ∷ 9 ∷ [])
      ∷ pushed accepted
      ∷ done
      ∷ pushed closed
      ∷ []
unfolding Queue.run
script_replies = refl

run-new_example :
    (run 0 slots script (new 0) 1).0 ≡ (Queue.run slots (ops_of script) Queue.empty 1).0
run-new_example = (run-new 0 slots script 1).0
