-- ===== src/Retry/Tests.antt =====
-- A task that fails twice.
use agile_pool.Prelude.{ℕ, arith, true, ◌^◌, ◌≡◌, refl, Bool, none, [], ◌∷◌, ltb}
use agile_pool.Retry.{
  TaskWithRetry, called, slept, default_back_off_strategy, get_back_off_time, retries, process,
}
use agile_pool.Retry.Calls.{calls, Ends, process-Ends}

abbrev task : TaskWithRetry
task = record { min_back_off = 10; max_back_off = 30; retry_num = 5; back_off_strategy = none }

abbrev fails_twice : ℕ → Bool
fails_twice k = ltb k 2

abbrev zero_of : ℕ → ℕ
zero_of n = 0

two_retries : process zero_of task fails_twice ≡ called ∷ slept 20 ∷ called ∷ slept 30 ∷ called ∷ []
unfolding process retries get_back_off_time default_back_off_strategy
two_retries = refl

-- Of a negative number of retries none is made.
no_retry : process zero_of (record task { retry_num = 2 ^ 63 }) (λ k. true) ≡ called ∷ []
unfolding process retries
no_retry = refl

process-Ends_example : Ends fails_twice 0 (calls (process zero_of task fails_twice)) 6
process-Ends_example = process-Ends zero_of task fails_twice (omega arith)
