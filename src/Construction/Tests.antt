-- ===== src/Construction/Tests.antt =====
-- A pool from two options; numbers stand for floats, tasks, workers and handlers.
use agile_pool.Prelude.{ℕ, ◌*◌, ◌%◌, ◌≡◌, refl, arith, some, List, [], ◌∷◌, leb}
use agile_pool.Prelude.Int.{pos, negsuc}
use agile_pool.Config
use agile_pool.Config.{
  Setting, new_config, with_task_queue_size, with_task_queue_shards, with_idle_container_type,
  with_stats_window_size, ring_queue_type, treap_type,
}
use agile_pool.Idle.Queue.{Op, add, pop, remove_expired, run_calls}
use agile_pool.Construction.{Pool, new_pool, choose}
use agile_pool.Construction.Shape.{Sound, new_pool-Sound}
use agile_pool.Construction.Container.{Promise, run-choose}

abbrev hundredths : Config.Floats ℕ
hundredths = record { le = leb; zero = 0; one = 100; default_backlog_decay_factor = 30 }

abbrev options : List (Setting ℕ ℕ)
options =
    with_task_queue_size (pos 2000)
    ∷ with_task_queue_shards (pos 6)
    ∷ with_stats_window_size (negsuc 0)
    ∷ with_idle_container_type ring_queue_type
    ∷ []

abbrev date : ℕ → ℕ
date n = n

abbrev rand : ℕ → ℕ
rand k = k * 7 % 5

new_pool-Sound_example :
    (p : Pool ℕ ℕ ℕ ℕ) × (new_pool hundredths 0 date 0 rand 4 (some (new_config hundredths options))
      ≡ some p)
    × Sound p
unfolding new_config
new_pool-Sound_example =
    new_pool-Sound hundredths 0 date 0 rand refl 4 options (omega arith) (omega arith)

abbrev calls : List (Op ℕ)
calls = add 9 ∷ add 2 ∷ pop ∷ remove_expired 10 5 ∷ pop ∷ []

run-choose_example :
    Promise date treap_type calls
      (run_calls (choose date 0 rand treap_type) calls (choose date 0 rand treap_type).new).0
run-choose_example =
    run-choose date 0 rand treap_type calls (tt, (tt, (tt, (omega arith, (tt, tt)))))
