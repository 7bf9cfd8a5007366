-- ===== src/DefaultPool/Tests.antt =====
-- Two pools, of which the first one is closed.
use agile_pool.Prelude.{ℕ, ◌≡◌, ◌≢◌, refl, arith, Option, some}
use agile_pool.Prelude.Threads.{total, total-suc, total-none}
use agile_pool.DefaultPool.{Move, System, Step, act, init, Reach, start, next}
use agile_pool.DefaultPool.Safety.{clears, latest, default_pool-latest}

abbrev Run : Type 0
Run = (s : System) × Reach 1 s

abbrev then : (r : Run) {t : System} → Step 1 r.0 t → Run
then r {t} st = (t, next r.1 st)

abbrev published : Run
published =
    then (then (init, start) (act 0 (omega arith) Move.publish)) (act 0 (omega arith) Move.publish)

other_pool : ◌≢◌ {A = Option ℕ} (some 1) (some 0)
other_pool e = cc

abbrev closed : Run
closed =
    then (then published (act 0 (omega arith) (Move.close_first {k = 0} (omega arith) refl)))
      (act 0 (omega arith) (Move.swap_fails other_pool))

nobody : (k : ℕ) → total (clears k) 1 closed.0.pc ≡ 0
nobody k = omega (arith, total-suc (clears k) 0 closed.0.pc, total-none (clears k) closed.0.pc)

default_pool-latest_example :
    closed.0.shared.default_pool ≡ latest closed.0.shared.closed closed.0.shared.next_pool
default_pool-latest_example = default_pool-latest closed.1 nobody

second_stays : closed.0.shared.default_pool ≡ some 1
second_stays = refl
