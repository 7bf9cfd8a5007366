-- ===== src/Shards/Tests.antt =====
-- Shards at concrete sizes.
use agile_pool.Prelude.{ℕ, suc, ◌+◌, ◌*◌, ◌^◌, ◌≤◌, ◌<◌, ◌≡◌, ◌⊎◌, refl, none, some, arith}
use agile_pool.Shards.{resolve_task_queue_shards, per_shard_cap}
use agile_pool.Shards.Rounding.{power, resolve-power, resolve-none}
use agile_pool.Shards.Slots.{per_shard_cap-one}

six_shards : resolve_task_queue_shards 63 6 4 10000 ≡ some 8
unfolding resolve_task_queue_shards
six_shards = refl

few_slots : resolve_task_queue_shards 63 6 4 5 ≡ some 4
unfolding resolve_task_queue_shards
few_slots = refl

eight_procs : resolve_task_queue_shards 63 0 8 10000 ≡ some 8
unfolding resolve_task_queue_shards
eight_procs = refl

resolve-power_example :
    (j : ℕ) × (resolve_task_queue_shards 63 0 6 10000 ≡ some (power j))
    × (power j ≤ 10000)
    × (power j < 2 * 6)
    × ((6 ≤ power j) ⊎ (10000 < power (suc j)))
resolve-power_example = resolve-power 0 6 10000 (omega arith) (omega arith)

resolve-none_example : resolve_task_queue_shards 1000 (2 ^ 62 + 1) 4 10000 ≡ none
resolve-none_example = resolve-none 1000 (2 ^ 62 + 1) 4 10000 (omega arith)

per_shard_cap-one_example : per_shard_cap 9223372036854775807 2 ≡ 1
per_shard_cap-one_example =
    per_shard_cap-one 9223372036854775807 2 (omega arith) (omega arith) (omega arith)
