-- ===== src/Shards.antt =====
-- pool.go: resolveTaskQueueShards, and the capacity of a shard in NewPool. A Go int has 64 bits: it
-- is the natural number of its bits, so that a negative one is at least 2 ^ 63. The loops run on
-- fuel, and none stands for a loop that has not ended.
pub mod Rounding
pub mod Slots
pub mod Mask
mod Tests
use agile_pool.Prelude.{
  ℕ, zero, suc, ◌+◌, ◌-◌, ◌*◌, ◌/◌, ◌%◌, ◌^◌, min, Bool, ◌&&◌, ◌||◌, Option, none, some, ltb, leb,
  if◌then◌else◌,
}

abbrev pub min_shardable_queue_size : ℕ
min_shardable_queue_size = 1024

abbrev pub max_auto_shards : ℕ
max_auto_shards = 32

abbrev pub negative : ℕ → Bool
negative a = leb (2 ^ 63) a

-- `a < b` between ints, for a `b` that is not negative.
abbrev pub less : ℕ → ℕ → Bool
less a b = negative a || ltb a b

-- `for shards < want { shards <<= 1 }`
unfoldable pub round_up : (fuel want shards : ℕ) → Option ℕ
round_up zero want shards = none
round_up (suc f) want shards =
    let rest = round_up f want (shards * 2 % 2 ^ 64) in
    if less shards want then rest else some shards

-- `for int64(shards) > c.taskQueueSize && shards > 1 { shards >>= 1 }`
unfoldable pub shrink : (fuel size shards : ℕ) → Option ℕ
shrink zero size shards = none
shrink (suc f) size shards =
    let rest = shrink f size (shards / 2) in
    if ltb size shards && ltb 1 shards then rest else some shards

-- The number of shards that is aimed at: `explicit` is the configured one, and 0 stands for all
-- that are not positive; `procs` is GOMAXPROCS.
unfoldable pub wanted : (explicit procs : ℕ) → ℕ
wanted zero procs = if ltb (min procs max_auto_shards) 1 then 1 else min procs max_auto_shards
wanted (suc e) procs = suc e

-- The second loop goes on from where the first one ends.
unfoldable pub shrink_to : (fuel size : ℕ) → Option ℕ → Option ℕ
unfolding shrink
shrink_to fuel size none = none
shrink_to fuel size (some shards) = shrink fuel size shards

unfoldable pub resize : (fuel want size : ℕ) → Option ℕ
unfolding round_up shrink_to
resize fuel want size = shrink_to fuel size (round_up fuel want 1)

unfoldable pub resolve_task_queue_shards : (fuel explicit procs size : ℕ) → Option ℕ
unfolding wanted resize
resolve_task_queue_shards fuel zero procs size =
    if ltb size min_shardable_queue_size then some 1 else resize fuel (wanted 0 procs) size
resolve_task_queue_shards fuel (suc e) procs size = resize fuel (wanted (suc e) procs) size

-- `(int(c.taskQueueSize) + shardCount - 1) / shardCount`, and 1 when that is less; the quotient of
-- a negative sum is not positive.
unfoldable pub per_shard_cap : (size shard_count : ℕ) → ℕ
per_shard_cap size shard_count =
    let sum = (size + (shard_count - 1)) % 2 ^ 64 in
    let slots = if negative sum then 0 else sum / shard_count in if ltb slots 1 then 1 else slots
