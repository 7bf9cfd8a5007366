-- ===== src/Construction/Shape.antt =====
-- The parts of a pool that NewPool builds from options fit together.
use Prim.Native.Nat.{bit_and}
use native.Mathlib.Nat.{mul_comm}
use agile_pool.Prelude.{
  ℕ, zero, suc, ◌+◌, ◌^◌, ◌≤◌, ◌<◌, ◌≡◌, refl, sym, ap, ◌∙◌, ◌%◌, true, some, List, arith, length,
  replicate, length-replicate, get_or, sum, sum-replicate,
}
use agile_pool.Prelude.Int.{ℤ, pos, negsuc, positive, pos_part}
use agile_pool.Config
use agile_pool.Config.{Config, Setting, in_unit, new_config}
use agile_pool.Config.Valid.{valid, valid-new_config}
use agile_pool.Shards.{per_shard_cap}
use agile_pool.Shards.Rounding.{power, power-positive, resolve-power}
use agile_pool.Shards.Slots.{per_shard_cap-bounds}
use agile_pool.Shards.Mask.{bit_and-mask}
use agile_pool.Histogram.Buckets.{submit_buckets}
use agile_pool.Histogram.Window.{length-new_histogram}
use agile_pool.Construction.{
  new_ticker, Pool, or_default, build, build_with, new_pool, settings, layout,
}

positive-pos_part : (d : ℤ) → positive d ≡ true → 0 < pos_part d
positive-pos_part (pos zero) h = cc
positive-pos_part (pos (suc n)) h = omega arith
positive-pos_part (negsuc n) h = cc

new_ticker-positive : (d : ℤ) → positive d ≡ true → new_ticker d ≡ some (pos_part d)
unfolding new_ticker
new_ticker-positive (pos zero) h = cc
new_ticker-positive (pos (suc n)) h = refl
new_ticker-positive (negsuc n) h = cc

get_or-replicate_first : (k a : ℕ) → 0 < k → get_or (replicate k a) 0 0 ≡ a
get_or-replicate_first zero a h = absurd (omega (arith, h))
get_or-replicate_first (suc k) a h = refl

ticks : (d : ℤ) → positive d ≡ true → (n : ℕ) × (new_ticker d ≡ some n)
ticks d h = (pos_part d, new_ticker-positive d h)

module _ {Float Handler Task Worker : Type 0} where
  -- What the methods rely on.
  pub record Sound (p : Pool Float Handler Task Worker) : Type 0 where
    pub some_shard : 0 < length p.task_queues
    pub mask_picks : (seq : ℕ) → bit_and seq p.shard_mask ≡ seq % length p.task_queues
    pub enough : p.task_queue_size ≤ sum p.task_queues
    pub spare : sum p.task_queues < p.task_queue_size + length p.task_queues
    pub some_slot : 0 < (settings p).shard_cap
    pub some_worker : 0 < (settings p).capacity
    pub some_window : 0 < (layout p).window
    pub cleans : (n : ℕ) × (new_ticker p.config.clean_period ≡ some n)
    pub samples : (n : ℕ) × (new_ticker p.config.stats_sample_period ≡ some n)
    pub scales : (n : ℕ) × (new_ticker p.config.scaler_period ≡ some n)

  module _ (fl : Config.Floats Float) (zero_task : Task) (date : Worker → ℕ) (zero_worker : Worker)
      (rand : ℕ → ℕ) where
    build-Sound :
        (c : Config Float Handler) (j : ℕ)
        → valid fl c ≡ true
        → power j ≤ pos_part c.task_queue_size
        → pos_part c.task_queue_size ≤ 2 ^ 62
        → Sound (build fl zero_task date zero_worker rand c (power j))
    unfolding build
    build-Sound c j ok le fit =
        let size = pos_part c.task_queue_size in
        let cap = per_shard_cap size (power j) in
        let some_ = power-positive j in
        let bounds =
          per_shard_cap-bounds size (power j) (omega (arith, le, some_)) some_
            (omega (arith, le, fit)) in
        record {
          some_shard = omega (arith, length-replicate (power j) cap, some_);
          mask_picks =
              λ seq. bit_and-mask j seq ∙ ap (seq %◌) (sym (length-replicate (power j) cap));
          enough =
              rw (sum-replicate (power j) cap) (omega (arith, bounds.0, mul_comm (power j) cap));
          spare =
              rw (sum-replicate (power j) cap)
                (omega (arith, bounds.1, mul_comm (power j) cap, length-replicate (power j) cap));
          some_slot = omega (arith, bounds.2, get_or-replicate_first (power j) cap some_);
          some_worker = positive-pos_part c.worker_num_capacity (ground arith);
          some_window = omega (
            arith,
            length-new_histogram submit_buckets (pos_part c.stats_window_size),
            positive-pos_part c.stats_window_size (ground arith),
          );
          cleans = ticks c.clean_period (ground arith);
          samples = ticks c.stats_sample_period (ground arith);
          scales = ticks c.scaler_period (ground arith);
        }

    -- With at most 2 ^ 62 shards asked for and room for at most 2 ^ 62 tasks, NewPool builds a pool
    -- from whatever options NewConfig got: there are shards, the mask picks one of them as the
    -- remainder does, they have room for the configured number of tasks, and less than one slot more
    -- each, a worker may run, the windows hold a sample, and no ticker panics.
    pub new_pool-Sound :
        in_unit fl fl.default_backlog_decay_factor ≡ true
        → (procs : ℕ) (opts : List (Setting Float Handler))
        → pos_part (new_config fl opts).task_queue_shards ≤ 2 ^ 62
        → pos_part (new_config fl opts).task_queue_size ≤ 2 ^ 62
        → (p : Pool Float Handler Task Worker) × (new_pool fl zero_task date zero_worker rand procs
              (some (new_config fl opts))
            ≡ some p)
          × Sound p
    unfolding new_pool or_default build_with
    new_pool-Sound unit procs opts few fit =
        let c = new_config fl opts in
        let ok = valid-new_config fl unit opts in
        let room = positive-pos_part c.task_queue_size (ground (arith, ok)) in
        let (j, found, le, _, _) =
          resolve-power (pos_part c.task_queue_shards) procs (pos_part c.task_queue_size) few
            room in
        (
          build fl zero_task date zero_worker rand c (power j),
          ap (build_with fl zero_task date zero_worker rand c) found,
          build-Sound c j ok le fit,
        )
