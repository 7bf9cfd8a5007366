-- ===== src/Construction.antt =====
-- pool.go: NewPool, which puts the other components together, and the tickers of the goroutines that
-- it starts. Configurations come from NewConfig, or are zero, so that sizes and capacities are not
-- negative. `procs` is GOMAXPROCS; the loops of the shards have 63 rounds.
pub mod Container
pub mod Shape
mod Tests
use agile_pool.Prelude.{
  ℕ, zero, suc, ◌-◌, Bool, false, Option, none, some, List, [], true, length, get_or, replicate,
}
use agile_pool.Prelude.Int.{ℤ, pos, negsuc, pos_part}
use agile_pool.Config
use agile_pool.Config.{Config, LockType, block, nonblock, new_config}
use agile_pool.Config.{
  IdleContainerType, linked_list_type, min_heap_type, slice_type, ring_queue_type, treap_type,
  other_type, spin_lock, mutex_lock,
}
use agile_pool.Shards.{resolve_task_queue_shards, per_shard_cap}
use agile_pool.Histogram.{Histogram, new_histogram}
use agile_pool.Histogram.Buckets.{submit_buckets, consume_buckets, exit_buckets}
use agile_pool.TaskBuffer
use agile_pool.TaskBuffer.{Buffer}
use agile_pool.Idle.{IdleContainer}
use agile_pool.Idle.Slice.{slice}
use agile_pool.Idle.RingQueue.{ring_queue}
use agile_pool.Idle.LinkedList.{linked_list}
use agile_pool.Idle.MinHeap.{min_heap}
use agile_pool.Idle.Treap.{treap}
use agile_pool.Pool.State.{Settings}
use agile_pool.Rates.{Layout}

-- `time.NewTicker` panics for a period that is not positive.
pub new_ticker : ℤ → Option ℕ
new_ticker (pos (suc n)) = some (suc n)
new_ticker d = none

module _ {A : Type 0} (date : A → ℕ) (zero_value : A) (rand : ℕ → ℕ) where
  -- The `switch` over idleContainerType.
  abbrev pub choose : IdleContainerType → IdleContainer A
  choose min_heap_type = min_heap date zero_value
  choose slice_type = slice date
  choose ring_queue_type = ring_queue date
  choose treap_type = treap date rand
  choose linked_list_type = linked_list date
  choose (other_type n) = linked_list date

-- The fields that NewPool sets; the counters start at 0. A channel is empty and known by its
-- capacity.
pub record Pool (Float Handler Task Worker : Type 0) : Type 1 where
  pub config : Config Float Handler
  pub capacity : ℤ
  pub task_buf : Buffer Task
  pub panic_handler : Option Handler
  pub task_queues : List ℕ
  pub shard_mask : ℕ
  pub task_queue_size : ℕ
  pub mu_idle : LockType
  pub idle_container : IdleContainer Worker
  pub idle_works : idle_container.State
  pub submit_hist : Histogram
  pub consume_hist : Histogram
  pub exit_hist : Histogram

module _ {Float Handler Task Worker : Type 0} (fl : Config.Floats Float) (zero_task : Task)
    (date : Worker → ℕ) (zero_worker : Worker) (rand : ℕ → ℕ) where
  -- `config`, or the defaults for nil.
  pub or_default : Option (Config Float Handler) → Config Float Handler
  or_default none = new_config fl []
  or_default (some c) = c

  pub build : Config Float Handler → ℕ → Pool Float Handler Task Worker
  build c shard_count = record {
    config = c;
    capacity = c.worker_num_capacity;
    task_buf = TaskBuffer.new zero_task;
    panic_handler = c.panic_handler;
    task_queues = replicate shard_count (per_shard_cap (pos_part c.task_queue_size) shard_count);
    shard_mask = shard_count - 1;
    task_queue_size = pos_part c.task_queue_size;
    mu_idle = elim c.lock_type [ spin_lock ↦ spin_lock | _ ↦ mutex_lock ];
    idle_container = choose date zero_worker rand c.idle_container_type;
    idle_works = (choose date zero_worker rand c.idle_container_type).new;
    submit_hist = new_histogram submit_buckets (pos_part c.stats_window_size);
    consume_hist = new_histogram consume_buckets (pos_part c.stats_window_size);
    exit_hist = new_histogram exit_buckets (pos_part c.stats_window_size);
  }

  -- With the number of shards, or none when the loops that find it do not end.
  unfoldable pub build_with :
      Config Float Handler → Option ℕ → Option (Pool Float Handler Task Worker)
  build_with c none = none
  build_with c (some shard_count) = some (build c shard_count)

  pub new_pool :
      (procs : ℕ) → Option (Config Float Handler) → Option (Pool Float Handler Task Worker)
  new_pool procs given =
      let c = or_default given in
      build_with c (
        resolve_task_queue_shards 63 (pos_part c.task_queue_shards) procs
          (pos_part c.task_queue_size))

-- The pool as its goroutines see it.
abbrev pub settings :
    {Float Handler Task Worker : Type 0} → Pool Float Handler Task Worker → Settings
settings p = record {
  shard_count = length p.task_queues;
  shard_cap = get_or p.task_queues 0 0;
  capacity = pos_part p.capacity;
  nonblock = elim p.config.work_mode [ nonblock ↦ true | _ ↦ false ];
}

abbrev pub layout : {Float Handler Task Worker : Type 0} → Pool Float Handler Task Worker → Layout
layout p = record {
  submit_buckets = p.submit_hist.buckets;
  consume_buckets = p.consume_hist.buckets;
  exit_buckets = p.exit_hist.buckets;
  window = length p.submit_hist.samples;
}
