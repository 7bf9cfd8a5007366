-- ===== src/Config.antt =====
-- config.go: the settings of a pool and the options that change them. Durations are nanoseconds.
-- What Go does with a float64 is a parameter: `le` is its order, and `Handler` the type of panic
-- handlers.
pub mod Valid
mod Tests
use agile_pool.Prelude.{ℕ, Bool, ◌&&◌, Option, none, some, List, [], ◌∷◌, if◌then◌else◌}
use agile_pool.Prelude.Int.{ℤ, pos, positive}

-- The named values of a type of small integers, and any other one.
pub data WorkMode : Type 0 where
  block nonblock : WorkMode
  other_mode : ℕ → WorkMode

pub data IdleContainerType : Type 0 where
  linked_list_type min_heap_type slice_type ring_queue_type treap_type : IdleContainerType
  other_type : ℕ → IdleContainerType

pub data LockType : Type 0 where
  mutex_lock spin_lock : LockType
  other_lock : ℕ → LockType

pub record Floats (Float : Type 0) : Type 0 where
  pub le : Float → Float → Bool
  pub zero : Float
  pub one : Float
  pub default_backlog_decay_factor : Float  -- 0.3

pub record Config (Float Handler : Type 0) : Type 0 where
  pub clean_period : ℤ
  pub task_queue_size : ℤ
  pub task_queue_shards : ℤ
  pub worker_num_capacity : ℤ
  pub work_mode : WorkMode
  pub idle_container_type : IdleContainerType
  pub lock_type : LockType
  pub stats_sample_period : ℤ
  pub stats_window_size : ℤ
  pub scaler_period : ℤ
  pub backlog_decay_factor : Float
  pub zero_consume_scale_interval : ℤ
  pub max_zero_consume_scale_step : ℤ
  pub panic_handler : Option Handler

-- The arguments of the `With` functions.
pub data Setting (Float Handler : Type 0) : Type 0 where
  with_clean_period : ℤ → Setting Float Handler
  with_task_queue_size : ℤ → Setting Float Handler
  with_task_queue_shards : ℤ → Setting Float Handler
  with_worker_num_capacity : ℤ → Setting Float Handler
  with_block_mode : WorkMode → Setting Float Handler
  with_idle_container_type : IdleContainerType → Setting Float Handler
  with_stats_sample_period : ℤ → Setting Float Handler
  with_stats_window_size : ℤ → Setting Float Handler
  with_scaler_period : ℤ → Setting Float Handler
  with_lock_type : LockType → Setting Float Handler
  with_backlog_decay_factor : Float → Setting Float Handler
  with_zero_consume_scale_interval : ℤ → Setting Float Handler
  with_max_zero_consume_scale_step : ℤ → Setting Float Handler
  with_panic_handler : Option Handler → Setting Float Handler

abbrev pub in_unit : {Float : Type 0} → Floats Float → Float → Bool
in_unit fl x = fl.le fl.zero x && fl.le x fl.one

module _ {Float Handler : Type 0} (fl : Floats Float) where
  abbrev pub default_config : Config Float Handler
  default_config = record {
    clean_period = pos 500000000;
    task_queue_size = pos 10000;
    task_queue_shards = pos 0;
    worker_num_capacity = pos 9223372036854775807;
    work_mode = block;
    idle_container_type = linked_list_type;
    lock_type = mutex_lock;
    stats_sample_period = pos 100000000;
    stats_window_size = pos 10;
    scaler_period = pos 10000000;
    backlog_decay_factor = fl.default_backlog_decay_factor;
    zero_consume_scale_interval = pos 100000000;
    max_zero_consume_scale_step = pos 64;
    panic_handler = none;
  }

  unfoldable pub apply : Setting Float Handler → Config Float Handler → Config Float Handler
  apply (with_clean_period d) c = if positive d then record c { clean_period = d } else c
  apply (with_task_queue_size n) c = if positive n then record c { task_queue_size = n } else c
  apply (with_task_queue_shards n) c = record c { task_queue_shards = n }
  apply (with_worker_num_capacity n) c =
      if positive n then record c { worker_num_capacity = n } else c
  apply (with_block_mode m) c = record c { work_mode = m }
  apply (with_idle_container_type t) c = record c { idle_container_type = t }
  apply (with_stats_sample_period d) c =
      if positive d then record c { stats_sample_period = d } else c
  apply (with_stats_window_size n) c = if positive n then record c { stats_window_size = n } else c
  apply (with_scaler_period d) c = if positive d then record c { scaler_period = d } else c
  apply (with_lock_type l) c = record c { lock_type = l }
  apply (with_backlog_decay_factor x) c =
      if in_unit fl x then record c { backlog_decay_factor = x } else c
  apply (with_zero_consume_scale_interval d) c =
      if positive d then record c { zero_consume_scale_interval = d } else c
  apply (with_max_zero_consume_scale_step n) c =
      if positive n then record c { max_zero_consume_scale_step = n } else c
  apply (with_panic_handler h) c = record c { panic_handler = h }

  unfoldable pub apply_all :
      List (Setting Float Handler) → Config Float Handler → Config Float Handler
  unfolding apply
  apply_all [] c = c
  apply_all (s ∷ ss) c = apply_all ss (apply s c)

  unfoldable pub new_config : List (Setting Float Handler) → Config Float Handler
  unfolding apply_all
  new_config opts = apply_all opts default_config
