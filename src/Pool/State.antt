-- ===== src/Pool/State.antt =====
-- The shared state of the pool, and where a goroutine stands in its code.
use agile_pool.Prelude.{ℕ, Bool, List}
use agile_pool.TaskBuffer.Queue.{Queue}

-- A task is known by its number.
abbrev pub Task : Type 0
Task = ℕ

pub record Settings : Type 0 where
  pub shard_count : ℕ  -- len(taskQueues), `shardMask` + 1
  pub shard_cap : ℕ
  pub capacity : ℕ
  pub nonblock : Bool

-- `taskQueues` and `sendSeq`.
pub record Channels : Type 0 where
  pub send_seq : ℕ
  pub queues : List (List Task)

pub record Worker : Type 0 where
  pub id : ℕ
  pub cursor : ℕ

-- `submitted`, `finished` and `refused` only serve the statements.
pub record Shared : Type 0 where
  pub closed : Bool
  pub close_pool_cn : Bool
  pub pending : ℕ
  pub running : ℕ
  pub create_count : ℕ
  pub submit_count : ℕ
  pub consume_count : ℕ
  pub exit_count : ℕ
  pub worker_seq : ℕ
  pub channels : Channels
  pub buffer : Queue Task
  pub idle_works : List Worker
  pub submitted : List Task
  pub finished : List Task
  pub refused : List Task

pub data Pc : Type 0 where
  idle : Pc
  -- submit
  load_closed : Task → Pc
  add_submit : Task → Pc
  load_running : Task → Pc
  cas_running : Task → Pc
  cold_start : Task → Pc  -- the compare-and-swap has won
  pick_shard : Task → Pc
  select_shard : Task → ℕ → Pc
  push_buffer : Task → Pc
  pick_again : Task → Pc
  blocked : Task → ℕ → Pc  -- in the last `select`, on a shard
  undo : Pc  -- before `done` for a task that is refused
  accepted : Pc
  rejected : Pc
  -- worker.run
  scan : Worker → ℕ → Pc  -- shards looked at in this round of nextShardTask
  pop_batch : Worker → Pc
  run_task : Worker → Task → List Task → Pc  -- with the rest of the batch
  process : Worker → Task → List Task → Pc
  report_done : Worker → List Task → Pc  -- before the deferred `done`
  park : Worker → Pc
  add_exit : Worker → Pc
  add_idle : Worker → Pc
  -- scaler
  decide : Pc
  recheck : ℕ → Pc  -- `toSpawn`, holding p.lock
  reserve : ℕ → ℕ → Pc  -- `actualSpawn`, and the `currentRunning` that it came from
  spawn_loop : ℕ → Pc  -- workers still to start
  scaler_closed : Pc
  scaler_pending : Pc
  scaler_stopped : Pc
  -- Close
  close_buffer : Pc
  close_channel : Pc
  close_done : Pc

pub record System : Type 0 where
  pub shared : Shared
  pub pc : ℕ → Pc
