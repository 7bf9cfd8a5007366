-- ===== src/Pool/Getters.antt =====
-- pool.go: the methods that say how the pool stands, and queuedTasks.
use agile_pool.Prelude.{ℕ, suc, ◌+◌, ◌≤◌, ◌<◌, length}
use agile_pool.Pool.State.{Settings, Shared}
use agile_pool.Pool.Channels.{queue}

unfoldable pub get_running_workers_num : Shared → ℕ
get_running_workers_num m = m.running

unfoldable pub get_worker_create_count : Shared → ℕ
get_worker_create_count m = m.create_count

unfoldable pub get_idle_worker_count : Shared → ℕ
get_idle_worker_count m = length m.idle_works

-- Where a call of `queuedTasks` stands: in the loop of `GetTaskQueueLen` before shard `i`, past it,
-- and at the end, with what `GetTaskQueueLen` returned and what it returns itself.
pub data Counting : Type 0 where
  adding : (i total : ℕ) → Counting
  counted : (total : ℕ) → Counting
  answered : (task_queue_len queued_tasks : ℕ) → Counting

-- Each look at a channel or at the buffer is a step of its own.
pub data Look (c : Settings) (m : Shared) : Counting → Counting → Type 0 where
  next_queue :
      {i total : ℕ}
      → i < c.shard_count
      → Look c m (adding i total) (adding (suc i) (total + length (queue m.channels i)))
  queues_done : {i total : ℕ} → c.shard_count ≤ i → Look c m (adding i total) (counted total)
  add_buffer :
      {total : ℕ} → Look c m (counted total) (answered total (total + length m.buffer.tasks))
