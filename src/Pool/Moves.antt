-- ===== src/Pool/Moves.antt =====
-- The steps of the pool's goroutines, one constructor for each access of shared memory and each
-- outcome of a test.
use agile_pool.Prelude.{
  ℕ, suc, ◌+◌, ◌-◌, ◌%◌, ◌^◌, ◌≤◌, ◌<◌, min, ◌≡◌, ◌≢◌, true, false, some, List, [], ◌∷◌, ◌++◌,
  get_elem?, take, drop, replicate,
}
use agile_pool.Prelude.Update.{update}
use agile_pool.TaskBuffer.{PushResult, erase_at}
use agile_pool.TaskBuffer.Queue
use agile_pool.TaskBuffer.Queue.{Queue, enqueue}
use agile_pool.Pool.State.{Task, Settings, Channels, Worker, Shared, Pc, System}
use agile_pool.Pool.State.{
  idle, load_closed, add_submit, load_running, cas_running, cold_start, pick_shard, select_shard,
  push_buffer, pick_again, blocked, undo, accepted, rejected, scan, pop_batch, run_task, process,
  report_done, park, add_exit, add_idle, decide, recheck, reserve, spawn_loop, scaler_closed,
  scaler_pending, scaler_stopped, close_buffer, close_channel, close_done,
}
use agile_pool.Pool.Channels.{masked, next_shard, queue, has_room, send, try_send, receive}

-- `var batch [batchSize]Task`
abbrev pub batch_size : ℕ
batch_size = 8

module _ (c : Settings) where
  abbrev pub pushed : Shared → Task → PushResult × Queue Task × Channels
  pushed m t = enqueue (try_send c) t m.buffer m.channels

  -- The shard that a worker looks at after `i` others.
  abbrev pub shard_of : Worker → ℕ → ℕ
  shard_of w i = masked c (w.cursor + i)

  abbrev pub next_seq : Shared → ℕ
  next_seq m = (m.worker_seq + 1) % 2 ^ 64

  abbrev pub start_cursor : Shared → ℕ
  start_cursor m = masked c (next_seq m)

  pub data Move (m : Shared) : Pc → Shared → Pc → Type 0 where
    submit :
        (t : Task)
        → Move m idle
            (record m { pending = suc m.pending; submitted = t ∷ m.submitted })
            (load_closed t)
    see_closed :
        {t : Task}
        → m.closed ≡ true
        → Move m (load_closed t) (record m { refused = t ∷ m.refused }) undo
    see_open : {t : Task} → m.closed ≡ false → Move m (load_closed t) m (add_submit t)
    count_submit :
        {t : Task}
        → Move m (add_submit t) (record m { submit_count = suc m.submit_count }) (load_running t)
    see_running : {t : Task} → m.running ≢ 0 → Move m (load_running t) m (pick_shard t)
    see_none : {t : Task} → m.running ≡ 0 → Move m (load_running t) m (cas_running t)
    cas_win :
        {t : Task}
        → m.running ≡ 0
        → Move m (cas_running t) (record m { running = 1 }) (cold_start t)
    cas_lose : {t : Task} → m.running ≢ 0 → Move m (cas_running t) m (pick_shard t)
    pick :
        {t : Task}
        → Move m
            (pick_shard t)
            (record m { channels = (next_shard c m.channels).1 })
            (select_shard t (next_shard c m.channels).0)
    send_now :
        {t q : ℕ}
        → has_room c m.channels q ≡ true
        → Move m (select_shard t q) (record m { channels = send m.channels q t }) accepted
    reject_now :
        {t q : ℕ}
        → has_room c m.channels q ≡ false
        → c.nonblock ≡ true
        → Move m (select_shard t q) (record m { refused = t ∷ m.refused }) undo
    overflow :
        {t q : ℕ}
        → has_room c m.channels q ≡ false
        → c.nonblock ≡ false
        → Move m (select_shard t q) m (push_buffer t)
    push_accepted :
        {t : Task}
        → (pushed m t).0 ≡ PushResult.accepted
        → Move m
            (push_buffer t)
            (record m { buffer = (pushed m t).1; channels = (pushed m t).2 })
            accepted
    push_closed :
        {t : Task}
        → (pushed m t).0 ≡ PushResult.closed
        → Move m (push_buffer t) (record m { refused = t ∷ m.refused }) undo
    push_full :
        {t : Task} → (pushed m t).0 ≡ PushResult.full → Move m (push_buffer t) m (pick_again t)
    repick :
        {t : Task}
        → Move m
            (pick_again t)
            (record m { channels = (next_shard c m.channels).1 })
            (blocked t (next_shard c m.channels).0)
    send_late :
        {t q : ℕ}
        → has_room c m.channels q ≡ true
        → Move m (blocked t q) (record m { channels = send m.channels q t }) accepted
    cancelled : {t q : ℕ} → Move m (blocked t q) (record m { refused = t ∷ m.refused }) undo
    pool_closed :
        {t q : ℕ}
        → m.close_pool_cn ≡ true
        → Move m (blocked t q) (record m { refused = t ∷ m.refused }) undo
    give_up : Move m undo (record m { pending = m.pending - 1 }) rejected
    receive_task :
        {w : Worker} {i t : ℕ} {rest : List Task}
        → i < c.shard_count
        → queue m.channels (shard_of w i) ≡ t ∷ rest
        → Move m
            (scan w i)
            (record m { channels = receive m.channels (shard_of w i) rest })
            (run_task (record w { cursor = shard_of w i }) t [])
    shard_empty :
        {w : Worker} {i : ℕ}
        → i < c.shard_count
        → queue m.channels (shard_of w i) ≡ []
        → Move m (scan w i) m (scan w (suc i))
    shards_empty : {w : Worker} {i : ℕ} → c.shard_count ≤ i → Move m (scan w i) m (pop_batch w)
    take_batch :
        {w : Worker} {t : Task} {rest : List Task}
        → take batch_size m.buffer.tasks ≡ t ∷ rest
        → Move m
            (pop_batch w)
            (record m { buffer = record (m.buffer) { tasks = drop batch_size m.buffer.tasks } })
            (run_task w t rest)
    batch_empty :
        {w : Worker} → take batch_size m.buffer.tasks ≡ [] → Move m (pop_batch w) m (park w)
    begin_task :
        {w : Worker} {t : Task} {rest : List Task}
        → Move m
            (run_task w t rest)
            (record m { consume_count = suc m.consume_count })
            (process w t rest)
    end_task :
        {w : Worker} {t : Task} {rest : List Task}
        → Move m (process w t rest) (record m { finished = t ∷ m.finished }) (report_done w rest)
    done_more :
        {w : Worker} {t : Task} {rest : List Task}
        → Move m
            (report_done w (t ∷ rest))
            (record m { pending = m.pending - 1 })
            (run_task w t rest)
    done_last :
        {w : Worker} → Move m (report_done w []) (record m { pending = m.pending - 1 }) (scan w 0)
    retire : {w : Worker} → Move m (park w) (record m { running = m.running - 1 }) (add_exit w)
    count_exit :
        {w : Worker} → Move m (add_exit w) (record m { exit_count = suc m.exit_count }) (add_idle w)
    go_idle :
        {w : Worker} → Move m (add_idle w) (record m { idle_works = m.idle_works ++ w ∷ [] }) idle
    expire : (i : ℕ) → Move m idle (record m { idle_works = erase_at m.idle_works i }) idle
    want : (n : ℕ) → n ≤ c.capacity - m.running → 0 < n → Move m decide m (recheck n)
    want_none : Move m decide m scaler_closed
    room_left :
        {n : ℕ}
        → 0 < min n (c.capacity - m.running)
        → Move m (recheck n) m (reserve (min n (c.capacity - m.running)) m.running)
    no_room : {n : ℕ} → min n (c.capacity - m.running) ≡ 0 → Move m (recheck n) m scaler_closed
    add_running :
        {k r : ℕ} → Move m (reserve k r) (record m { running = m.running + k }) (spawn_loop k)
    spawned : Move m (spawn_loop 0) m scaler_closed
    still_open : m.closed ≡ false → Move m scaler_closed m decide
    now_closed : m.closed ≡ true → Move m scaler_closed m scaler_pending
    still_pending : m.pending ≢ 0 → Move m scaler_pending m decide
    drained : m.pending ≡ 0 → Move m scaler_pending m scaler_stopped
    close : m.closed ≡ false → Move m idle (record m { closed = true }) close_buffer
    shut_buffer :
        Move m close_buffer
          (record m { buffer = record (m.buffer) { is_closed = true } })
          close_channel
    shut_channel : Move m close_channel (record m { close_pool_cn = true }) close_done

  -- A step that starts `go w.run(nil)`. Nothing is put into `workerPool`, so `Get` makes a worker.
  pub data Spawn (m : Shared) : Pc → Shared → Pc → Worker → Type 0 where
    cold :
        {t : Task}
        → Spawn m
            (cold_start t)
            (record m { create_count = suc m.create_count; worker_seq = next_seq m })
            (pick_shard t)
            (record { id = m.create_count; cursor = start_cursor m })
    reuse :
        {k : ℕ} {w : Worker} (i : ℕ)
        → get_elem? m.idle_works i ≡ some w
        → Spawn m
            (spawn_loop (suc k))
            (record m { idle_works = erase_at m.idle_works i; worker_seq = next_seq m })
            (spawn_loop k)
            (record w { cursor = start_cursor m })
    fresh :
        {k : ℕ}
        → m.idle_works ≡ []
        → Spawn m
            (spawn_loop (suc k))
            (record m { create_count = suc m.create_count; worker_seq = next_seq m })
            (spawn_loop k)
            (record { id = m.create_count; cursor = start_cursor m })

  -- Goroutines are numbered below `n`; one that has not begun, or has ended, is idle.
  pub data Step (n : ℕ) (s : System) : System → Type 0 where
    act :
        (i : ℕ) {m : Shared} {p : Pc}
        → i < n
        → Move s.shared (s.pc i) m p
        → Step n s (record { shared = m; pc = update s.pc i p })
    go :
        (i j : ℕ) {m : Shared} {p : Pc} {w : Worker}
        → i < n
        → j < n
        → i ≢ j
        → s.pc j ≡ idle
        → Spawn s.shared (s.pc i) m p w
        → Step n s (record { shared = m; pc = update (update s.pc i p) j (scan w 0) })

  abbrev pub empty_pool : Shared
  empty_pool = record {
    closed = false;
    close_pool_cn = false;
    pending = 0;
    running = 0;
    create_count = 0;
    submit_count = 0;
    consume_count = 0;
    exit_count = 0;
    worker_seq = 0;
    channels = record { send_seq = 0; queues = replicate c.shard_count [] };
    buffer = Queue.empty;
    idle_works = [];
    submitted = [];
    finished = [];
    refused = [];
  }

  -- `NewPool`: goroutine 0 is the scaler.
  abbrev pub init : System
  init = record { shared = empty_pool; pc = update (λ _. idle) 0 decide }

  pub data Reach (n : ℕ) : System → Type 0 where
    start : Reach n init
    next : {s t : System} → Reach n s → Step n s t → Reach n t
