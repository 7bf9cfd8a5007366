-- ===== src/Pool/Tests.antt =====
-- Runs of a small pool: one shard with one slot, capacity 1.
use agile_pool.Prelude.{◌+◌, ◌-◌, ◌*◌, ◌^◌, ◌≤◌, ◌≡◌, refl, true, false, [], ◌∷◌, replicate, arith}
use agile_pool.Prelude.Threads.{total}
use agile_pool.Histogram.Tracks.{occurrences}
use agile_pool.Pool.State.{Settings, Channels, System}
use agile_pool.Pool.Spread.{picks, round_robin}
use agile_pool.Pool.Getters.{answered, next_queue, queues_done, add_buffer}
use agile_pool.Pool.Watching.{Watch, call, look, meanwhile, in_shards, in_queues, queued_tasks-Near}
use agile_pool.Pool.Closing.{closes_once}
use agile_pool.Pool.Channels.{next_shard, has_room, send, receive, mass}
use agile_pool.Pool.Moves
use agile_pool.Pool.Moves.{Reach, start, next, act, go}
use agile_pool.Pool.Account.{held, queued}
use agile_pool.Pool.Workers.{works, parked}
use agile_pool.Pool.Capacity.{one_worker, running-le, capacity_exceeded}
use agile_pool.Pool.Safety.{
  is, tasks_conserved, settled_when_drained, worker_exclusive, scaler_stops_last,
}

abbrev tiny : Settings
tiny = record { shard_count = 1; shard_cap = 1; capacity = 1; nonblock = false }

-- Goroutine 1 submits task 7 to a pool with no worker, and goroutine 2 becomes worker 0.
abbrev submitted : (s : System) × Reach tiny 4 s
unfolding next_shard has_room send
submitted = (
  _,
  next
      (next
        (next
          (next
            (next
              (next
                (next (next start (act 1 (omega arith) (Moves.submit 7)))
                  (act 1 (omega arith) (Moves.see_open refl)))
                (act 1 (omega arith) Moves.count_submit))
              (act 1 (omega arith) (Moves.see_none refl)))
            (act 1 (omega arith) (Moves.cas_win refl)))
          (go 1 2 (omega arith) (omega arith) (omega arith) refl Moves.cold))
        (act 1 (omega arith) Moves.pick))
      (act 1 (omega arith) (Moves.send_now refl)),
)

-- The worker has run the task and called `done`.
abbrev worked : (s : System) × Reach tiny 4 s
unfolding next_shard has_room send receive
worked = (
  _,
  next
      (next
        (next (next submitted.1 (act 2 (omega arith) (Moves.receive_task (omega arith) refl)))
          (act 2 (omega arith) Moves.begin_task))
        (act 2 (omega arith) Moves.end_task))
      (act 2 (omega arith) Moves.done_last),
)

-- The pool is closed, and the scaler has seen that.
abbrev stopped : (s : System) × Reach tiny 4 s
unfolding next_shard has_room send receive
stopped = (
  _,
  next
      (next
        (next (next worked.1 (act 3 (omega arith) (Moves.close refl)))
          (act 0 (omega arith) Moves.want_none))
        (act 0 (omega arith) (Moves.now_closed refl)))
      (act 0 (omega arith) (Moves.drained refl)),
)

tasks_conserved_example :
    mass (is 7) submitted.0.shared.submitted
    ≡ total (held (is 7)) 4 submitted.0.pc
      + queued (is 7) submitted.0.shared
      + mass (is 7) submitted.0.shared.finished
      + mass (is 7) submitted.0.shared.refused
tasks_conserved_example = tasks_conserved (omega arith) submitted.1 7

settled_when_drained_example :
    mass (is 7) worked.0.shared.submitted
    ≡ mass (is 7) worked.0.shared.finished + mass (is 7) worked.0.shared.refused
unfolding worked
settled_when_drained_example = settled_when_drained (omega arith) worked.1 refl 7

running-le_example : submitted.0.shared.running ≤ 1 + 1
running-le_example = running-le submitted.1

worker_exclusive_example : parked 0 submitted.0.shared.idle_works ≡ 0
unfolding submitted
worker_exclusive_example =
    (worker_exclusive submitted.1 0 2 3 (omega arith) (omega arith) (omega arith) refl).0

scaler_stops_last_example : stopped.0.shared.closed ≡ true
unfolding stopped
scaler_stops_last_example = (scaler_stops_last (omega arith) stopped.1 0 1 (omega arith) refl).0

capacity_exceeded_example :
    (s : System) × Reach (one_worker 1 1 false) 4 s
    × (s.shared.running ≡ 2)
    × (works (s.pc 2) ≡ 1)
    × (works (s.pc 3) ≡ 1)
capacity_exceeded_example = capacity_exceeded 1 1 false

-- The worker takes the task after the call has looked at the shard.
abbrev watched : (t : System) × Watch tiny 4 submitted.0 t 1 (answered 1 1)
unfolding submitted receive
watched = (
  _,
  look add_buffer (
      look (queues_done (omega arith)) (
        meanwhile (act 2 (omega arith) (Moves.receive_task (omega arith) refl))
          (look (next_queue (omega arith)) (call submitted.1)))),
)

queued_tasks-Near_example :
    (1 ≤ 1 * 1)
    × (1 ≤ in_shards submitted.0 + 1)
    × (in_shards submitted.0 ≤ 1 + 1)
    × (1 ≤ in_queues submitted.0 + 1)
    × (1 ≤ submitted.0.shared.pending + 1)
    × (in_queues submitted.0 ≤ 1 + 8 * 1)
queued_tasks-Near_example = queued_tasks-Near (omega arith) watched.1

-- Goroutine 3 has closed the buffer.
abbrev closing : (s : System) × Reach tiny 4 s
closing = (
  _,
  next (next start (act 3 (omega arith) (Moves.close refl)))
      (act 3 (omega arith) Moves.shut_buffer),
)

closes_once_example : closing.0.shared.close_pool_cn ≡ false
closes_once_example = (closes_once 3 3 closing.1 (omega arith) (omega arith) refl).0

-- Four shards, and a cursor that is about to wrap.
abbrev four : Settings
four = record { shard_count = 4; shard_cap = 1; capacity = 1; nonblock = false }

abbrev wrapping : Channels
wrapping = record { send_seq = 2 ^ 64 - 2; queues = replicate 4 [] }

picked : picks four 4 wrapping ≡ 3 ∷ 0 ∷ 1 ∷ 2 ∷ []
unfolding picks
picked = refl

round_robin_example : occurrences 3 (picks four 4 wrapping) ≡ 1
round_robin_example = round_robin four wrapping 2 3 (omega arith) refl (omega arith)
