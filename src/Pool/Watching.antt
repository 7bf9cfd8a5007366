-- ===== src/Pool/Watching.antt =====
-- pool.go: a call of queuedTasks while other goroutines go on.
use agile_pool.Prelude.{ℕ, suc, ◌+◌, ◌*◌, ◌≤◌, ◌<◌, ◌≡◌, ap, ◌∙◌, [], arith, length}
use agile_pool.Prelude.Slices.{drop-get_or, drop-all}
use agile_pool.Pool.State.{Settings, Channels, Shared, System}
use agile_pool.Pool.Channels.{queue, mass_all}
use agile_pool.Pool.Moves.{batch_size, Step, act, go, Reach, next}
use agile_pool.Pool.Getters.{
  Counting, adding, counted, answered, Look, next_queue, queues_done, add_buffer,
}
use agile_pool.Pool.Drift.{Drift, unread, Move-Drift, Spawn-Drift, mass-length}
use agile_pool.Pool.Account.{one, Reach-Account}
use agile_pool.Pool.Occupancy.{Fits, Reach-Fits}

-- A step of a goroutine, or one that starts a worker.
Step-Drift :
    (c : Settings) {n : ℕ} {s t : System}
    → Step c n s t
    → (i : ℕ)
    → Drift
        (unread i s.shared.channels)
        (length s.shared.buffer.tasks)
        (unread i t.shared.channels)
        (length t.shared.buffer.tasks)
Step-Drift c (act k lt mv) i = Move-Drift i c mv
Step-Drift c (go k j lt lt' ne e sp) i = Spawn-Drift i c sp

-- A call of queuedTasks that begins in the state `s`, after `moves` steps of the goroutines
-- meanwhile, in the state `t`.
pub data Watch (c : Settings) (n : ℕ) (s : System) : System → ℕ → Counting → Type 0 where
  call : Reach c n s → Watch c n s s 0 (adding 0 0)
  look :
      {t : System} {moves : ℕ} {r r' : Counting}
      → Look c t.shared r r'
      → Watch c n s t moves r
      → Watch c n s t moves r'
  meanwhile :
      {t t' : System} {moves : ℕ} {r : Counting}
      → Step c n t t'
      → Watch c n s t moves r
      → Watch c n s t' (suc moves) r

-- What is queued in the shards, and in the shards and the buffer.
abbrev pub in_shards : System → ℕ
in_shards s = mass_all one s.shared.channels.queues

abbrev pub in_queues : System → ℕ
in_queues s = in_shards s + length s.shared.buffer.tasks

-- A count that was begun in `s` and comes to `shards` and `all`, after `moves` steps.
abbrev Near : System → (moves shards all : ℕ) → Type 0
Near s moves shards all =
    (shards ≤ in_shards s + moves)
    × (in_shards s ≤ shards + moves)
    × (all ≤ in_queues s + moves)
    × (in_queues s ≤ all + batch_size * moves)

-- What the call has counted, with what it would still find.
abbrev Counts : Settings → System → Shared → ℕ → Counting → Type 0
Counts c s m moves (adding i total) =
    Near s moves (total + unread i m.channels) (total + unread i m.channels + length m.buffer.tasks)
    × (total ≤ i * c.shard_cap)
    × (i ≤ c.shard_count)
Counts c s m moves (counted total) =
    Near s moves total (total + length m.buffer.tasks) × (total ≤ c.shard_count * c.shard_cap)
Counts c s m moves (answered q k) = Near s moves q k × (q ≤ c.shard_count * c.shard_cap)

-- A step of the goroutines.
Drift-Counts :
    (c : Settings) (s : System) (m m' : Shared) (moves : ℕ) (r : Counting)
    → ((i : ℕ)
        → Drift
            (unread i m.channels)
            (length m.buffer.tasks)
            (unread i m'.channels)
            (length m'.buffer.tasks))
    → Counts c s m moves r
    → Counts c s m' (suc moves) r
Drift-Counts c s m m' moves (adding i total) d h = omega (arith, d i, h)
Drift-Counts c s m m' moves (counted total) d h = omega (arith, d 0, h)
Drift-Counts c s m m' moves (answered q k) d h = omega (arith, h)

unread-suc :
    (ch : Channels) (i : ℕ)
    → i < length ch.queues
    → unread i ch ≡ length (queue ch i) + unread (suc i) ch
unfolding mass_all
unread-suc ch i lt =
    ap (mass_all one) (drop-get_or i ch.queues [] lt)
    ∙ ap (◌+ unread (suc i) ch) (mass-length (queue ch i))

unread-end : (ch : Channels) (i : ℕ) → length ch.queues ≤ i → unread i ch ≡ 0
unfolding mass_all
unread-end ch i le = ap (mass_all one) (drop-all i ch.queues le)

Look-Counts :
    (c : Settings) (s : System) (m : Shared) (moves : ℕ) {r r' : Counting}
    → length m.channels.queues ≡ c.shard_count
    → Fits c m.channels.queues
    → Look c m r r'
    → Counts c s m moves r
    → Counts c s m moves r'
Look-Counts c s m moves shape fits (next_queue {i} {total} lt) h =
    let e = unread-suc m.channels i (omega (arith, shape, lt)) in
    let more : suc i * c.shard_cap ≡ c.shard_cap + i * c.shard_cap = grind arith in
    omega (arith, e, h, lt, fits i, more)
Look-Counts c s m moves shape fits (queues_done {i} {total} le) h =
    let e = unread-end m.channels i (omega (arith, shape, le)) in
    let last : i ≡ c.shard_count = omega (arith, le, h) in
    omega (arith, e, h, ap (λ (k : ℕ). k * c.shard_cap) last)
Look-Counts c s m moves shape fits add_buffer h = h

Watch-Counts :
    {c : Settings} {n : ℕ} {s t : System} {moves : ℕ} {r : Counting}
    → 0 < c.shard_count
    → Watch c n s t moves r
    → Reach c n t × Counts c s t.shared moves r
Watch-Counts h (call reach) = (reach, omega arith)
Watch-Counts {c} {s} {t} {moves} h (look l w) =
    let (reach, counts) = Watch-Counts h w in
    (
      reach,
      Look-Counts c s t.shared moves (Reach-Account h reach).shape (Reach-Fits c reach) l counts,
    )
Watch-Counts {c} {s} h (meanwhile {t} {t'} {moves} {r} st w) =
    let (reach, counts) = Watch-Counts h w in
    (next reach st, Drift-Counts c s t.shared t'.shared moves r (Step-Drift c st) counts)

Watch-Reach :
    {c : Settings} {n : ℕ} {s t : System} {moves : ℕ} {r : Counting}
    → Watch c n s t moves r
    → Reach c n s
Watch-Reach (call reach) = reach
Watch-Reach (look l w) = Watch-Reach w
Watch-Reach (meanwhile st w) = Watch-Reach w

-- A call of queuedTasks that begins in a reachable state of a pool with a shard, and during which
-- the other goroutines make some steps between its looks at the shards and at the buffer: what
-- GetTaskQueueLen returns in it is at most the room in all shards, and differs from what the shards
-- held when the call began by the number of these steps at most. What queuedTasks returns is at most
-- that number more than what all queues held then, or than pendingTasks was, and at most eight times
-- that number less than what all queues held.
pub queued_tasks-Near :
    {c : Settings} {n : ℕ} {s t : System} {moves len all : ℕ}
    → 0 < c.shard_count
    → Watch c n s t moves (answered len all)
    → (len ≤ c.shard_count * c.shard_cap)
      × (len ≤ in_shards s + moves)
      × (in_shards s ≤ len + moves)
      × (all ≤ in_queues s + moves)
      × (all ≤ s.shared.pending + moves)
      × (in_queues s ≤ all + 8 * moves)
queued_tasks-Near {s} h w =
    let a = Reach-Account h (Watch-Reach w) in
    let counts = (Watch-Counts h w).1 in
    omega (arith, counts, a.counted, mass-length s.shared.buffer.tasks)
