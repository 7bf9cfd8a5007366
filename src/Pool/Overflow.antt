-- ===== src/Pool/Overflow.antt =====
-- `PushAndForward` over the handoff queue moves tasks, and neither loses nor makes any.
use agile_pool.Prelude.{ℕ, ◌+◌, ◌<◌, ◌≡◌, List, [], ◌∷◌, ◌++◌, arith, length}
use agile_pool.TaskBuffer.{PushResult}
use agile_pool.TaskBuffer.Queue.{Queue, offer, enqueue}
use agile_pool.Pool.State.{Task, Settings, Channels}
use agile_pool.Pool.Channels.{try_send, mass, mass_all, mass-append, try_send-mass}

module _ (weight : Task → ℕ) (c : Settings) (ch : Channels) (some_shard : 0 < c.shard_count)
    (shape : length ch.queues ≡ c.shard_count) where
  offer-mass :
      (ts : List Task)
      → let (ts', ch') = offer (try_send c) ts ch in
        (length ch'.queues ≡ c.shard_count)
        × (mass weight ts' + mass_all weight ch'.queues
            ≡ mass weight ts + mass_all weight ch.queues)
  unfolding offer mass
  offer-mass [] = (shape, omega arith)
  offer-mass (t ∷ ts) = ground (arith, try_send-mass weight c t ch some_shard shape)

  -- An accepted task is in the buffer or in a shard; otherwise nothing has moved.
  pub enqueue-mass :
      (t : Task) (b : Queue Task)
      → let (r, b', ch') = enqueue (try_send c) t b ch in
        (r ≡ PushResult.accepted
          → (length ch'.queues ≡ c.shard_count)
            × (mass weight b'.tasks + mass_all weight ch'.queues
                ≡ weight t + (mass weight b.tasks + mass_all weight ch.queues)))
  unfolding enqueue mass
  enqueue-mass t b =
      ground (arith, offer-mass (b.tasks ++ t ∷ []), mass-append weight b.tasks (t ∷ []))
