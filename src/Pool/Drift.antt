-- ===== src/Pool/Drift.antt =====
-- How much one step of the pool changes what a call of queuedTasks has still to count.
use agile_pool.Prelude.{
  ℕ, zero, suc, ◌+◌, ◌-◌, ◌≤◌, ◌≡◌, refl, ap, false, Bool-cases, inl, inr, List, [], ◌∷◌, ◌++◌,
  arith, leb, length, get_or, set, drop, length-append, length-drop,
}
use agile_pool.TaskBuffer.{max_chunk_len}
use agile_pool.TaskBuffer.Queue.{Queue, offer, enqueue}
use agile_pool.Pool.State.{Task, Settings, Channels, Worker, Shared, Pc}
use agile_pool.Pool.Channels.{next_shard, queue, has_room, send, try_send, receive, mass, mass_all}
use agile_pool.Pool.Moves.{
  batch_size, shard_of, Move, Spawn, submit, send_now, push_accepted, send_late, receive_task,
  take_batch, cold, reuse, fresh,
}
use agile_pool.Pool.Account.{one}

pub mass-length : (xs : List Task) → mass one xs ≡ length xs
unfolding mass
mass-length [] = refl
mass-length (x ∷ xs) = omega (arith, mass-length xs)

-- The tasks in the shards from number `i` on.
abbrev pub unread : ℕ → Channels → ℕ
unread i ch = mass_all one (drop i ch.queues)

-- At most one task more or less in the shards, and in both at most one more and a batch less.
pub record Drift (u b u' b' : ℕ) : Type 0 where
  pub shards_most : u' ≤ u + 1
  pub shards_least : u ≤ u' + 1
  pub buffer_most : b' ≤ b + 1
  pub buffer_least : b ≤ b' + batch_size
  pub most : u' + b' ≤ u + b + 1
  pub least : u + b ≤ u' + b' + batch_size

unread-set :
    (qs : List (List Task)) (i q : ℕ) (new : List Task)
    → (mass_all one (drop i (set qs q new))
        ≤ mass_all one (drop i qs) + (length new - length (get_or qs q [])))
      × (mass_all one (drop i qs)
          ≤ mass_all one (drop i (set qs q new)) + (length (get_or qs q []) - length new))
unfolding mass_all
unread-set [] zero q new = (omega arith, omega arith)
unread-set [] (suc i) q new = (omega arith, omega arith)
unread-set (x ∷ qs) zero zero new =
    (omega (arith, mass-length x, mass-length new), omega (arith, mass-length x, mass-length new))
unread-set (x ∷ qs) zero (suc q) new =
    (omega (arith, unread-set qs 0 q new), omega (arith, unread-set qs 0 q new))
unread-set (x ∷ qs) (suc i) zero new = (omega arith, omega arith)
unread-set (x ∷ qs) (suc i) (suc q) new = unread-set qs i q new

module _ (i : ℕ) where
  -- A send adds one task, or none where it is not looked any more.
  unread-send :
      (ch : Channels) (q : ℕ) (t : Task)
      → (unread i ch ≤ unread i (send ch q t)) × (unread i (send ch q t) ≤ unread i ch + 1)
  unfolding send
  unread-send ch q t =
      let e = length-append (queue ch q) (t ∷ []) in
      let h = unread-set ch.queues i q (queue ch q ++ t ∷ []) in
      (omega (arith, e, h), omega (arith, e, h))

  unread-try_send :
      (c : Settings) (t : Task) (ch : Channels)
      → let ch' = (try_send c t ch).1 in
        (unread i ch ≤ unread i ch') × (unread i ch' ≤ unread i ch + 1)
  unfolding try_send next_shard
  unread-try_send c t ch =
      let (q, ch') = next_shard c ch in
      elim (Bool-cases (has_room c ch' q)) [
        | inl room ↦ rw room (unread-send ch' q t)
        | inr none_ ↦ rw none_ (omega arith, omega arith)
      ]

  stay-Drift : (u b : ℕ) → Drift u b u b
  stay-Drift u b = omega arith

  -- What an offer takes out of the buffer is in a shard.
  try_send-unread_sent :
      (c : Settings) (t : Task) (ch : Channels)
      → (try_send c t ch).0 ≡ false
      → unread i (try_send c t ch).1 ≡ unread i ch
  unfolding try_send next_shard
  try_send-unread_sent c t ch e =
      elim (Bool-cases (has_room c (next_shard c ch).1 (next_shard c ch).0)) [
        | inl room ↦ ground arith
        | inr none_ ↦ rw none_ refl
      ]

  offer-Drift :
      (c : Settings) (ts : List Task) (ch : Channels)
      → let (ts', ch') = offer (try_send c) ts ch in
        (unread i ch ≤ unread i ch')
        × (unread i ch' ≤ unread i ch + 1)
        × (length ts ≤ length ts' + 1)
        × (length ts' ≤ length ts)
        × (unread i ch' + length ts' ≤ unread i ch + length ts)
  unfolding offer
  offer-Drift c [] ch = (omega arith, omega arith, omega arith, omega arith, omega arith)
  offer-Drift c (t ∷ ts) ch =
      let h = unread-try_send c t ch in
      elim (Bool-cases (try_send c t ch).0) [
        | inl sent ↦ rw sent (h.0, h.1, omega arith, omega arith, omega (arith, h))
        | inr kept ↦
            rw kept
              (h.0, h.1, omega arith, omega arith, omega (arith, try_send-unread_sent c t ch kept))
      ]

  enqueue-Drift :
      (c : Settings) (t : Task) (b : Queue Task) (ch : Channels)
      → let (_, b', ch') = enqueue (try_send c) t b ch in
        Drift (unread i ch) (length b.tasks) (unread i ch') (length b'.tasks)
  unfolding enqueue
  enqueue-Drift c t b ch = elim (Bool-cases b.is_closed) [
    | inl shut ↦ rw shut (stay-Drift _ _)
    | inr open_ ↦ rw open_ (elim (Bool-cases (leb max_chunk_len (length b.tasks))) [
      | inl full_ ↦ rw full_ (stay-Drift _ _)
      | inr more ↦
          let h = offer-Drift c (b.tasks ++ t ∷ []) ch in
          let e = length-append b.tasks (t ∷ []) in rw more omega (arith, h, e)
    ])
  ]

  send-Drift :
      (ch : Channels) (q : ℕ) (t : Task) (b : ℕ) → Drift (unread i ch) b (unread i (send ch q t)) b
  send-Drift ch q t b = let h = unread-send ch q t in omega (arith, h)

  receive-Drift :
      (ch : Channels) (q t : ℕ) (rest : List Task) (b : ℕ)
      → queue ch q ≡ t ∷ rest
      → Drift (unread i ch) b (unread i (receive ch q rest)) b
  unfolding receive
  receive-Drift ch q t rest b e =
      let h = unread-set ch.queues i q rest in
      let one_less : length (queue ch q) ≡ suc (length rest) = ap (length {A = Task}) e in
      omega (arith, h, one_less)

  batch-Drift : (u : ℕ) (ts : List Task) → Drift u (length ts) u (length (drop batch_size ts))
  batch-Drift u ts = let e = length-drop batch_size ts in omega (arith, e)

  pub Move-Drift :
      (c : Settings) {m m' : Shared} {p p' : Pc}
      → Move c m p m' p'
      → Drift
          (unread i m.channels)
          (length m.buffer.tasks)
          (unread i m'.channels)
          (length m'.buffer.tasks)
  unfolding next_shard
  Move-Drift c (submit t) = stay-Drift _ _
  Move-Drift c {m} {p = Pc.select_shard t q} (send_now room) =
      send-Drift m.channels q t (length m.buffer.tasks)
  Move-Drift c {m} {p = Pc.blocked t q} (send_late room) =
      send-Drift m.channels q t (length m.buffer.tasks)
  Move-Drift c {m} {p = Pc.push_buffer t} (push_accepted e) = enqueue-Drift c t m.buffer m.channels
  Move-Drift c {m} (receive_task {w} {i = k} {t} {rest} lt e) =
      receive-Drift m.channels (shard_of c w k) t rest (length m.buffer.tasks) e
  Move-Drift c {m} (take_batch e) = batch-Drift (unread i m.channels) m.buffer.tasks
  Move-Drift c mv = stay-Drift _ _

  pub Spawn-Drift :
      (c : Settings) {m m' : Shared} {p p' : Pc} {w : Worker}
      → Spawn c m p m' p' w
      → Drift
          (unread i m.channels)
          (length m.buffer.tasks)
          (unread i m'.channels)
          (length m'.buffer.tasks)
  Spawn-Drift c cold = stay-Drift _ _
  Spawn-Drift c (reuse k e) = stay-Drift _ _
  Spawn-Drift c (fresh e) = stay-Drift _ _
