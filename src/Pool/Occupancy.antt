-- ===== src/Pool/Occupancy.antt =====
-- No shard holds more than it has slots.
use agile_pool.Prelude.{
  ℕ, zero, suc, ◌≤◌, ◌≡◌, ap, true, Bool-cases, inl, inr, List, [], ◌∷◌, ◌++◌, arith, leb,
  replicate, length, get_or, set, length-append,
}
use agile_pool.TaskBuffer.{max_chunk_len}
use agile_pool.TaskBuffer.Queue.{Queue, offer, enqueue}
use agile_pool.Pool.State.{Task, Settings, Channels, Worker, Shared, Pc, System}
use agile_pool.Pool.Channels.{next_shard, queue, has_room, send, try_send, receive}
use agile_pool.Pool.Moves.{
  shard_of, Move, Spawn, act, go, Reach, start, next, submit, pick, repick, send_now, push_accepted,
  send_late, receive_task, cold, reuse, fresh,
}

-- No shard holds more than it has slots.
abbrev pub Fits : Settings → List (List Task) → Type 0
Fits c qs = (j : ℕ) → length (get_or qs j []) ≤ c.shard_cap

module _ (c : Settings) where
  Fits-set :
      (qs : List (List Task)) (i : ℕ) (new : List Task)
      → length new ≤ c.shard_cap
      → Fits c qs
      → Fits c (set qs i new)
  Fits-set [] i new le h j = h j
  Fits-set (q ∷ qs) zero new le h zero = le
  Fits-set (q ∷ qs) zero new le h (suc j) = h (suc j)
  Fits-set (q ∷ qs) (suc i) new le h zero = h 0
  Fits-set (q ∷ qs) (suc i) new le h (suc j) = Fits-set qs i new le (λ k. h (suc k)) j

  send-Fits :
      (ch : Channels) (q : ℕ) (t : Task)
      → has_room c ch q ≡ true
      → Fits c ch.queues
      → Fits c (send ch q t).queues
  unfolding send has_room
  send-Fits ch q t room h =
      Fits-set ch.queues q (queue ch q ++ t ∷ [])
        (ground (arith, length-append (queue ch q) (t ∷ []))) h

  next_shard-Fits : (ch : Channels) → Fits c ch.queues → Fits c (next_shard c ch).1.queues
  unfolding next_shard
  next_shard-Fits ch h = h

  try_send-Fits : (t : Task) (ch : Channels) → Fits c ch.queues → Fits c (try_send c t ch).1.queues
  unfolding try_send
  try_send-Fits t ch h =
      let (q, ch') = next_shard c ch in
      elim (Bool-cases (has_room c ch' q)) [
        | inl room ↦ rw room (send-Fits ch' q t room (next_shard-Fits ch h))
        | inr none_ ↦ rw none_ (next_shard-Fits ch h)
      ]

  offer-Fits :
      (ts : List Task) (ch : Channels)
      → Fits c ch.queues
      → Fits c (offer (try_send c) ts ch).1.queues
  unfolding offer
  offer-Fits [] ch h = h
  offer-Fits (t ∷ ts) ch h = try_send-Fits t ch h

  enqueue-Fits :
      (t : Task) (b : Queue Task) (ch : Channels)
      → Fits c ch.queues
      → Fits c (enqueue (try_send c) t b ch).2.queues
  unfolding enqueue
  enqueue-Fits t b ch h = elim (Bool-cases b.is_closed) [
    | inl shut ↦ rw shut h
    | inr open_ ↦ rw open_ (elim (Bool-cases (leb max_chunk_len (length b.tasks))) [
      | inl full_ ↦ rw full_ h
      | inr more ↦ rw more (offer-Fits (b.tasks ++ t ∷ []) ch h)
    ])
  ]

  receive-Fits :
      (ch : Channels) (q t : ℕ) (rest : List Task)
      → queue ch q ≡ t ∷ rest
      → Fits c ch.queues
      → Fits c (receive ch q rest).queues
  unfolding receive
  receive-Fits ch q t rest e h =
      Fits-set ch.queues q rest (omega (arith, ap (length {A = Task}) e, h q)) h

  Move-Fits :
      {m m' : Shared} {p p' : Pc}
      → Move c m p m' p'
      → Fits c m.channels.queues
      → Fits c m'.channels.queues
  Move-Fits (submit t) h = h
  Move-Fits {m} pick h = next_shard-Fits m.channels h
  Move-Fits {m} repick h = next_shard-Fits m.channels h
  Move-Fits {m} {p = Pc.select_shard t q} (send_now room) h = send-Fits m.channels q t room h
  Move-Fits {m} {p = Pc.blocked t q} (send_late room) h = send-Fits m.channels q t room h
  Move-Fits {m} {p = Pc.push_buffer t} (push_accepted e) h = enqueue-Fits t m.buffer m.channels h
  Move-Fits {m} (receive_task {w} {i} {t} {rest} lt e) h =
      receive-Fits m.channels (shard_of c w i) t rest e h
  Move-Fits mv h = h

  Spawn-Fits :
      {m m' : Shared} {p p' : Pc} {w : Worker}
      → Spawn c m p m' p' w
      → Fits c m.channels.queues
      → Fits c m'.channels.queues
  Spawn-Fits cold h = h
  Spawn-Fits (reuse i e) h = h
  Spawn-Fits (fresh e) h = h

  Fits-replicate : (k : ℕ) → Fits c (replicate k [])
  Fits-replicate zero j = omega arith
  Fits-replicate (suc k) zero = omega arith
  Fits-replicate (suc k) (suc j) = Fits-replicate k j

  pub Reach-Fits : {n : ℕ} {s : System} → Reach c n s → Fits c s.shared.channels.queues
  Reach-Fits start = Fits-replicate c.shard_count
  Reach-Fits (next r (act i lt mv)) = Move-Fits mv (Reach-Fits r)
  Reach-Fits (next r (go i j lt lt' ne e sp)) = Spawn-Fits sp (Reach-Fits r)
