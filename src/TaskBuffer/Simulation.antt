-- ===== src/TaskBuffer/Simulation.antt =====
-- No sequence of calls tells the buffer from the queue of its tasks.
use agile_pool.Prelude.{
  ℕ, ◌≤◌, ◌≡◌, refl, sym, ap, ap₂, subst, ◌∙◌, Bool, arith, List, [], ◌∷◌, ◌++◌, leb, length,
  length-append, length-drop, Bool-cases, inl, inr,
}
use agile_pool.TaskBuffer.{
  Buffer, PushResult, max_chunk_len, new, len, close, push_tail, forward_oldest, pop_batch,
  push_and_forward,
}
use agile_pool.TaskBuffer.Queue.{
  Queue, Op, push, batch, size, shut, Reply, pushed, popped, counted, done, offer, enqueue,
}
use agile_pool.TaskBuffer.Queue
use agile_pool.TaskBuffer.Valid.{close-Valid}
use agile_pool.TaskBuffer.Closed.{closed-forward_oldest, closed-push_tail, closed-pop_batch}
use agile_pool.TaskBuffer.Refine.{
  Holds, new-Holds, peek_head-Holds, pop_head-Holds, push_tail-Holds, pop_batch-Holds, Holds-len,
}

abbrev pub ops_of {ℓ} : {A : Type ℓ} → List (Op A × ℕ) → List (Op A)
ops_of [] = []
ops_of ((o, pick) ∷ os) = o ∷ ops_of os

module _ {ℓ κ} {A : Type ℓ} {S : Type κ} (zero_task : A) (try_forward : A → S → Bool × S) where
  -- The methods of `chunkedTaskBuffer`, with the choice that `sync.Pool.Get` makes in the call.
  unfoldable pub call : Op A → ℕ → Buffer A → S → Reply A × Buffer A × S
  call (push x) pick b s =
      let (r, b', s') = push_and_forward zero_task try_forward pick x b s in (pushed r, b', s')
  call (batch n) pick b s = let (ts, b') = pop_batch zero_task n b in (popped ts, b', s)
  call size pick b s = (counted (len b), b, s)
  call shut pick b s = (done, close b, s)

  unfoldable pub run : List (Op A × ℕ) → Buffer A → S → List (Reply A) × Buffer A × S
  unfolding call
  run [] b s = ([], b, s)
  run ((o, pick) ∷ os) b s =
      let (r, b', s') = call o pick b s in let (rs, b'', s'') = run os b' s' in (r ∷ rs, b'', s'')

  pub record Simulates (b : Buffer A) (q : Queue A) : Type ℓ where
    pub holds : Holds b q.tasks
    pub flag : b.overflow_closed ≡ q.is_closed

  -- The outcome of a call on the buffer is that of the call on the queue.
  pub record Agrees (c : PushResult × Buffer A × S) (q : PushResult × Queue A × S)
      : Type (ℓ ⊔ κ) where
    pub reply : c.0 ≡ q.0
    pub state : Simulates c.1 q.1
    pub other : c.2 ≡ q.2

  forward_oldest-Holds :
      (b : Buffer A) (ts : List A) (s : S)
      → Holds b ts
      → Holds (forward_oldest zero_task try_forward b s).0 (offer try_forward ts s).0
        × ((forward_oldest zero_task try_forward b s).1 ≡ (offer try_forward ts s).1)
  unfolding forward_oldest offer
  forward_oldest-Holds b [] s h =
      let p = peek_head-Holds b [] h in rw (p.0, forward_oldest) (p.1, refl)
  forward_oldest-Holds b (t ∷ ts) s h =
      let p = peek_head-Holds b (t ∷ ts) h in
      let q = pop_head-Holds zero_task _ (t ∷ ts) p.1 in
      rw (p.0, forward_oldest)
        (elim (Bool-cases (try_forward t s).0) [
          | inl sent ↦ rw sent (q.1, refl)
          | inr kept ↦ rw kept (p.1, refl)
        ])

  pub push_and_forward-Agrees :
      (pick : ℕ) (x : A) (b : Buffer A) (q : Queue A) (s : S)
      → Simulates b q
      → Agrees (push_and_forward zero_task try_forward pick x b s) (enqueue try_forward x q s)
  unfolding push_and_forward enqueue
  push_and_forward-Agrees pick x b q s v = elim (Bool-cases q.is_closed) [
    | inl stopped ↦ simp (v.flag, stopped) record { reply = refl; state = v; other = refl }
    | inr usable ↦
        simp (v.flag, usable, v.holds.1.counted)
          (elim (Bool-cases (leb max_chunk_len (length q.tasks))) [
            | inl over ↦ simp over record { reply = refl; state = v; other = refl }
            | inr room ↦
                let h = push_tail-Holds zero_task pick x b q.tasks v.holds in
                let f =
                  forward_oldest-Holds (push_tail zero_task pick x b) (q.tasks ++ x ∷ []) s h in
                let g =
                  closed-forward_oldest zero_task try_forward (push_tail zero_task pick x b) s
                  ∙ closed-push_tail zero_task pick x b
                  ∙ v.flag
                  ∙ usable in
                simp room
                  record { reply = refl; state = record { holds = f.0; flag = g }; other = f.1 }
          ])
  ]

  new-Simulates : Simulates (new zero_task) Queue.empty
  unfolding new
  new-Simulates = record { holds = new-Holds zero_task; flag = refl }

  -- `close` and `Len` too.
  call-Simulates :
      (o : Op A) (pick : ℕ) (b : Buffer A) (q : Queue A) (s : S)
      → Simulates b q
      → ((call o pick b s).0 ≡ (Queue.step try_forward o q s).0)
        × Simulates (call o pick b s).1 (Queue.step try_forward o q s).1
        × ((call o pick b s).2 ≡ (Queue.step try_forward o q s).2)
  unfolding call close Queue.step
  call-Simulates (push x) pick b q s v =
      let a = push_and_forward-Agrees pick x b q s v in (ap pushed a.reply, a.state, a.other)
  call-Simulates (batch n) pick b q s v =
      let p = pop_batch-Holds zero_task n b q.tasks v.holds in
      let f = closed-pop_batch zero_task n b ∙ v.flag in
      (ap popped p.0, record { holds = p.1; flag = f }, refl)
  call-Simulates size pick b q s v = (ap counted (Holds-len b q.tasks v.holds), v, refl)
  call-Simulates shut pick b q s v =
      (refl, record { holds = (v.holds.0, close-Valid b _ _ v.holds.1); flag = refl }, refl)

  -- The replies of a run are those of the queue, whatever `sync.Pool` hands out.
  run-Simulates :
      (os : List (Op A × ℕ)) (b : Buffer A) (q : Queue A) (s : S)
      → Simulates b q
      → ((run os b s).0 ≡ (Queue.run try_forward (ops_of os) q s).0)
        × Simulates (run os b s).1 (Queue.run try_forward (ops_of os) q s).1
        × ((run os b s).2 ≡ (Queue.run try_forward (ops_of os) q s).2)
  unfolding run Queue.run
  run-Simulates [] b q s v = (refl, v, refl)
  run-Simulates ((o, pick) ∷ os) b q s v =
      let c = call-Simulates o pick b q s v in
      let b' = (call o pick b s).1 in
      let q' = (Queue.step try_forward o q s).1 in
      let r = run-Simulates os b' q' (Queue.step try_forward o q s).2 c.1 in
      (
        ap₂ ◌∷◌ c.0 (ap (λ t. (run os b' t).0) c.2 ∙ r.0),
        subst
            (λ t.
              Simulates (run os b' t).1
                (Queue.run try_forward (ops_of os) q' (Queue.step try_forward o q s).2).1)
            (sym c.2) r.1,
        ap (λ t. (run os b' t).2) c.2 ∙ r.2,
      )

  -- Whatever chunks `sync.Pool` hands out, a new buffer replies to every sequence of calls as the
  -- bounded queue does, offers the same tasks to `tryForward`, and ends well formed, with the
  -- tasks of the queue in it.
  pub run-new :
      (os : List (Op A × ℕ)) (s : S)
      → let c = run os (new zero_task) s in
        let q = Queue.run try_forward (ops_of os) Queue.empty s in
        (c.0 ≡ q.0) × Simulates c.1 q.1 × (c.2 ≡ q.2)
  run-new os s = run-Simulates os (new zero_task) Queue.empty s new-Simulates

  -- The queue never holds more than `max_chunk_len` tasks.
  length-offer-le : (ts : List A) (s : S) → length (offer try_forward ts s).0 ≤ length ts
  unfolding offer
  length-offer-le [] s = omega arith
  length-offer-le (t ∷ ts) s = ground arith

  step_bounded :
      (o : Op A) (q : Queue A) (s : S)
      → length q.tasks ≤ max_chunk_len
      → length (Queue.step try_forward o q s).1.tasks ≤ max_chunk_len
  unfolding Queue.step
  step_bounded (push x) q s h =
      ground (arith, length-offer-le (q.tasks ++ x ∷ []) s, length-append q.tasks (x ∷ []))
  step_bounded (batch n) q s h = omega (arith, length-drop n q.tasks)
  step_bounded size q s h = h
  step_bounded shut q s h = h

  run_bounded :
      (os : List (Op A)) (q : Queue A) (s : S)
      → length q.tasks ≤ max_chunk_len
      → length (Queue.run try_forward os q s).1.tasks ≤ max_chunk_len
  unfolding Queue.run
  run_bounded [] q s h = h
  run_bounded (o ∷ os) q s h = run_bounded os _ _ (step_bounded o q s h)

  -- After every sequence of calls on a new buffer `Len` is at most `max_chunk_len`.
  pub len-run-le : (os : List (Op A × ℕ)) (s : S) → len (run os (new zero_task) s).1 ≤ max_chunk_len
  len-run-le os s =
      let h = (run-new os s).1 in
      omega (
        arith,
        Holds-len (run os (new zero_task) s).1 _ h.holds,
        run_bounded (ops_of os) Queue.empty s (omega arith),
      )
