-- ===== src/TaskBuffer/Valid.antt =====
-- The representation invariant of the buffer, kept by each internal step.
use agile_pool.Prelude.{
  ℕ, ◌+◌, ◌-◌, ◌≤◌, ◌<◌, ◌≡◌, refl, sym, ap, subst, ◌∙◌, ◌⊎◌, inl, inr, Option, none, some, List,
  [], ◌∷◌, arith, length, true, false, ◌&&◌, leb, Bool-cases, tail_eq,
}
use agile_pool.TaskBuffer.{
  Buffer, task_chunk_size, close, advance, drain, peek_slot, peek_head, drop_head, same,
}
use agile_pool.TaskBuffer.Chain.{
  count, last, slice, contents, Linked, Ordered, HasHead, Ordered-zero, Ordered-of_HasHead,
  count-last, contents-frame, Linked-frame, Linked-tasks, contents-pop,
}

module _ {ℓ} {A : Type ℓ} where
  -- `cs` are the chunks of the list, `xs` the tasks in them.
  abbrev pub Shape : Buffer A → List ℕ → List A → Type ℓ
  Shape b [] xs = (b.head_chunk ≡ none) × (b.tail_chunk ≡ none) × (xs ≡ [])
  Shape b (c ∷ ds) xs =
      (b.head_chunk ≡ some c)
      × (b.tail_chunk ≡ some (last c ds))
      × Linked b.chunks c ds
      × (b.head_idx ≤ task_chunk_size)
      × (b.tail_idx ≤ task_chunk_size)
      × Ordered b.head_idx b.tail_idx ds
      × (xs ≡ contents b.chunks b.tail_idx b.head_idx c ds)

  -- No chunk stands in the list or in the pool twice, or in both; a pooled chunk is unlinked.
  pub record Valid (b : Buffer A) (cs : List ℕ) (xs : List A) : Type ℓ where
    pub shape : Shape b cs xs
    pub apart : (a : ℕ) → count a cs + count a b.pool ≤ 1
    pub known : (a : ℕ) → b.fresh ≤ a → count a cs + count a b.pool ≡ 0
    pub clean : (a : ℕ) → 0 < count a b.pool → (b.chunks a).next ≡ none
    pub counted : b.chunk_len ≡ length xs

  -- The head chunk has a task at `head_idx`.
  abbrev pub Ready : Buffer A → List ℕ → Type 0
  Ready b [] = ⊥
  Ready b (c ∷ ds) = (b.head_idx < task_chunk_size) × HasHead b.head_idx b.tail_idx ds

  pub close-Valid :
      (b : Buffer A) (cs : List ℕ) (xs : List A) → Valid b cs xs → Valid (close b) cs xs
  unfolding close
  close-Valid b [] xs v = record {
    shape = v.shape;
    apart = v.apart;
    known = v.known;
    clean = v.clean;
    counted = v.counted;
  }
  close-Valid b (c ∷ ds) xs v = record {
    shape = v.shape;
    apart = v.apart;
    known = v.known;
    clean = v.clean;
    counted = v.counted;
  }

  advance-Valid :
      (b : Buffer A) (c : ℕ) (ds : List ℕ) (xs : List A)
      → b.head_idx ≡ task_chunk_size
      → Valid b (c ∷ ds) xs
      → Valid (advance c b) ds xs
  unfolding advance
  advance-Valid b c [] xs e v = record {
    shape = let z : b.tail_idx - b.head_idx ≡ 0 = omega arith in ground (arith, z);
    apart = λ a. ground (arith, v.apart a);
    known = λ a h. ground (arith, v.known a);
    clean = λ a h. ground (arith, v.clean a);
    counted = ground arith;
  }
  advance-Valid b c (d ∷ ds) xs e v = record {
    shape =
        let z : task_chunk_size - b.head_idx ≡ 0 = omega arith in
        let k = record (b.chunks c) { next = none } in
        ground (
          arith,
          z,
          v.apart c,
          contents-frame b.chunks c k b.tail_idx 0 d ds,
          Linked-frame b.chunks c k d ds,
          Ordered-zero b.tail_idx ds,
        );
    apart = λ a. ground (arith, v.apart a);
    known = λ a h. ground (arith, v.known a);
    clean = λ a h. ground (arith, v.clean a);
    counted = ground arith;
  }

  head_idx-advance : (c : ℕ) (b : Buffer A) → (advance c b).head_idx ≡ 0
  unfolding advance
  head_idx-advance c b = ground arith

  drain-Valid : (b : Buffer A) (c : ℕ) → Valid b (c ∷ []) [] → Valid (drain c b) [] []
  unfolding drain
  drain-Valid b c v = record {
    shape = (refl, refl, refl);
    apart = λ a. ground (arith, v.apart a);
    known = λ a h. ground (arith, v.known a);
    clean = λ a h. ground (arith, v.clean a);
    counted = ground arith;
  }

  -- What a look at the head finds: nothing, in an empty buffer, or the oldest task.
  pub record Peeked (xs : List A) (r : Option A × Buffer A) : Type ℓ where
    pub chain : List ℕ
    pub valid : Valid r.1 chain xs
    pub found :
        ((xs ≡ []) × (r.0 ≡ none))
        ⊎ ((x : A) × (ys : List A) × (xs ≡ x ∷ ys) × (r.0 ≡ some x) × Ready r.1 chain)

  found_nothing :
      (b : Buffer A) {r : Option A × Buffer A} (b' : Buffer A) (cs : List ℕ) (xs : List A)
      → r ≡ (none, b')
      → xs ≡ []
      → Valid b' cs xs
      → Peeked xs r
  found_nothing b b' cs xs e z v = rw e (record { chain = cs; valid = v; found = inl (z, refl) })

  found_head :
      (b : Buffer A) {r : Option A × Buffer A} (c : ℕ) (ds : List ℕ) (xs : List A)
      → r ≡ (some ((b.chunks c).tasks b.head_idx), b)
      → Ready b (c ∷ ds)
      → Valid b (c ∷ ds) xs
      → Peeked xs r
  found_head b c ds xs e h v =
      let x = (b.chunks c).tasks b.head_idx in
      let u = λ (a : ℕ). once v a in
      let p = contents-pop b.chunks x b.tail_idx b.head_idx c ds u h.0 h.1 in
      rw e (record { chain = c ∷ ds; valid = v; found = inr (x, _, v.shape.6 ∙ p, refl, h) })
    where
      once : Valid b (c ∷ ds) xs → (a : ℕ) → count a (c ∷ ds) ≤ 1
      once v a = omega (arith, v.apart a)

  peek_slot-Peeked :
      (b : Buffer A) (cs : List ℕ) (xs : List A)
      → b.head_idx < task_chunk_size
      → Valid b cs xs
      → Peeked xs (peek_slot b)
  unfolding peek_slot
  peek_slot-Peeked b [] xs h v = found_nothing b b [] xs (ground arith) v.shape.2 v
  peek_slot-Peeked b (c ∷ []) xs h v = elim (Bool-cases (leb b.tail_idx b.head_idx)) [
    | inl done ↦
        let z : b.tail_idx - b.head_idx ≡ 0 = ground arith in
        let n : xs ≡ [] = v.shape.6 ∙ ap (slice (b.chunks c).tasks b.head_idx) z in
        let t : same b.tail_chunk c ≡ true = ground arith in
        found_nothing b (drain c b) [] xs (rw (peek_slot, v.shape.0, t, done)) n
          (subst (Valid (drain c b) []) (sym n) (drain-Valid b c (subst (Valid b (c ∷ [])) n v)))
    | inr more ↦ found_head b c [] xs (ground arith) (h, ground arith) v
  ]
  peek_slot-Peeked b (c ∷ d ∷ ds) xs h v =
      let t : same b.tail_chunk c ≡ false = ground (arith, v.apart c, count-last d ds) in
      found_head b c (d ∷ ds) xs (simp (peek_slot, v.shape.0, t, ◌&&◌)) (h, tt) v

  pub peek_head-Peeked :
      (b : Buffer A) (cs : List ℕ) (xs : List A) → Valid b cs xs → Peeked xs (peek_head b)
  unfolding peek_head
  peek_head-Peeked b [] xs v = found_nothing b b [] xs (ground arith) v.shape.2 v
  peek_head-Peeked b (c ∷ ds) xs v = elim (Bool-cases (leb task_chunk_size b.head_idx)) [
    | inl spent ↦
        let e : peek_head b ≡ peek_slot (advance c b) = ground arith in
        let w = advance-Valid b c ds xs (ground arith) v in
        rw e (peek_slot-Peeked (advance c b) ds xs (rw (head_idx-advance c b) (omega arith)) w)
    | inr more ↦
        let e : peek_head b ≡ peek_slot b = ground arith in
        rw e (peek_slot-Peeked b (c ∷ ds) xs (ground arith) v)
  ]

module _ {ℓ} {A : Type ℓ} (zero_task : A) where
  pub drop_head-Valid :
      (b : Buffer A) (cs : List ℕ) (x : A) (ys : List A)
      → Ready b cs
      → Valid b cs (x ∷ ys)
      → Valid (drop_head zero_task b) cs ys
  unfolding drop_head
  drop_head-Valid b [] x ys r v = absurd r
  drop_head-Valid b (c ∷ ds) x ys r v =
      let u : (a : ℕ) → count a (c ∷ ds) ≤ 1 = λ a. omega (arith, v.apart a) in
      let p = contents-pop b.chunks zero_task b.tail_idx b.head_idx c ds u r.0 r.1 in
      rw (v.shape.0, drop_head)
        record {
          shape = (
            v.shape.0,
            v.shape.1,
            Linked-tasks b.chunks c _ c ds v.shape.2,
            r.0,
            v.shape.4,
            Ordered-of_HasHead b.head_idx b.tail_idx ds r.1,
            tail_eq (v.shape.6 ∙ p),
          );
          apart = v.apart;
          known = v.known;
          clean = λ a h. ground (arith, v.clean a);
          counted = omega arith;
        }
