-- ===== src/TaskBuffer/Push.antt =====
-- Pushing: a chunk comes from the pool, goes to the end of the list, and takes the task.
use agile_pool.Prelude.{
  ℕ, zero, suc, ◌+◌, ◌≤◌, ◌<◌, ◌≡◌, refl, sym, ap, ◌∙◌, inl, inr, none, some, List, [], ◌∷◌, ◌++◌,
  arith, length-append, get_elem?, leb, Bool-cases, Option-cases,
}
use agile_pool.Prelude.Update.{update}
use agile_pool.TaskBuffer.{
  Buffer, Chunk, task_chunk_size, erase_at, blank, get_chunk, extend, make_room, store_tail,
  push_tail,
}
use agile_pool.TaskBuffer.Chain.{
  count, last, contents, Ordered-snoc, Ordered-suc, count-last, last-snoc, count-snoc,
  contents-frame, Linked-frame, Linked-tasks, contents-push, contents-extend, Linked-extend,
}
use agile_pool.TaskBuffer.Valid.{Shape, Valid}

module _ {ℓ} {A : Type ℓ} (zero_task : A) where
  -- A chunk from the pool is in no list, and unlinked.
  record Got (b : Buffer A) (cs : List ℕ) (xs : List A) (c : ℕ) (b' : Buffer A) : Type ℓ where
    valid : Valid b' cs xs
    alone : (a : ℕ) → count a (c ∷ cs) + count a b'.pool ≤ 1
    old : (a : ℕ) → b'.fresh ≤ a → count a (c ∷ cs) + count a b'.pool ≡ 0
    bare : (b'.chunks c).next ≡ none
    same_tail : b'.tail_idx ≡ b.tail_idx

  Shape-frame :
      (b : Buffer A) (cs : List ℕ) (xs : List A) (a : ℕ) (k : Chunk A) (n : ℕ)
      → count a cs ≡ 0
      → Shape b cs xs
      → Shape (record b { chunks = update b.chunks a k; fresh = n }) cs xs
  Shape-frame b [] xs a k n h s = s
  Shape-frame b (c ∷ ds) xs a k n h s = (
    s.0,
    s.1,
    Linked-frame b.chunks a k c ds h s.2,
    s.3,
    s.4,
    s.5,
    s.6 ∙ sym (contents-frame b.chunks a k b.tail_idx b.head_idx c ds h),
  )

  count-erase_at :
      (a c : ℕ) (xs : List ℕ) (i : ℕ)
      → get_elem? xs i ≡ some c
      → count a (erase_at xs i) + count a (c ∷ []) ≡ count a xs
  count-erase_at a c [] i e = ground arith
  count-erase_at a c (x ∷ xs) zero e = ground arith
  count-erase_at a c (x ∷ xs) (suc i) e = ground (arith, count-erase_at a c xs i)

  get_chunk-Got :
      (pick : ℕ) (b : Buffer A) (cs : List ℕ) (xs : List A)
      → Valid b cs xs
      → Got b cs xs (get_chunk zero_task pick b).0 (get_chunk zero_task pick b).1
  unfolding get_chunk
  get_chunk-Got pick b cs xs v = elim (Option-cases (get_elem? b.pool pick)) [
    | inl e ↦
        rw (e, get_chunk)
          record {
            valid = record {
              shape =
                  Shape-frame b cs xs b.fresh (blank zero_task) (suc b.fresh)
                    (omega (arith, v.known b.fresh)) v.shape;
              apart = v.apart;
              known = λ a h. v.known a (omega arith);
              clean = λ a h. ground (arith, v.clean a, v.known b.fresh);
              counted = v.counted;
            };
            alone = λ a. ground (arith, v.apart a, v.known b.fresh);
            old = λ a h. ground (arith, v.known a);
            bare = ground arith;
            same_tail = refl;
          }
    | inr (c, e) ↦
        rw (e, get_chunk)
          record {
            valid = record {
              shape = v.shape;
              apart = λ a. omega (arith, v.apart a, count-erase_at a c b.pool pick e);
              known = λ a h. omega (arith, v.known a h, count-erase_at a c b.pool pick e);
              clean = λ a h. v.clean a (omega (arith, count-erase_at a c b.pool pick e));
              counted = v.counted;
            };
            alone = λ a. omega (arith, v.apart a, count-erase_at a c b.pool pick e);
            old = λ a h. omega (arith, v.known a h, count-erase_at a c b.pool pick e);
            bare = v.clean c (ground (arith, count-erase_at c c b.pool pick e));
            same_tail = refl;
          }
  ]

  -- A tail chunk with a free slot.
  record Roomed (b : Buffer A) (xs : List A) : Type ℓ where
    first : ℕ
    rest : List ℕ
    valid : Valid b (first ∷ rest) xs
    room : b.tail_idx < task_chunk_size

  extend-Roomed :
      (b b' : Buffer A) (c n : ℕ) (ds : List ℕ) (xs : List A)
      → b'.tail_idx ≡ task_chunk_size
      → Got b (c ∷ ds) xs n b'
      → Roomed (extend (last c ds) n b') xs
  unfolding extend
  extend-Roomed b b' c n ds xs e g = record {
    first = c;
    rest = ds ++ n ∷ [];
    valid = record {
      shape = (
        v.shape.0,
        ap some (sym (last-snoc c n ds)),
        Linked-extend b'.chunks n c ds u k g.bare v.shape.2,
        v.shape.3,
        omega arith,
        Ordered-snoc b'.head_idx n ds,
        v.shape.6
            ∙ ap (λ hi. contents b'.chunks hi b'.head_idx c ds) e
            ∙ sym (contents-extend b'.chunks n b'.head_idx c ds u k),
      );
      apart = λ a. omega (arith, g.alone a, count-snoc a n ds);
      known = λ a h. omega (arith, g.old a h, count-snoc a n ds);
      clean = λ a h. ground (arith, v.clean a h, v.apart a, count-last c ds);
      counted = v.counted;
    };
    room = omega arith;
  }
    where
      open g use {valid as v}

      u : (a : ℕ) → count a (c ∷ ds) ≤ 1
      u a = omega (arith, v.apart a)

      k : count n (c ∷ ds) ≡ 0
      k = ground (arith, g.alone n)

  make_room-Roomed :
      (pick : ℕ) (b : Buffer A) (cs : List ℕ) (xs : List A)
      → Valid b cs xs
      → Roomed (make_room zero_task pick b) xs
  unfolding make_room
  make_room-Roomed pick b [] xs v =
      let g = get_chunk-Got pick b [] xs v in
      rw (v.shape.1, make_room)
        record {
          first = (get_chunk zero_task pick b).0;
          rest = [];
          valid = record {
            shape = (refl, refl, g.bare, omega arith, omega arith, omega arith, v.shape.2);
            apart = g.alone;
            known = g.old;
            clean = g.valid.clean;
            counted = g.valid.counted;
          };
          room = omega arith;
        }
  make_room-Roomed pick b (c ∷ ds) xs v = elim (Bool-cases (leb task_chunk_size b.tail_idx)) [
    | inl spent ↦
        let (n, b') = get_chunk zero_task pick b in
        rw (v.shape.1, make_room, spent)
          (extend-Roomed b b' c n ds xs (ground arith) (get_chunk-Got pick b (c ∷ ds) xs v))
    | inr more ↦
        rw (v.shape.1, make_room, more)
          record { first = c; rest = ds; valid = v; room = ground arith }
  ]

  store_tail-Valid :
      (x : A) (b : Buffer A) (c : ℕ) (ds : List ℕ) (xs : List A)
      → b.tail_idx < task_chunk_size
      → Valid b (c ∷ ds) xs
      → Valid (store_tail zero_task x b) (c ∷ ds) (xs ++ x ∷ [])
  unfolding store_tail
  store_tail-Valid x b c ds xs h v =
      let u : (a : ℕ) → count a (c ∷ ds) ≤ 1 = λ a. omega (arith, v.apart a) in
      let p = contents-push b.chunks x b.tail_idx b.head_idx c ds u v.shape.5 in
      rw (v.shape.1, store_tail)
        record {
          shape = (
            v.shape.0,
            v.shape.1,
            Linked-tasks b.chunks (last c ds) _ c ds v.shape.2,
            v.shape.3,
            h,
            Ordered-suc b.head_idx b.tail_idx ds v.shape.5,
            ap (λ ys. ys ++ x ∷ []) v.shape.6 ∙ sym p,
          );
          apart = v.apart;
          known = v.known;
          clean = λ a k. ground (arith, v.clean a k);
          counted = omega (arith, v.counted, length-append xs (x ∷ []));
        }

  pub push_tail-Valid :
      (pick : ℕ) (x : A) (b : Buffer A) (cs : List ℕ) (xs : List A)
      → Valid b cs xs
      → (ds : List ℕ) × Valid (push_tail zero_task pick x b) ds (xs ++ x ∷ [])
  unfolding push_tail
  push_tail-Valid pick x b cs xs v =
      let r = make_room-Roomed pick b cs xs v in
      (r.first ∷ r.rest, store_tail-Valid x _ r.first r.rest xs r.room r.valid)
