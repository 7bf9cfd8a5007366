-- ===== src/TaskBuffer/Refine.antt =====
-- The buffer is a bounded first-in first-out queue: what each exported operation returns, and what
-- it leaves, in terms of the list of tasks in the buffer.
use agile_pool.Prelude.{
  ℕ, zero, suc, ◌≡◌, refl, sym, ap, ◌∙◌, inl, inr, Option, none, some, List, [], ◌∷◌, ◌++◌, arith,
  length, take, drop,
}
use agile_pool.TaskBuffer.{Buffer, new, len, peek_head, pop_head, push_tail, pop_batch}
use agile_pool.TaskBuffer.Valid.{Valid, peek_head-Peeked, drop_head-Valid}
use agile_pool.TaskBuffer.Push.{push_tail-Valid}

module _ {ℓ} {A : Type ℓ} where
  -- `b` is a well-formed buffer whose tasks are `xs`, the oldest first.
  abbrev pub Holds : Buffer A → List A → Type ℓ
  Holds b xs = (cs : List ℕ) × Valid b cs xs

  abbrev pub head? : List A → Option A
  head? [] = none
  head? (x ∷ xs) = some x

  pub peek_head-Holds :
      (b : Buffer A) (xs : List A)
      → Holds b xs
      → ((peek_head b).0 ≡ head? xs) × Holds (peek_head b).1 xs
  peek_head-Holds b xs h = elim found [
    | inl (e, r) ↦ (r ∙ ap head? (sym e), (chain, valid))
    | inr (x, ys, e, r, _) ↦ (r ∙ ap head? (sym e), (chain, valid))
  ]
    where
      open (peek_head-Peeked b h.0 xs h.1) use {chain, valid, found}

  pub Holds-len : (b : Buffer A) (xs : List A) → Holds b xs → len b ≡ length xs
  unfolding len
  Holds-len b xs h = h.1.counted

module _ {ℓ} {A : Type ℓ} (zero_task : A) where
  pub new-Holds : Holds (new zero_task) []
  unfolding new
  new-Holds = (
    [],
    record {
      shape = (refl, refl, refl);
      apart = λ a. omega arith;
      known = λ a h. refl;
      clean = λ a h. refl;
      counted = refl;
    },
  )

  pub pop_head-Holds :
      (b : Buffer A) (xs : List A)
      → Holds b xs
      → ((pop_head zero_task b).0 ≡ head? xs) × Holds (pop_head zero_task b).1 (drop 1 xs)
  unfolding pop_head
  pop_head-Holds b xs h = elim found [
    | inl (e, r) ↦ rw (pop_head, r, e) (refl, (chain, rw e at valid))
    | inr (x, ys, e, r, k) ↦
        rw (pop_head, r, e)
          (refl, (chain, drop_head-Valid zero_task _ chain x ys k (rw e at valid)))
  ]
    where
      open (peek_head-Peeked b h.0 xs h.1) use {chain, valid, found}

  pub push_tail-Holds :
      (pick : ℕ) (x : A) (b : Buffer A) (xs : List A)
      → Holds b xs
      → Holds (push_tail zero_task pick x b) (xs ++ x ∷ [])
  push_tail-Holds pick x b xs h = push_tail-Valid zero_task pick x b h.0 xs h.1

  -- `PopBatch` returns the oldest tasks in order, as many as there are and fit, and removes them.
  pub pop_batch-Holds :
      (n : ℕ) (b : Buffer A) (xs : List A)
      → Holds b xs
      → ((pop_batch zero_task n b).0 ≡ take n xs) × Holds (pop_batch zero_task n b).1 (drop n xs)
  unfolding pop_batch
  pop_batch-Holds zero b xs h = (refl, h)
  pop_batch-Holds (suc n) b [] h = let p = pop_head-Holds b [] h in rw (p.0, pop_batch) (refl, p.1)
  pop_batch-Holds (suc n) b (x ∷ xs) h =
      let p = pop_head-Holds b (x ∷ xs) h in
      let q = pop_batch-Holds n _ xs p.1 in rw (p.0, pop_batch) (ap (◌∷◌ x) q.0, q.1)
