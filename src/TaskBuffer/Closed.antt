-- ===== src/TaskBuffer/Closed.antt =====
-- Only `Close` changes `overflowClosed`.
use agile_pool.Prelude.{ℕ, zero, suc, ◌≡◌, refl, Bool, arith}
use agile_pool.TaskBuffer.{
  Buffer, advance, peek_slot, peek_head, pop_head, push_tail, forward_oldest, pop_batch,
}

module _ {ℓ} {A : Type ℓ} where
  closed-advance : (c : ℕ) (b : Buffer A) → (advance c b).overflow_closed ≡ b.overflow_closed
  unfolding advance
  closed-advance c b = ground arith

  closed-peek_slot : (b : Buffer A) → (peek_slot b).1.overflow_closed ≡ b.overflow_closed
  unfolding peek_slot
  closed-peek_slot b = ground arith

  closed-peek_head : (b : Buffer A) → (peek_head b).1.overflow_closed ≡ b.overflow_closed
  unfolding peek_head
  closed-peek_head b = ground arith

module _ {ℓ} {A : Type ℓ} (zero_task : A) where
  closed-pop_head : (b : Buffer A) → (pop_head zero_task b).1.overflow_closed ≡ b.overflow_closed
  unfolding pop_head
  closed-pop_head b = ground (arith, closed-peek_head b)

  pub closed-push_tail :
      (pick : ℕ) (x : A) (b : Buffer A)
      → (push_tail zero_task pick x b).overflow_closed ≡ b.overflow_closed
  unfolding push_tail
  closed-push_tail pick x b = ground arith

  pub closed-pop_batch :
      (n : ℕ) (b : Buffer A) → (pop_batch zero_task n b).1.overflow_closed ≡ b.overflow_closed
  unfolding pop_batch
  closed-pop_batch zero b = refl
  closed-pop_batch (suc n) b =
      ground (arith, closed-pop_head b, closed-pop_batch n (pop_head zero_task b).1)

  pub closed-forward_oldest {κ} :
      {S : Type κ} (try_forward : A → S → Bool × S) (b : Buffer A) (s : S)
      → (forward_oldest zero_task try_forward b s).0.overflow_closed ≡ b.overflow_closed
  unfolding forward_oldest
  closed-forward_oldest try_forward b s =
      ground (arith, closed-peek_head b, closed-pop_head (peek_head b).1)
