-- ===== src/Idle/RingQueue.antt =====
-- internal/idle/ring_queue.go: a circular buffer that doubles when it is full.
pub mod Order
use agile_pool.Prelude.{
  ℕ, zero, suc, ◌+◌, ◌-◌, ◌*◌, ◌%◌, ◌≤◌, ◌<◌, ◌≡◌, Bool, true, false, Option, none, some, List, ltb,
  ◌==◌, if◌then◌else◌, length,
}
use agile_pool.Prelude.Update.{update}
use agile_pool.Idle.{IdleContainer}
use agile_pool.Idle.Compact.{compact, clear, Stored}

abbrev pub default_ring_queue_capacity : ℕ
default_ring_queue_capacity = 64

pub record RingQueue {ℓ} (A : Type ℓ) : Type ℓ where
  pub buf : ℕ → Option A
  pub cap : ℕ  -- len(buf)
  pub head : ℕ
  pub tail : ℕ
  pub count : ℕ  -- the field `length`

module _ {ℓ} {A : Type ℓ} where
  abbrev pub place : RingQueue A → ℕ → ℕ
  place q i = (q.head + i) % q.cap

  abbrev pub new_ring_queue : RingQueue A
  new_ring_queue = record {
    buf = λ _. none;
    cap = default_ring_queue_capacity;
    head = 0;
    tail = 0;
    count = 0;
  }

  -- `newBuf[i] = rq.buf[(rq.head+i)%cap]` for `remaining` values of `i`.
  pub copy : RingQueue A → (remaining i : ℕ) → (ℕ → Option A) → ℕ → Option A
  copy q zero i new_buf = new_buf
  copy q (suc r) i new_buf = copy q r (suc i) (update new_buf i (q.buf (place q i)))

  pub grow : RingQueue A → RingQueue A
  grow q = record {
    buf = copy q q.count 0 (λ _. none);
    cap = q.cap * 2;
    head = 0;
    tail = q.count;
    count = q.count;
  }

  abbrev append_last : A → RingQueue A → RingQueue A
  append_last a q = record q {
    buf = update q.buf q.tail (some a);
    tail = (q.tail + 1) % q.cap;
    count = suc q.count;
  }

  pub add : A → RingQueue A → RingQueue A
  add a q = append_last a (if q.cap == q.count then grow q else q)

  abbrev take_first : RingQueue A → Option A × RingQueue A
  take_first q = (
    q.buf q.head,
    record q { buf = update q.buf q.head none; head = (q.head + 1) % q.cap; count = q.count - 1 },
  )

  pub pop : RingQueue A → Option A × RingQueue A
  pop q = if q.count == 0 then (none, q) else take_first q

  module _ (date : A → ℕ) where
    -- The loop that compacts: `writeIdx` and the buffer.
    abbrev survivors : (now expiry : ℕ) → RingQueue A → ℕ × (ℕ → Option A)
    survivors now expiry q =
        compact (λ a. ltb (now - expiry) (date a)) true (place q) q.count 0 0 q.buf

    abbrev cut_off : RingQueue A → ℕ → (ℕ → Option A) → ℕ × RingQueue A
    cut_off q write_idx buf =
        let removed = q.count - write_idx in
        (
          removed,
          record q {
            buf = clear (place q) removed write_idx buf;
            tail = place q write_idx;
            count = q.count - removed;
          },
        )

    pub remove_expired : (now expiry : ℕ) → RingQueue A → ℕ × RingQueue A
    remove_expired now expiry q =
        let (write_idx, buf) = survivors now expiry q in
        if q.count == 0 then (0, q) else cut_off q write_idx buf

    pub ring_queue : IdleContainer A
    ring_queue = record {
      State = RingQueue A;
      new = new_ring_queue;
      add = add;
      pop = pop;
      remove_expired = remove_expired;
      len = λ q. q.count;
    }

  pub record Holds (q : RingQueue A) (xs : List A) : Type ℓ where
    pub room : (0 < q.cap) × (q.count ≤ q.cap)
    pub at_head : q.head < q.cap
    pub at_tail : q.tail ≡ place q q.count
    pub counted : q.count ≡ length xs
    pub stored : Stored (place q) q.buf 0 xs
