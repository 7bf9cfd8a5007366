-- ===== src/TaskBuffer.antt =====
-- task_buffer.go: the overflow buffer, fixed-size chunks in a linked list that are recycled.
-- Chunks live in an explicit memory, so that a chunk in the pool and a chunk in the list could be
-- the same one. What `sync.Pool.Get` returns is left open: `pick` selects a pooled item, and a
-- `pick` past the end stands for `New`. `zero_task` is the nil `Task`, in a slot that is cleared.
pub mod Chain
pub mod Valid
pub mod Push
pub mod Queue
pub mod Refine
pub mod Closed
pub mod Simulation
mod Tests
use agile_pool.Prelude.{
  ℕ, zero, suc, ◌+◌, ◌-◌, Bool, true, false, ◌&&◌, Option, none, some, List, [], ◌∷◌, leb, ◌==◌,
  if◌then◌else◌, length, get_elem?,
}
use agile_pool.Prelude.Update.{update}

abbrev pub task_chunk_size : ℕ
task_chunk_size = 4096

abbrev pub max_chunk_len : ℕ
max_chunk_len = 100000

pub data PushResult : Type 0 where
  accepted closed full : PushResult

pub record Chunk {ℓ} (A : Type ℓ) : Type ℓ where
  pub tasks : ℕ → A
  pub next : Option ℕ

pub record Buffer {ℓ} (A : Type ℓ) : Type ℓ where
  pub chunks : ℕ → Chunk A
  pub fresh : ℕ
  pub pool : List ℕ
  pub head_chunk : Option ℕ
  pub tail_chunk : Option ℕ
  pub head_idx : ℕ
  pub tail_idx : ℕ
  pub chunk_len : ℕ
  pub overflow_closed : Bool

abbrev pub same : Option ℕ → ℕ → Bool
same none c = false
same (some t) c = t == c

module _ {ℓ} {A : Type ℓ} where
  -- `pool` without its element `i`.
  abbrev pub erase_at : List A → ℕ → List A
  erase_at [] i = []
  erase_at (x ∷ xs) zero = xs
  erase_at (x ∷ xs) (suc i) = x ∷ erase_at xs i

  pub len : Buffer A → ℕ
  len b = b.chunk_len

  pub close : Buffer A → Buffer A
  close b = record b { overflow_closed = true }

module _ {ℓ} {A : Type ℓ} (zero_task : A) where
  abbrev pub blank : Chunk A
  blank = record { tasks = λ _. zero_task; next = none }

  pub new : Buffer A
  new = record {
    chunks = λ _. blank;
    fresh = 0;
    pool = [];
    head_chunk = none;
    tail_chunk = none;
    head_idx = 0;
    tail_idx = 0;
    chunk_len = 0;
    overflow_closed = false;
  }

  -- `chunkPool.Get`: some pooled chunk as it was left there, or a new one.
  pub get_chunk : ℕ → Buffer A → ℕ × Buffer A
  get_chunk pick b = elim (get_elem? b.pool pick) [
    | some c ↦ (c, record b { pool = erase_at b.pool pick })
    | none ↦ (b.fresh, record b { chunks = update b.chunks b.fresh blank; fresh = suc b.fresh })
  ]

module _ {ℓ} {A : Type ℓ} where
  -- `c.next = nil; chunkPool.Put(c)`
  pub recycle : ℕ → Buffer A → Buffer A
  recycle c b = record b {
    chunks = update b.chunks c (record (b.chunks c) { next = none });
    pool = c ∷ b.pool;
  }

  -- The exhausted head chunk gives way to the next one, which may be nil.
  pub advance : ℕ → Buffer A → Buffer A
  unfolding recycle
  advance c b =
      let next = (b.chunks c).next in
      let b' = record (recycle c b) { head_chunk = next; head_idx = 0 } in
      elim next [ none ↦ record b' { tail_chunk = none; tail_idx = 0 } | some d ↦ b' ]

  -- The head has caught up with the tail.
  pub drain : ℕ → Buffer A → Buffer A
  unfolding recycle
  drain c b = record (recycle c b) {
    head_chunk = none;
    tail_chunk = none;
    head_idx = 0;
    tail_idx = 0;
  }

  -- `c` comes behind the tail chunk `t`.
  pub extend : ℕ → ℕ → Buffer A → Buffer A
  extend t c b = record b {
    chunks = update b.chunks t (record (b.chunks t) { next = some c });
    tail_chunk = some c;
    tail_idx = 0;
  }

  pub peek_slot : Buffer A → Option A × Buffer A
  unfolding drain
  peek_slot b = elim b.head_chunk [
    | none ↦ (none, b)
    | some c ↦
        if same b.tail_chunk c && leb b.tail_idx b.head_idx
        then (none, drain c b)
        else (some ((b.chunks c).tasks b.head_idx), b)
  ]

  pub peek_head : Buffer A → Option A × Buffer A
  unfolding peek_slot advance
  peek_head b = elim b.head_chunk [
    | none ↦ (none, b)
    | some c ↦ peek_slot (if leb task_chunk_size b.head_idx then advance c b else b)
  ]

module _ {ℓ} {A : Type ℓ} (zero_task : A) where
  -- `headChunk.tasks[headIdx] = nil; headIdx++; chunkLen--`; a nil `headChunk` would panic.
  pub drop_head : Buffer A → Buffer A
  drop_head b = elim b.head_chunk [
    | none ↦ b
    | some c ↦ record b {
      chunks =
          update b.chunks c
            (record (b.chunks c) { tasks = update (b.chunks c).tasks b.head_idx zero_task });
      head_idx = suc b.head_idx;
      chunk_len = b.chunk_len - 1;
    }
  ]

  pub pop_head : Buffer A → Option A × Buffer A
  unfolding drop_head
  pop_head b =
      let (t, b') = peek_head b in elim t [ none ↦ (none, b') | some a ↦ (some a, drop_head b') ]

  -- A tail chunk with a free slot.
  pub make_room : ℕ → Buffer A → Buffer A
  unfolding get_chunk extend
  make_room pick b = elim b.tail_chunk [
    | none ↦
        let (c, b') = get_chunk zero_task pick b in
        record b' { tail_chunk = some c; head_chunk = some c; tail_idx = 0; head_idx = 0 }
    | some t ↦
        let (c, b') = get_chunk zero_task pick b in
        if leb task_chunk_size b.tail_idx then extend t c b' else b
  ]

  pub store_tail : A → Buffer A → Buffer A
  store_tail task b = elim b.tail_chunk [
    | none ↦ b
    | some t ↦ record b {
      chunks =
          update b.chunks t
            (record (b.chunks t) { tasks = update (b.chunks t).tasks b.tail_idx task });
      tail_idx = suc b.tail_idx;
      chunk_len = suc b.chunk_len;
    }
  ]

  pub push_tail : ℕ → A → Buffer A → Buffer A
  unfolding make_room store_tail
  push_tail pick task b = store_tail task (make_room pick b)

  -- At most `n` tasks, `n` being `len(dst)`.
  pub pop_batch : ℕ → Buffer A → List A × Buffer A
  unfolding pop_head
  pop_batch zero b = ([], b)
  pop_batch (suc n) b =
      let (t, b') = pop_head b in
      elim t [ none ↦ ([], b') | some a ↦ let (ts, b'') = pop_batch n b' in (a ∷ ts, b'') ]

  -- The oldest task leaves the buffer if `tryForward`, which acts on state of its own, takes it.
  pub forward_oldest {κ} : {S : Type κ} → (A → S → Bool × S) → Buffer A → S → Buffer A × S
  unfolding pop_head
  forward_oldest {S = S} try_forward b s =
      let (oldest, b') = peek_head b in
      elim oldest [
        | none ↦ (b', s)
        | some t ↦ let (sent, s') = try_forward t s in ((if sent then (pop_head b').1 else b'), s')
      ]

  pub push_and_forward {κ} :
      {S : Type κ} → (A → S → Bool × S) → ℕ → A → Buffer A → S → PushResult × Buffer A × S
  unfolding push_tail forward_oldest
  push_and_forward try_forward pick task b s =
      let (b', s') = forward_oldest try_forward (push_tail pick task b) s in
      if b.overflow_closed
      then (closed, b, s)
      else if leb max_chunk_len b.chunk_len
      then (full, b, s)
      else (accepted, b', s')
