-- ===== src/TaskBuffer/Queue.antt =====
-- What the buffer promises: a first-in first-out queue of at most `max_chunk_len` tasks.
use agile_pool.Prelude.{
  ℕ, Bool, true, false, List, [], ◌∷◌, ◌++◌, leb, if◌then◌else◌, length, take, drop,
}
use agile_pool.TaskBuffer.{PushResult, accepted, closed, full, max_chunk_len}

pub record Queue {ℓ} (A : Type ℓ) : Type ℓ where
  pub tasks : List A
  pub is_closed : Bool

abbrev pub empty {ℓ} : {A : Type ℓ} → Queue A
empty = record { tasks = []; is_closed = false }

pub data Op {ℓ} (A : Type ℓ) : Type ℓ where
  push : A → Op A
  batch : ℕ → Op A
  size : Op A
  shut : Op A

-- What a caller sees of an operation.
pub data Reply {ℓ} (A : Type ℓ) : Type ℓ where
  pushed : PushResult → Reply A
  popped : List A → Reply A
  counted : ℕ → Reply A
  done : Reply A

module _ {ℓ κ} {A : Type ℓ} {S : Type κ} (try_forward : A → S → Bool × S) where
  -- The oldest task is offered to `try_forward`, and leaves the queue if it is taken.
  unfoldable pub offer : List A → S → List A × S
  offer [] s = ([], s)
  offer (t ∷ ts) s = let (sent, s') = try_forward t s in ((if sent then ts else t ∷ ts), s')

  unfoldable pub enqueue : A → Queue A → S → PushResult × Queue A × S
  enqueue x q s =
      let (ts, s') = offer (q.tasks ++ x ∷ []) s in
      if q.is_closed
      then (closed, q, s)
      else if leb max_chunk_len (length q.tasks)
      then (full, q, s)
      else (accepted, record q { tasks = ts }, s')

  unfoldable pub step : Op A → Queue A → S → Reply A × Queue A × S
  unfolding enqueue offer
  step (push x) q s = let (r, q', s') = enqueue x q s in (pushed r, q', s')
  step (batch n) q s = (popped (take n q.tasks), record q { tasks = drop n q.tasks }, s)
  step size q s = (counted (length q.tasks), q, s)
  step shut q s = (done, record q { is_closed = true }, s)

  unfoldable pub run : List (Op A) → Queue A → S → List (Reply A) × Queue A × S
  unfolding step
  run [] q s = ([], q, s)
  run (o ∷ os) q s =
      let (r, q', s') = step o q s in let (rs, q'', s'') = run os q' s' in (r ∷ rs, q'', s'')
