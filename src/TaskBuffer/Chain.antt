-- ===== src/TaskBuffer/Chain.antt =====
-- What a chain of chunks holds, and how writes to the memory change it.
use agile_pool.Prelude.{
  ℕ, zero, suc, ◌+◌, ◌-◌, ◌≤◌, ◌<◌, ◌≡◌, refl, ap, Option, none, some, List, [], ◌∷◌, ◌++◌,
  append-nil, append_assoc, arith, ◌==◌, if◌then◌else◌, length,
}
use agile_pool.Prelude.Update.{update}
use agile_pool.TaskBuffer.{Chunk, task_chunk_size}

-- How often an address stands in a list.
abbrev pub count : ℕ → List ℕ → ℕ
count a [] = 0
count a (x ∷ xs) = (if x == a then 1 else 0) + count a xs

abbrev pub last : ℕ → List ℕ → ℕ
last c [] = c
last c (d ∷ ds) = last d ds

pub count-last : (c : ℕ) (ds : List ℕ) → 0 < count (last c ds) (c ∷ ds)
count-last c [] = ground arith
count-last c (d ∷ ds) = ground (arith, count-last d ds)

pub last-snoc : (c n : ℕ) (ds : List ℕ) → last c (ds ++ n ∷ []) ≡ n
last-snoc c n [] = refl
last-snoc c n (d ∷ ds) = last-snoc d n ds

pub count-snoc : (a n : ℕ) (ds : List ℕ) → count a (ds ++ n ∷ []) ≡ count a (n ∷ ds)
count-snoc a n [] = refl
count-snoc a n (d ∷ ds) = omega (arith, count-snoc a n ds)

-- In a single chunk the slots in use run from `lo` up to `hi`.
abbrev pub Ordered : ℕ → ℕ → List ℕ → Type 0
Ordered lo hi [] = lo ≤ hi
Ordered lo hi (d ∷ ds) = Unit

abbrev pub HasHead : ℕ → ℕ → List ℕ → Type 0
HasHead lo hi [] = lo < hi
HasHead lo hi (d ∷ ds) = Unit

pub Ordered-zero : (hi : ℕ) (ds : List ℕ) → Ordered 0 hi ds
Ordered-zero hi [] = omega arith
Ordered-zero hi (d ∷ ds) = tt

pub Ordered-snoc : (lo n : ℕ) (ds : List ℕ) → Ordered lo 0 (ds ++ n ∷ [])
Ordered-snoc lo n [] = tt
Ordered-snoc lo n (d ∷ ds) = tt

pub Ordered-suc : (lo hi : ℕ) (ds : List ℕ) → Ordered lo hi ds → Ordered lo (suc hi) ds
Ordered-suc lo hi [] h = omega arith
Ordered-suc lo hi (d ∷ ds) h = tt

pub Ordered-of_HasHead : (lo hi : ℕ) (ds : List ℕ) → HasHead lo hi ds → Ordered (suc lo) hi ds
Ordered-of_HasHead lo hi [] h = h
Ordered-of_HasHead lo hi (d ∷ ds) h = tt

module _ {ℓ} {A : Type ℓ} where
  abbrev pub write_task : (ℕ → Chunk A) → ℕ → ℕ → A → ℕ → Chunk A
  write_task m c i v = update m c (record (m c) { tasks = update (m c).tasks i v })

  abbrev pub write_next : (ℕ → Chunk A) → ℕ → Option ℕ → ℕ → Chunk A
  write_next m c n = update m c (record (m c) { next = n })

  -- Slots `lo`, `lo + 1`, and so on.
  abbrev pub slice : (ℕ → A) → ℕ → ℕ → List A
  slice f lo zero = []
  slice f lo (suc n) = f lo ∷ slice f (suc lo) n

  -- The tasks from slot `lo` of the first chunk up to slot `hi` of the last one.
  abbrev pub contents : (ℕ → Chunk A) → ℕ → ℕ → ℕ → List ℕ → List A
  contents m hi lo c [] = slice (m c).tasks lo (hi - lo)
  contents m hi lo c (d ∷ ds) = slice (m c).tasks lo (task_chunk_size - lo) ++ contents m hi 0 d ds

  -- The chunks are linked in this order.
  abbrev pub Linked : (ℕ → Chunk A) → ℕ → List ℕ → Type 0
  Linked m c [] = (m c).next ≡ none
  Linked m c (d ∷ ds) = ((m c).next ≡ some d) × Linked m d ds

  slice-write :
      (f : ℕ → A) (i : ℕ) (v : A) (lo n : ℕ) → lo + n ≤ i → slice (update f i v) lo n ≡ slice f lo n
  slice-write f i v lo zero h = refl
  slice-write f i v lo (suc n) h = ground (arith, slice-write f i v (suc lo) n)

  slice-write_before :
      (f : ℕ → A) (i : ℕ) (v : A) (lo n : ℕ) → i < lo → slice (update f i v) lo n ≡ slice f lo n
  slice-write_before f i v lo zero h = refl
  slice-write_before f i v lo (suc n) h = ground (arith, slice-write_before f i v (suc lo) n)

  slice-snoc :
      (f : ℕ → A) (v : A) (n lo i : ℕ)
      → lo + n ≡ i
      → slice (update f i v) lo (suc n) ≡ slice f lo n ++ v ∷ []
  slice-snoc f v zero lo i h = ground arith
  slice-snoc f v (suc n) lo i h = ground (arith, slice-snoc f v n (suc lo) i)

  pub length-slice : (f : ℕ → A) (lo n : ℕ) → length (slice f lo n) ≡ n
  length-slice f lo zero = refl
  length-slice f lo (suc n) = ap suc (length-slice f (suc lo) n)

  -- Chunks off the chain do not matter.
  pub contents-frame :
      (m : ℕ → Chunk A) (a : ℕ) (k : Chunk A) (hi lo c : ℕ) (ds : List ℕ)
      → count a (c ∷ ds) ≡ 0
      → contents (update m a k) hi lo c ds ≡ contents m hi lo c ds
  contents-frame m a k hi lo c [] h = ground arith
  contents-frame m a k hi lo c (d ∷ ds) h = ground (arith, contents-frame m a k hi 0 d ds)

  pub Linked-frame :
      (m : ℕ → Chunk A) (a : ℕ) (k : Chunk A) (c : ℕ) (ds : List ℕ)
      → count a (c ∷ ds) ≡ 0
      → Linked m c ds
      → Linked (update m a k) c ds
  Linked-frame m a k c [] h l = ground arith
  Linked-frame m a k c (d ∷ ds) h l = ground (arith, Linked-frame m a k d ds)

  -- Tasks do not touch the links.
  pub Linked-tasks :
      (m : ℕ → Chunk A) (a : ℕ) (f : ℕ → A) (c : ℕ) (ds : List ℕ)
      → Linked m c ds
      → Linked (update m a (record (m a) { tasks = f })) c ds
  Linked-tasks m a f c [] l = ground arith
  Linked-tasks m a f c (d ∷ ds) l = ground (arith, Linked-tasks m a f d ds)

  -- A write at the end of the last chunk appends.
  pub contents-push :
      (m : ℕ → Chunk A) (v : A) (hi lo c : ℕ) (ds : List ℕ)
      → ((a : ℕ) → count a (c ∷ ds) ≤ 1)
      → Ordered lo hi ds
      → contents (write_task m (last c ds) hi v) (suc hi) lo c ds ≡ contents m hi lo c ds ++ v ∷ []
  contents-push m v hi lo c [] u o =
      let e : suc hi - lo ≡ suc (hi - lo) = omega arith in
      ground (arith, e, slice-snoc (m c).tasks v (hi - lo) lo hi)
  contents-push m v hi lo c (d ∷ ds) u o = ground (
    arith,
    u c,
    count-last d ds,
    contents-push m v hi 0 d ds (λ a. ground (arith, u a)) (Ordered-zero hi ds),
    append_assoc (slice (m c).tasks lo (task_chunk_size - lo)) (contents m hi 0 d ds) (v ∷ []),
  )

  -- A new chunk at the end of a full one.
  pub contents-extend :
      (m : ℕ → Chunk A) (n lo c : ℕ) (ds : List ℕ)
      → ((a : ℕ) → count a (c ∷ ds) ≤ 1)
      → count n (c ∷ ds) ≡ 0
      → contents (write_next m (last c ds) (some n)) 0 lo c (ds ++ n ∷ [])
        ≡ contents m task_chunk_size lo c ds
  contents-extend m n lo c [] u h =
      ground (arith, append-nil (slice (m c).tasks lo (task_chunk_size - lo)))
  contents-extend m n lo c (d ∷ ds) u h =
      ground (arith, u c, count-last d ds, contents-extend m n 0 d ds (λ a. ground (arith, u a)))

  pub Linked-extend :
      (m : ℕ → Chunk A) (n c : ℕ) (ds : List ℕ)
      → ((a : ℕ) → count a (c ∷ ds) ≤ 1)
      → count n (c ∷ ds) ≡ 0
      → (m n).next ≡ none
      → Linked m c ds
      → Linked (write_next m (last c ds) (some n)) c (ds ++ n ∷ [])
  Linked-extend m n c [] u h e l = ground arith
  Linked-extend m n c (d ∷ ds) u h e l =
      ground (arith, u c, count-last d ds, Linked-extend m n d ds (λ a. ground (arith, u a)))

  -- The oldest task, and the chain without it.
  pub contents-pop :
      (m : ℕ → Chunk A) (v : A) (hi lo c : ℕ) (ds : List ℕ)
      → ((a : ℕ) → count a (c ∷ ds) ≤ 1)
      → lo < task_chunk_size
      → HasHead lo hi ds
      → contents m hi lo c ds ≡ (m c).tasks lo ∷ contents (write_task m c lo v) hi (suc lo) c ds
  contents-pop m v hi lo c [] u h o =
      let e : hi - lo ≡ suc (hi - suc lo) = omega arith in
      ground (arith, e, slice-write_before (m c).tasks lo v (suc lo) (hi - suc lo))
  contents-pop m v hi lo c (d ∷ ds) u h o =
      let e : task_chunk_size - lo ≡ suc (task_chunk_size - suc lo) = omega arith in
      let k = record (m c) { tasks = update (m c).tasks lo v } in
      ground (
        arith,
        e,
        u c,
        contents-frame m c k hi 0 d ds,
        slice-write_before (m c).tasks lo v (suc lo) (task_chunk_size - suc lo),
      )
