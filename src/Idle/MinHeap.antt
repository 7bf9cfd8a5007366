-- ===== src/Idle/MinHeap.antt =====
-- internal/idle/heap.go: a binary heap by date, and what it uses of container/heap. An array is a
-- family of slots with a length; `zero_value` is what a slot holds that has no element.
pub mod Sift
pub mod Dates
pub mod Order
pub mod Replay
use agile_pool.Prelude.{
  ℕ, zero, suc, ◌+◌, ◌*◌, ◌-◌, ◌/◌, Bool, true, false, ◌&&◌, ◌||◌, not, Option, none, some, ltb,
  leb, ◌==◌, if◌then◌else◌,
}
use agile_pool.Prelude.Update.{update}
use agile_pool.Idle.{IdleContainer, stays}

pub record MinHeap {ℓ} (A : Type ℓ) : Type ℓ where
  pub inner : ℕ → A
  pub inner_len : ℕ
  pub size : ℕ

module _ {ℓ} {A : Type ℓ} where
  unfoldable pub swap : ℕ → ℕ → (ℕ → A) → ℕ → A
  swap i j a = update (update a i (a j)) j (a i)

  module _ (date : A → ℕ) where
    abbrev pub less : ℕ → ℕ → (ℕ → A) → Bool
    less i j a = ltb (date (a i)) (date (a j))

    -- `heap.up`, with fuel: at `j` itself at most `j` rounds are left.
    pub up : ℕ → ℕ → (ℕ → A) → ℕ → A
    up zero j a = a
    up (suc fuel) j a =
        let i = (j - 1) / 2 in
        elim ((i == j) || not (less j i a)) [ true ↦ a | false ↦ up fuel i (swap i j a) ]

    -- The child of `i` that is smaller.
    pub smaller : ℕ → ℕ → (ℕ → A) → ℕ
    smaller i n a =
        let j1 = 2 * i + 1 in let j2 = j1 + 1 in if ltb j2 n && less j2 j1 a then j2 else j1

    -- `heap.down`
    pub down : ℕ → ℕ → ℕ → (ℕ → A) → ℕ → A
    down zero i n a = a
    down (suc fuel) i n a =
        let j = smaller i n a in
        elim (leb n (2 * i + 1) || not (less j i a)) [
          | true ↦ a
          | false ↦ down fuel j n (swap i j a)
        ]

    module _ (zero_value : A) where
      -- `minHeapInner.Push`, and `heap.Push`
      pub heap_push : A → MinHeap A → MinHeap A
      heap_push x h = record h {
        inner = up (suc h.inner_len) h.inner_len (update h.inner h.inner_len x);
        inner_len = suc h.inner_len;
      }

      -- `minHeapInner.Pop`
      pub inner_pop : MinHeap A → A × MinHeap A
      inner_pop h =
          let n = h.inner_len - 1 in
          (h.inner n, record h { inner = update h.inner n zero_value; inner_len = n })

      -- `heap.Pop`
      pub heap_pop : MinHeap A → A × MinHeap A
      heap_pop h =
          let n = h.inner_len - 1 in
          inner_pop (record h { inner = down (suc n) 0 n (swap 0 n h.inner) })

      pub new_min_heap : MinHeap A
      new_min_heap = record { inner = λ _. zero_value; inner_len = 0; size = 0 }

      pub add : A → MinHeap A → MinHeap A
      add w h = let h' = heap_push w h in record h' { size = suc h'.size }

      pub pop : MinHeap A → Option A × MinHeap A
      pop h =
          let (w, h') = heap_pop h in
          if h.inner_len == 0 then (none, h) else (some w, record h' { size = h'.size - 1 })

      -- A round of the loop takes an element out, so as many rounds as elements are enough.
      pub remove_loop : ℕ → (now expiry removed : ℕ) → MinHeap A → ℕ × MinHeap A
      remove_loop zero now expiry removed h = (removed, h)
      remove_loop (suc fuel) now expiry removed h =
          elim (h.inner_len == 0 || stays date now expiry (h.inner 0)) [
            | true ↦ (removed, h)
            | false ↦ remove_loop fuel now expiry (suc removed) (pop h).1
          ]

      pub remove_expired : (now expiry : ℕ) → MinHeap A → ℕ × MinHeap A
      remove_expired now expiry h = remove_loop h.inner_len now expiry 0 h

      abbrev pub min_heap : IdleContainer A
      min_heap = record {
        State = MinHeap A;
        new = new_min_heap;
        add = add;
        pop = pop;
        remove_expired = remove_expired;
        len = λ h. h.size;
      }
