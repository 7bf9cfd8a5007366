-- ===== src/Idle/MinHeap/Order.antt =====
-- The dates in the heap are those of a sorted list, and `Pop` takes the first.
use agile_pool.Prelude.{
  ℕ, suc, ◌+◌, ◌-◌, ◌≡◌, refl, sym, ap, ap₂, ◌∙◌, subst, inl, inr, true, false, ◌||◌, Option, none,
  some, List, [], ◌∷◌, arith, ◌==◌, Bool-cases, length, keep, length-keep-le,
}
use agile_pool.Prelude.Update.{update}
use agile_pool.Prelude.Threads.{total, total-suc, total-none, total-update_past}
use agile_pool.Idle.{stays}
use agile_pool.Idle.Queue.{by_date, first}
use agile_pool.Idle.Sorted.{Sorted}
use agile_pool.Idle.MinHeap.{
  MinHeap, swap, down, heap_push, inner_pop, heap_pop, new_min_heap, add, pop, remove_loop,
  remove_expired,
}
use agile_pool.Idle.MinHeap.Sift.{
  Heap, Rising, Sinking, up-Heap, down-Heap, up-total, swap-total, down-total, down-above,
}
use agile_pool.Idle.MinHeap.Dates.{
  itself, hits, count, count-by_date, Sorted-by_date, length-by_date, keep-all, root-first,
  some_date,
}

module _ {ℓ} {A : Type ℓ} (date : A → ℕ) (zero_value : A) where
  -- The heap has the dates `ds`, which are sorted.
  pub record Holds (h : MinHeap A) (ds : List ℕ) : Type ℓ where
    pub heap : Heap date h.inner_len h.inner
    pub sorted : Sorted itself ds
    pub same : (k : ℕ) → total (hits date k) h.inner_len h.inner ≡ count k ds
    pub filled : h.inner_len ≡ length ds
    pub sized : h.size ≡ length ds

  push-Rising : (n : ℕ) (a : ℕ → A) (x : A) → Heap date n a → Rising date (suc n) n (update a n x)
  push-Rising n a x h = record {
    edges = λ c p q ne. ground (arith, h c p);
    bridged = λ c p q e pos. absurd (omega (arith, e, q, pos));
  }

  pub add-Holds :
      (x : A) (h : MinHeap A) (ds : List ℕ)
      → Holds h ds
      → Holds (add date zero_value x h) (by_date itself (date x) ds)
  unfolding add heap_push
  add-Holds x h ds v =
      let n = h.inner_len in
      let a = update h.inner n x in
      let self : (n == n) ≡ true = ground arith in
      record {
        heap =
            up-Heap date (suc n) (suc n) n a (omega arith) (omega arith)
              (push-Rising n h.inner x v.heap);
        sorted = Sorted-by_date (date x) ds v.sorted;
        same = λ k.
            up-total date (hits date k) (suc n) (suc n) n a (omega arith)
            ∙ (total-suc (hits date k) n a
                ∙ (ap₂ ◌+◌ (rw self refl)
                      (total-update_past (hits date k) n n h.inner x (omega arith) ∙ v.same k)
                    ∙ sym (count-by_date k (date x) ds)));
        filled = omega (arith, v.filled, length-by_date (date x) ds);
        sized = omega (arith, v.sized, length-by_date (date x) ds);
      }

  pop-Sinking : (n : ℕ) (a : ℕ → A) → Heap date (suc n) a → Sinking date n 0 (swap 0 n a)
  unfolding swap
  pop-Sinking n a h = record {
    edges = λ c p q ne. ground (arith, h c p);
    bridged = λ c p q e pos. absurd (omega (arith, pos));
  }

  -- The heap without its root.
  abbrev rootless : ℕ → (ℕ → A) → ℕ → A
  rootless n a = update (down date (suc n) 0 n (swap 0 n a)) n zero_value

  last-root : (n : ℕ) (a : ℕ → A) → down date (suc n) 0 n (swap 0 n a) n ≡ a 0
  unfolding swap
  last-root n a = down-above date (suc n) n 0 n (swap 0 n a) (omega arith) ∙ ground arith

  rootless-same :
      (n : ℕ) (a : ℕ → A) (k : ℕ)
      → hits date k (a 0) + total (hits date k) n (rootless n a) ≡ total (hits date k) (suc n) a
  rootless-same n a k =
      let b = swap 0 n a in
      let c = down date (suc n) 0 n b in
      let w = hits date k in
      omega (
        arith,
        ap w (last-root n a),
        total-suc w n c,
        total-update_past w n n c zero_value (omega arith),
        down-total date w (suc n) n (suc n) 0 b (omega arith) (omega arith),
        swap-total date w (suc n) 0 n a (omega arith) (omega arith),
      )

  rootless-Heap : (n : ℕ) (a : ℕ → A) → Heap date (suc n) a → Heap date n (rootless n a)
  rootless-Heap n a h c p q =
      ground
        (arith, down-Heap date (suc n) n 0 (swap 0 n a) (omega arith) (pop-Sinking n a h) c p q)

  pop-eq :
      (n z : ℕ) (a : ℕ → A)
      → pop date zero_value (record { inner = a; inner_len = suc n; size = z })
        ≡ (some (a 0), record { inner = rootless n a; inner_len = n; size = z - 1 })
  unfolding pop heap_pop inner_pop
  pop-eq n z a =
      let less_one : suc n - 1 ≡ n = omega arith in
      let full : (suc n == 0) ≡ false = ground arith in
      rw (full, less_one)
        (ap (λ x. (some x, record { inner = rootless n a; inner_len = n; size = z - 1 }))
          (last-root n a))

  -- The root of a heap has the first of its dates.
  root-date : (h : MinHeap A) (d : ℕ) (ds : List ℕ) → Holds h (d ∷ ds) → date (h.inner 0) ≡ d
  root-date h d ds v =
      root-first date h.inner_len h.inner d ds (omega (arith, v.filled)) v.heap v.sorted v.same

  pub pop-Holds :
      (h : MinHeap A) (ds : List ℕ)
      → Holds h ds
      → (some_date date (pop date zero_value h).0 ≡ (first ds).0)
        × Holds (pop date zero_value h).1 (first ds).1
  unfolding pop
  pop-Holds h [] v =
      let none_left : (h.inner_len == 0) ≡ true = ground (arith, v.filled) in
      let kept : pop date zero_value h ≡ (none, h) = rw (none_left, pop) refl in
      subst (λ (r : Option A × MinHeap A). (some_date date r.0 ≡ none) × Holds r.1 []) (sym kept)
        (refl, v)
  pop-Holds h (d ∷ ds) v =
      let n = length ds in
      let a = h.inner in
      let heap : Heap date (suc n) a = subst (λ k. Heap date k a) v.filled v.heap in
      let same = λ (k : ℕ). ap (λ m. total (hits date k) m a) (sym v.filled) ∙ v.same k in
      let root = root-date h d ds v in
      let popped =
        ap (λ k. pop date zero_value (record h { inner_len = k })) v.filled ∙ pop-eq n h.size a in
      subst (λ (r : Option A × MinHeap A). (some_date date r.0 ≡ some d) × Holds r.1 ds)
        (sym popped)
        (
          ap some root,
          record {
            heap = rootless-Heap n a heap;
            sorted = v.sorted.1;
            same = λ k. ground (arith, rootless-same n a k, same k, root);
            filled = refl;
            sized = omega (arith, v.sized);
          },
        )

  -- The loop, on as many rounds as there are elements.
  remove_loop-Holds :
      (now expiry removed : ℕ) (h : MinHeap A) (ds : List ℕ)
      → Holds h ds
      → let r = remove_loop date zero_value (length ds) now expiry removed h in
        let rest = keep (stays itself now expiry) ds in
        (r.0 ≡ removed + (length ds - length rest)) × Holds r.1 rest
  unfolding remove_loop
  remove_loop-Holds now expiry removed h [] v = (omega arith, v)
  remove_loop-Holds now expiry removed h (d ∷ ds) v =
      let root = root-date h d ds v in
      let some_left : (h.inner_len == 0) ≡ false = ground (arith, v.filled) in
      elim (Bool-cases (stays itself now expiry d)) [
        | inl stay ↦
            let over : ((h.inner_len == 0) || stays date now expiry (h.inner 0)) ≡ true =
              ground (arith, root, stay) in
            let all = keep-all now expiry d (d ∷ ds) stay (omega arith, v.sorted.0) in
            rw (over, remove_loop)
              (subst (λ rest. (removed ≡ removed + (suc (length ds) - length rest)) × Holds h rest)
                (sym all) (omega arith, v))
        | inr gone ↦
            let more : ((h.inner_len == 0) || stays date now expiry (h.inner 0)) ≡ false =
              ground (arith, root, gone, some_left) in
            let ih =
              remove_loop-Holds now expiry (suc removed) (pop date zero_value h).1 ds
                (pop-Holds h (d ∷ ds) v).1 in
            let fewer = length-keep-le (stays itself now expiry) ds in
            rw (more, remove_loop) (rw gone (omega (arith, ih.0, fewer), ih.1))
      ]

  pub remove_expired-Holds :
      (now expiry : ℕ) (h : MinHeap A) (ds : List ℕ)
      → Holds h ds
      → let r = remove_expired date zero_value now expiry h in
        let rest = keep (stays itself now expiry) ds in
        (r.0 ≡ length ds - length rest) × Holds r.1 rest
  unfolding remove_expired
  remove_expired-Holds now expiry h ds v =
      let rest = keep (stays itself now expiry) ds in
      let p = remove_loop-Holds now expiry 0 h ds v in
      subst
        (λ k.
          ((remove_loop date zero_value k now expiry 0 h).0 ≡ length ds - length rest)
          × Holds (remove_loop date zero_value k now expiry 0 h).1 rest)
        (sym v.filled) (omega (arith, p.0), p.1)

  pub new-Holds : Holds (new_min_heap date zero_value) []
  unfolding new_min_heap
  new-Holds = record {
    heap = λ c p q. absurd (omega (arith, q));
    sorted = tt;
    same = λ k. total-none (hits date k) _;
    filled = refl;
    sized = refl;
  }
