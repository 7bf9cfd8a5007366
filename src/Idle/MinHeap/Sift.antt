-- ===== src/Idle/MinHeap/Sift.antt =====
-- `up` and `down` put the heap in order.
use agile_pool.Prelude.{
  ℕ, zero, suc, ◌+◌, ◌*◌, ◌-◌, ◌/◌, ◌≤◌, ◌<◌, ◌≡◌, ◌≢◌, refl, ◌∙◌, ◌⊎◌, inl, inr, ◌||◌, not, arith,
  leb, ◌==◌, Bool-cases,
}
use agile_pool.Prelude.Update.{update}
use agile_pool.Prelude.Threads.{total, total-update}
use agile_pool.Idle.MinHeap.{swap, less, up, smaller, down}

abbrev pub parent : ℕ → ℕ
parent c = (c - 1) / 2

module _ {ℓ} {A : Type ℓ} (date : A → ℕ) where
  -- Each of the first `n` is not before its parent.
  abbrev pub Heap : ℕ → (ℕ → A) → Type 0
  Heap n a = (c : ℕ) → 0 < c → c < n → date (a (parent c)) ≤ date (a c)

  -- Only the edge above `j` may be out of order.
  pub record Rising (n j : ℕ) (a : ℕ → A) : Type 0 where
    pub edges : (c : ℕ) → 0 < c → c < n → c ≢ j → date (a (parent c)) ≤ date (a c)
    pub bridged : (c : ℕ) → 0 < c → c < n → parent c ≡ j → 0 < j → date (a (parent j)) ≤ date (a c)

  swap-Rising :
      (n j : ℕ) (a : ℕ → A)
      → j < n
      → 0 < j
      → date (a j) < date (a (parent j))
      → Rising n j a
      → Rising n (parent j) (swap (parent j) j a)
  unfolding swap
  swap-Rising n j a lt pos less_ v = record {
    edges = λ c p q ne. ground (arith, v.edges c p q, v.bridged c p q);
    bridged = λ c p q e pos'. ground (arith, v.edges c p q, v.edges (parent j), v.bridged c p q);
  }

  pub up-Heap :
      (fuel n j : ℕ) (a : ℕ → A) → j < fuel → j < n → Rising n j a → Heap n (up date fuel j a)
  unfolding up
  up-Heap zero n j a f lt v = absurd (omega arith)
  up-Heap (suc fuel) n j a f lt v =
      elim (Bool-cases ((parent j == j) || not (less date j (parent j) a))) [
        | inl over ↦ rw (over, up) (λ c p q. ground (arith, v.edges c p q))
        | inr more ↦
            rw (more, up)
              (up-Heap fuel n (parent j) (swap (parent j) j a) (ground arith) (ground arith)
                (swap-Rising n j a lt (ground arith) (ground arith) v))
      ]

  -- Only the edges below `i` may be out of order.
  pub record Sinking (n i : ℕ) (a : ℕ → A) : Type 0 where
    pub edges : (c : ℕ) → 0 < c → c < n → parent c ≢ i → date (a (parent c)) ≤ date (a c)
    pub bridged : (c : ℕ) → 0 < c → c < n → parent c ≡ i → 0 < i → date (a (parent i)) ≤ date (a c)

  -- `m` is the child of `i` with the earlier date.
  record IsSmaller (n i m : ℕ) (a : ℕ → A) : Type 0 where
    inside : m < n
    child : (m ≡ 2 * i + 1) ⊎ (m ≡ 2 * i + 2)
    least : (c : ℕ) → 0 < c → c < n → parent c ≡ i → date (a m) ≤ date (a c)

  children : (c i : ℕ) → 0 < c → parent c ≡ i → (c ≡ 2 * i + 1) ⊎ (c ≡ 2 * i + 2)
  children c i p e = ground arith

  smaller-IsSmaller : (n i : ℕ) (a : ℕ → A) → 2 * i + 1 < n → IsSmaller n i (smaller date i n a) a
  unfolding smaller
  smaller-IsSmaller n i a h = record {
    inside = ground arith;
    child = ground arith;
    least = λ c p q e. ground (arith, children c i p e);
  }

  swap-Sinking :
      (n i m : ℕ) (a : ℕ → A)
      → Sinking n i a
      → IsSmaller n i m a
      → date (a m) < date (a i)
      → Sinking n m (swap i m a)
  unfolding swap
  swap-Sinking n i m a v s below = record {
    edges = λ c p q ne. ground (
      arith,
      s.child,
      s.inside,
      v.edges c p q,
      v.bridged m (omega (arith, s.child)) s.inside,
      s.least c p q,
    );
    bridged = λ c p q e pos. ground (arith, s.child, v.edges c p q);
  }

  pub down-Heap :
      (fuel n i : ℕ) (a : ℕ → A) → n < fuel + i → Sinking n i a → Heap n (down date fuel i n a)
  unfolding down
  down-Heap zero n i a f v = λ c p q. ground (arith, v.edges c p q)
  down-Heap (suc fuel) n i a f v =
      elim (Bool-cases (leb n (2 * i + 1) || not (less date (smaller date i n a) i a))) [
        | inl over ↦
            rw (over, down)
              (λ c p q. elim (Bool-cases (leb n (2 * i + 1))) [
                | inl childless ↦ ground (arith, v.edges c p q, children c i p)
                | inr parents ↦
                    let s = smaller-IsSmaller n i a (ground arith) in
                    ground (arith, v.edges c p q, s.least c p q)
              ])
        | inr more ↦
            let s = smaller-IsSmaller n i a (ground arith) in
            rw (more, down)
              (down-Heap fuel n (smaller date i n a) (swap i (smaller date i n a) a)
                (ground (arith, s.child))
                (swap-Sinking n i (smaller date i n a) a v s (ground arith)))
      ]

  -- `down` leaves what is not among the first `n`.
  pub down-above : (fuel n i k : ℕ) (a : ℕ → A) → n ≤ k → down date fuel i n a k ≡ a k
  unfolding down swap
  down-above zero n i k a le = refl
  down-above (suc fuel) n i k a le =
      elim (Bool-cases (leb n (2 * i + 1) || not (less date (smaller date i n a) i a))) [
        | inl over ↦ rw (over, down) refl
        | inr more ↦
            let s = smaller-IsSmaller n i a (ground arith) in
            let below : smaller date i n a < k = omega (arith, s.inside, le) in
            rw (more, down)
              (down-above fuel n (smaller date i n a) k (swap i (smaller date i n a) a) le
                ∙ ground (arith, below, s.child))
      ]

  -- Swaps keep every sum over the elements.
  module _ (weight : A → ℕ) where
    pub swap-total :
        (n i j : ℕ) (a : ℕ → A) → i < n → j < n → total weight n (swap i j a) ≡ total weight n a
    unfolding swap
    swap-total n i j a hi hj = ground (
      arith,
      total-update weight n i a (a j) hi,
      total-update weight n j (update a i (a j)) (a i) hj,
    )

    pub up-total :
        (fuel n j : ℕ) (a : ℕ → A) → j < n → total weight n (up date fuel j a) ≡ total weight n a
    unfolding up
    up-total zero n j a lt = refl
    up-total (suc fuel) n j a lt =
        elim (Bool-cases ((parent j == j) || not (less date j (parent j) a))) [
          | inl over ↦ rw (over, up) refl
          | inr more ↦
              let above : parent j < n = omega (arith, lt) in
              rw (more, up)
                (up-total fuel n (parent j) (swap (parent j) j a) above
                  ∙ swap-total n (parent j) j a above lt)
        ]

    pub down-total :
        (fuel n m i : ℕ) (a : ℕ → A)
        → n ≤ m
        → i < m
        → total weight m (down date fuel i n a) ≡ total weight m a
    unfolding down
    down-total zero n m i a le lt = refl
    down-total (suc fuel) n m i a le lt =
        elim (Bool-cases (leb n (2 * i + 1) || not (less date (smaller date i n a) i a))) [
          | inl over ↦ rw (over, down) refl
          | inr more ↦
              let s = smaller-IsSmaller n i a (ground arith) in
              let below : smaller date i n a < m = omega (arith, s.inside, le) in
              rw (more, down)
                (down-total fuel n m (smaller date i n a) (swap i (smaller date i n a) a) le below
                  ∙ swap-total m i (smaller date i n a) a lt below)
        ]
