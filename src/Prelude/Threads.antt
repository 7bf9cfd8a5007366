-- ===== src/Prelude/Threads.antt =====
-- The threads of a system are a family `ℕ → A`: sums of a weight over the first `n` of them.
use agile_pool.Prelude.{
  ℕ, zero, suc, ◌+◌, ◌≤◌, ◌<◌, ◌≡◌, refl, ap, ◌≢◌, arith, ltb, Bool-cases, inl, inr,
}
use agile_pool.Prelude.Update.{update}

module _ {ℓ} {A : Type ℓ} (weight : A → ℕ) where
  pub total : ℕ → (ℕ → A) → ℕ
  total zero pcs = 0
  total (suc n) pcs = weight (pcs n) + total n pcs

  pub total-none : (pcs : ℕ → A) → total 0 pcs ≡ 0
  unfolding total
  total-none pcs = refl

  pub total-suc : (n : ℕ) (pcs : ℕ → A) → total (suc n) pcs ≡ weight (pcs n) + total n pcs
  unfolding total
  total-suc n pcs = refl

  pub total-update_past :
      (n i : ℕ) (pcs : ℕ → A) (p : A) → n ≤ i → total n (update pcs i p) ≡ total n pcs
  unfolding total
  total-update_past zero i pcs p h = refl
  total-update_past (suc n) i pcs p h = ground (arith, total-update_past n i pcs p)

  -- A step of thread `i` changes the sum by the change of its weight.
  pub total-update :
      (n i : ℕ) (pcs : ℕ → A) (p : A)
      → i < n
      → weight (pcs i) + total n (update pcs i p) ≡ weight p + total n pcs
  unfolding total
  total-update zero i pcs p h = absurd (omega arith)
  total-update (suc n) i pcs p h = elim (Bool-cases (ltb i n)) [
    | inl inside ↦ ground (arith, total-update n i pcs p)
    | inr last ↦ ground (arith, total-update_past n i pcs p)
  ]

  pub weight-le-total : (n i : ℕ) (pcs : ℕ → A) → i < n → weight (pcs i) ≤ total n pcs
  unfolding total
  weight-le-total zero i pcs h = absurd (omega arith)
  weight-le-total (suc n) i pcs h = elim (Bool-cases (ltb i n)) [
    | inl inside ↦ ground (arith, weight-le-total n i pcs)
    | inr last ↦ ground arith
  ]

  pub total-zero : (n : ℕ) (pcs : ℕ → A) → ((i : ℕ) → weight (pcs i) ≡ 0) → total n pcs ≡ 0
  unfolding total
  total-zero zero pcs h = refl
  total-zero (suc n) pcs h = omega (arith, h n, total-zero n pcs h)

  pub total-positive :
      (n : ℕ) (pcs : ℕ → A) → 0 < total n pcs → (i : ℕ) × (i < n) × (0 < weight (pcs i))
  unfolding total
  total-positive zero pcs h = absurd (omega arith)
  total-positive (suc n) pcs h = elim (Bool-cases (ltb 0 (weight (pcs n)))) [
    | inl here ↦ (n, omega arith, ground arith)
    | inr there ↦ let (i, lt, pos) = total-positive n pcs (ground arith) in (i, omega arith, pos)
  ]

  -- Thread `i` steps to `p` and starts thread `j`, which stood at `r`, at `q`.
  pub total-spawn :
      (n i j : ℕ) (pcs : ℕ → A) (p q : A) {r : A}
      → i < n
      → j < n
      → i ≢ j
      → pcs j ≡ r
      → weight (pcs i) + weight r + total n (update (update pcs i p) j q)
        ≡ weight p + weight q + total n pcs
  total-spawn n i j pcs p q hi hj ne e =
      ground (arith, total-update n i pcs p hi, total-update n j (update pcs i p) q hj, ap weight e)

  -- Two threads count separately.
  pub weight-two :
      (n i j : ℕ) (pcs : ℕ → A) (z : A)
      → weight z ≡ 0
      → i < n
      → j < n
      → i ≢ j
      → weight (pcs i) + weight (pcs j) ≤ total n pcs
  weight-two n i j pcs z e hi hj ne =
      ground (arith, total-update n i pcs z hi, weight-le-total n j (update pcs i z) hj)

pub total_mono {ℓ} :
    {A : Type ℓ} (v w : A → ℕ) (n : ℕ) (pcs : ℕ → A)
    → ((a : A) → v a ≤ w a)
    → total v n pcs ≤ total w n pcs
unfolding total
total_mono v w zero pcs h = omega arith
total_mono v w (suc n) pcs h = omega (arith, h (pcs n), total_mono v w n pcs h)

pub total-zero_of {ℓ} :
    {A : Type ℓ} (v w : A → ℕ) (n : ℕ) (pcs : ℕ → A)
    → ((a : A) → v a ≡ 0 → w a ≡ 0)
    → total v n pcs ≡ 0
    → total w n pcs ≡ 0
unfolding total
total-zero_of v w zero pcs h e = refl
total-zero_of v w (suc n) pcs h e =
    omega (arith, h (pcs n) (omega (arith, e)), total-zero_of v w n pcs h (omega (arith, e)))
