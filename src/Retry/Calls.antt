-- ===== src/Retry/Calls.antt =====
-- How often the task is called.
use agile_pool.Prelude.{
  ℕ, zero, suc, ◌+◌, ◌≤◌, ◌<◌, ◌≡◌, refl, sym, ap, subst, ◌∙◌, inl, inr, Bool, true, false, List,
  [], ◌∷◌, arith, Bool-cases, ltb, ◌^◌, ◌≢◌, if◌then◌else◌,
}
use agile_pool.Prelude.Int.{pos_part}
use agile_pool.Retry.{TaskWithRetry, to_int, Event, called, slept, retries, process}

abbrev pub calls : List Event → ℕ
calls [] = 0
calls (called ∷ es) = suc (calls es)
calls (slept d ∷ es) = calls es

-- `n` calls from number `i` on: all but the last one fail, and there are fewer than `most` only
-- when the last one does not.
abbrev pub Ends : (ℕ → Bool) → (i n most : ℕ) → Type 0
Ends fails i n most =
    (n ≤ most)
    × ((j : ℕ) → suc j < n → fails (i + j) ≡ true)
    × (n < most → (k : ℕ) × (n ≡ suc k) × (fails (i + k) ≡ false))

module _ (wild : ℕ → ℕ) (t : TaskWithRetry) (fails : ℕ → Bool) where
  later : (i j : ℕ) → fails (suc i + j) ≡ fails (i + suc j)
  later i j = ap fails (omega arith)

  -- One call, and the others if it fails.
  Ends-suc :
      (i n most : ℕ) → fails i ≡ true → Ends fails (suc i) n most → Ends fails i (suc n) (suc most)
  Ends-suc i n most failed h = (omega (arith, h.0), failing, last)
    where
      failing : (j : ℕ) → suc j < suc n → fails (i + j) ≡ true
      failing zero lt = ap fails (omega arith) ∙ failed
      failing (suc j) lt = sym (later i j) ∙ h.1 j (omega (arith, lt))

      last : suc n < suc most → (k : ℕ) × (suc n ≡ suc k) × (fails (i + k) ≡ false)
      last lt = let (k, e, ok) = h.2 (omega (arith, lt)) in (suc k, ap suc e, sym (later i k) ∙ ok)

  retries-Ends : (r i : ℕ) → Ends fails i (calls (retries wild t fails r i)) r
  unfolding retries
  retries-Ends zero i =
      (omega arith, λ j h. absurd (omega (arith, h)), λ h. absurd (omega (arith, h)))
  retries-Ends (suc r) i = elim (Bool-cases (fails i)) [
    | inl failed ↦
        subst
          (λ b.
            Ends fails i (suc (calls (if b then retries wild t fails r (suc i) else []))) (suc r))
          (sym failed) (Ends-suc i _ r failed (retries-Ends r (suc i)))
    | inr ok ↦
        subst
          (λ b.
            Ends fails i (suc (calls (if b then retries wild t fails r (suc i) else []))) (suc r))
          (sym ok)
          (
            omega arith,
            λ j h. absurd (omega (arith, h)),
            λ h. (0, refl, ap fails (omega arith) ∙ ok),
          )
  ]

  process-calls : Ends fails 0 (calls (process wild t fails)) (suc (pos_part (to_int t.retry_num)))
  unfolding process retries
  process-calls = retries-Ends (suc (pos_part (to_int t.retry_num))) 0

  -- For a RetryNum below 2 ^ 63 - 1, `process` calls the task RetryNum + 1 times at most; every call
  -- but the last fails, and when there are fewer the last one succeeds. For one from 2 ^ 63 on it
  -- calls the task once, whether or not that fails.
  pub process-Ends :
      suc t.retry_num ≢ 2 ^ 63
      → Ends fails 0
          (calls (process wild t fails))
          (if ltb t.retry_num (2 ^ 63) then suc t.retry_num else 1)
  process-Ends counted =
      let rounds : suc (pos_part (to_int t.retry_num))
          ≡ (if ltb t.retry_num (2 ^ 63) then suc t.retry_num else 1) =
        ground arith in
      subst (Ends fails 0 (calls (process wild t fails))) rounds process-calls
