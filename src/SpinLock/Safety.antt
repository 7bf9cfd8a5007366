-- ===== src/SpinLock/Safety.antt =====
-- The lock excludes, and who waits tries again soon.
use agile_pool.Prelude.{
  ℕ, ◌+◌, ◌≤◌, ◌<◌, ◌≡◌, ◌≢◌, refl, sym, ap, ltb, lt→ltb, ◌⊎◌, inl, inr, Bool, true, false, arith,
  ◌==◌, if◌then◌else◌, Bool-cases, subst,
}
use agile_pool.Prelude.Threads.{total, total-update, weight-le-total, weight-two, total-zero}
use agile_pool.SpinLock.{
  Spot, outside, fast, fast_yield, slow, slow_yield, fallback, fallback_yield, holding, fast_spin,
  max_rounds, max_backoff, next_backoff, Act, lock, fast_win, fast_fail, fast_wait, fast_over,
  slow_win, slow_fail, slow_go, slow_next, fallback_win, fallback_fail, unlock, Goroutines, act,
  Run, begin, turn,
}

abbrev pub holds : Spot → ℕ
holds holding = 1
holds _ = 0

-- The values that the backoff takes.
abbrev Backoff : ℕ → Type 0
Backoff b = (b ≡ 1) ⊎ ((b ≡ 2) ⊎ ((b ≡ 4) ⊎ ((b ≡ 8) ⊎ (b ≡ 16))))

-- The waiting time of the slow path is within its bound.
abbrev Mild : Spot → Type 0
Mild (slow r b) = Backoff b
Mild (slow_yield r b l) = Backoff b × (l ≤ b)
Mild _ = Unit

Act-holds :
    {s s' : ℕ} {p p' : Spot}
    → Act s p s' p'
    → holds p ≤ s
    → s ≤ 1
    → (holds p + s' ≡ holds p' + s) × (s' ≤ 1)
Act-holds lock own le = (omega arith, le)
Act-holds (fast_win i free_) own le = (omega (arith, free_), omega arith)
Act-holds (slow_win r free_) own le = (omega (arith, free_), omega arith)
Act-holds (fallback_win free_) own le = (omega (arith, free_), omega arith)
Act-holds unlock own le = (omega (arith, own, le), omega arith)
Act-holds a own le = (omega arith, le)

next_backoff-Backoff : (b : ℕ) → Backoff b → Backoff (next_backoff b)
next_backoff-Backoff b h = ground (arith, h)

Act-Mild : {s s' : ℕ} {p p' : Spot} → Act s p s' p' → Mild p → Mild p'
Act-Mild lock m = tt
Act-Mild (fast_over i) m = inl refl
Act-Mild (slow_fail r held) m = (m, omega arith)
Act-Mild slow_go m = (m.0, omega (arith, m.1))
Act-Mild slow_next m = next_backoff-Backoff _ m.0
Act-Mild a m = tt

record Sound (n : ℕ) (g : Goroutines) : Type 0 where
  counted : g.state ≡ total holds n g.spot
  single : g.state ≤ 1
  mild : (i : ℕ) → Mild (g.spot i)

Run-Sound : {n : ℕ} {g : Goroutines} → Run n g → Sound n g
Run-Sound {n} begin = record {
  counted = sym (total-zero holds n (λ _. outside) (λ _. refl));
  single = omega arith;
  mild = λ i. tt;
}
Run-Sound {n} (turn {g} (act i {state} {p} a lt) r) =
    let s = Run-Sound r in
    let own : holds (g.spot i) ≤ g.state =
      omega (arith, weight-le-total holds n i g.spot lt, s.counted) in
    let h = Act-holds a own s.single in
    record {
      counted = omega (arith, h.0, s.counted, total-update holds n i g.spot p lt);
      single = h.1;
      mild = λ j. elim (Bool-cases (i == j)) [
        | inl same ↦
            subst (λ b. Mild (if b then p else g.spot j)) (sym same) (Act-Mild a (s.mild i))
        | inr other ↦ subst (λ b. Mild (if b then p else g.spot j)) (sym other) (s.mild j)
      ];
    }

-- Two goroutines never hold the lock at once, and `state` is 1 while one does.
pub holding_excludes :
    {n : ℕ} {g : Goroutines}
    → Run n g
    → (i j : ℕ) → i < n
    → j < n
    → i ≢ j
    → g.spot i ≡ holding
    → (g.state ≡ 1) × (holds (g.spot j) ≡ 0)
holding_excludes {n} {g} r i j lt lt' ne e =
    let s = Run-Sound r in
    let mine : holds (g.spot i) ≡ 1 = ap holds e in
    (
      omega (arith, s.counted, s.single, weight-le-total holds n i g.spot lt, mine),
      omega
          (arith, s.counted, s.single, mine, weight-two holds n i j g.spot outside refl lt lt' ne),
    )

-- The goroutine is at a compare-and-swap of `Lock`.
abbrev pub tries : Spot → Bool
tries (fast i) = ltb i fast_spin
tries (slow r b) = ltb r max_rounds
tries fallback = true
tries _ = false

-- How many steps of its own a waiting goroutine may make before it is at a compare-and-swap.
abbrev pub patience : Spot → ℕ
patience (fast i) = 2
patience (fast_yield i) = 3
patience (slow r b) = 1
patience (slow_yield r b l) = l + 2
patience fallback_yield = 1
patience _ = 0

Act-patience :
    {s s' : ℕ} {p p' : Spot}
    → Act s p s' p'
    → p ≢ outside
    → p ≢ holding
    → (tries p ≡ true) ⊎ (patience p' < patience p)
Act-patience lock out in_ = absurd (out refl)
Act-patience (fast_win lt z) out in_ = inl (lt→ltb _ _ lt)
Act-patience (fast_fail lt z m) out in_ = inl (lt→ltb _ _ lt)
Act-patience (fast_wait lt z m) out in_ = inl (lt→ltb _ _ lt)
Act-patience (slow_win lt z) out in_ = inl (lt→ltb _ _ lt)
Act-patience (slow_fail lt z) out in_ = inl (lt→ltb _ _ lt)
Act-patience (fallback_win z) out in_ = inl refl
Act-patience (fallback_fail z) out in_ = inl refl
Act-patience unlock out in_ = absurd (in_ refl)
Act-patience a out in_ = inr (omega arith)

Mild-patience : (p : Spot) → Mild p → patience p ≤ max_backoff + 2
Mild-patience (slow_yield r b l) m = ground (arith, m)
Mild-patience outside m = omega arith
Mild-patience p m = omega arith

-- A goroutine in `Lock` makes its next try after 18 steps of its own at most, whatever the others
-- do: where it does not try its patience gets less, and that is never more than 18.
pub tries_soon :
    {n : ℕ} {g : Goroutines} {s : ℕ} {p : Spot}
    → Run n g
    → (i : ℕ) → Act g.state (g.spot i) s p
    → g.spot i ≢ outside
    → g.spot i ≢ holding
    → (patience (g.spot i) ≤ max_backoff + 2)
      × ((tries (g.spot i) ≡ true) ⊎ (patience p < patience (g.spot i)))
tries_soon {g = g} r i a out in_ =
    (Mild-patience (g.spot i) ((Run-Sound r).mild i), Act-patience a out in_)
