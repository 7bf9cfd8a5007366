-- ===== src/DefaultPool/Safety.antt =====
-- The default pool is the latest one, until that is closed.
use agile_pool.Prelude.{
  ℕ, zero, suc, ◌≤◌, ◌<◌, ◌≡◌, ◌≢◌, refl, sym, ap, ◌∙◌, subst, Bool, true, false, Option, none,
  some, arith, ◌==◌, if◌then◌else◌, Bool-cases, Option-cases, inl, inr,
}
use agile_pool.Prelude.Update.{update}
use agile_pool.Prelude.Threads.{total, total-update}
use agile_pool.DefaultPool.{
  Shared, Pc, idle, clearing, loaded, returned, Move, System, act, init, Reach, start, next,
}

-- A Close of pool `k` that is about to look at the pointer.
abbrev pub clears : ℕ → Pc → ℕ
clears k (clearing j) = if j == k then 1 else 0
clears k idle = 0
clears k (loaded o) = 0
clears k (returned o) = 0

-- What the pointer is for: the latest pool, if it is open.
abbrev pub latest : (ℕ → Bool) → ℕ → Option ℕ
latest closed zero = none
latest closed (suc k) = if closed k then none else some k

-- A goroutine that clears pool `k` finds it closed.
abbrev Clears : Shared → Pc → Type 0
Clears m (clearing k) = m.closed k ≡ true
Clears m p = Unit

record Inv (n : ℕ) (m : Shared) (pc : ℕ → Pc) : Type 0 where
  pub kept : (k : ℕ) → m.next_pool ≡ suc k → m.closed k ≡ false → m.default_pool ≡ some k
  pub only_latest : (k : ℕ) → m.default_pool ≡ some k → m.next_pool ≡ suc k
  pub cleared : (k : ℕ) → m.default_pool ≡ some k → m.closed k ≡ true → 0 < total (clears k) n pc
  pub fresh : (k : ℕ) → m.next_pool ≤ k → m.closed k ≡ false
  pub after_close : (i : ℕ) → Clears m (pc i)

some-injective : {j k : ℕ} → some j ≡ some k → j ≡ k
some-injective e = cc

Clears-close :
    (m : Shared) (k : ℕ) (p : Pc)
    → Clears m p
    → Clears (record m { closed = update m.closed k true }) p
Clears-close m k (clearing j) h = ground arith
Clears-close m k idle h = tt
Clears-close m k (loaded o) h = tt
Clears-close m k (returned o) h = tt

module _ (n : ℕ) (m : Shared) (pc : ℕ → Pc) (i : ℕ) (inside : i < n) where
  Clears-update :
      (m' : Shared) (p : Pc)
      → Clears m' p
      → ((j : ℕ) → Clears m' (pc j))
      → (j : ℕ) → Clears m' (update pc i p j)
  Clears-update m' p c h j = elim (Bool-cases (i == j)) [
    | inl same ↦ rw same c
    | inr other ↦ rw other (h j)
  ]

  -- A step to `p` that leaves the memory and is in no Close.
  quiet :
      (p : Pc)
      → ((k : ℕ) → clears k p ≡ 0)
      → Clears m p
      → ((k : ℕ) → m.default_pool ≡ some k → clears k (pc i) ≡ 0)
      → Inv n m pc
      → Inv n m (update pc i p)
  quiet p none_ c not_now h = record {
    kept = h.kept;
    only_latest = h.only_latest;
    cleared = λ k e shut.
        omega (
          arith,
          total-update (clears k) n i pc p inside,
          not_now k e,
          none_ k,
          h.cleared k e shut,
        );
    fresh = h.fresh;
    after_close = Clears-update m p c h.after_close;
  }

  -- One that starts outside of Close.
  outside :
      (q p : Pc)
      → pc i ≡ q
      → ((k : ℕ) → clears k q ≡ 0)
      → ((k : ℕ) → clears k p ≡ 0)
      → Clears m p
      → Inv n m pc
      → Inv n m (update pc i p)
  outside q p at before none_ c h = quiet p none_ c (λ k _. ap (clears k) at ∙ before k) h

  publish-Inv :
      pc i ≡ idle
      → Inv n m pc
      → Inv n
          (record m { default_pool = some m.next_pool; next_pool = suc m.next_pool })
          (update pc i idle)
  publish-Inv at h = record {
    kept = λ k e shut. ap some (omega (arith, e));
    only_latest = λ k e. ap suc (some-injective e);
    cleared = λ k e shut.
        let new : m.next_pool ≡ k = some-injective e in cc (h.fresh k (omega (arith, new)));
    fresh = λ k le. h.fresh k (omega (arith, le));
    after_close =
        Clears-update (record m { default_pool = some m.next_pool; next_pool = suc m.next_pool })
          idle tt h.after_close;
  }

  close-Inv :
      (k : ℕ)
      → pc i ≡ idle
      → k < m.next_pool
      → Inv n m pc
      → Inv n (record m { closed = update m.closed k true }) (update pc i (clearing k))
  close-Inv k at lt h = record {
    kept = λ j e shut. h.kept j e (ground (arith, shut));
    only_latest = h.only_latest;
    cleared = λ j e shut. elim (Bool-cases (k == j)) [
      | inl same ↦ ground (arith, total-update (clears j) n i pc (clearing k) inside)
      | inr other ↦ ground (
        arith,
        total-update (clears j) n i pc (clearing k) inside,
        ap (clears j) at,
        h.cleared j e (ground (arith, shut)),
      )
    ];
    fresh = λ j le. ground (arith, h.fresh j le);
    after_close =
        Clears-update (record m { closed = update m.closed k true }) (clearing k) (ground arith)
          (λ j. Clears-close m k (pc j) (h.after_close j));
  }

  swap_nil-Inv :
      (k : ℕ)
      → pc i ≡ clearing k
      → m.default_pool ≡ some k
      → Inv n m pc
      → Inv n (record m { default_pool = none }) (update pc i idle)
  swap_nil-Inv k at e h = record {
    kept = λ j last open_.
        let here : m.closed k ≡ true = subst (Clears m) at (h.after_close i) in
        let same : j ≡ k = omega (arith, h.only_latest k e, last) in cc (ap m.closed same);
    only_latest = λ j f. cc;
    cleared = λ j f shut. cc;
    fresh = h.fresh;
    after_close = Clears-update (record m { default_pool = none }) idle tt h.after_close;
  }

  swap_fails-Inv :
      (k : ℕ)
      → pc i ≡ clearing k
      → m.default_pool ≢ some k
      → Inv n m pc
      → Inv n m (update pc i idle)
  swap_fails-Inv k at differs h =
      quiet idle (λ j. refl) tt
        (λ j e. ap (clears j) at ∙ other j (λ (same : k ≡ j). differs (e ∙ ap some (sym same)))) h
    where
      other : (j : ℕ) → k ≢ j → clears j (clearing k) ≡ 0
      other j ne = ground (arith, ne)

Move-Inv :
    (n : ℕ) {m m' : Shared} (pc : ℕ → Pc) (i : ℕ) {p : Pc} (q : Pc)
    → i < n
    → pc i ≡ q
    → Move m q m' p
    → Inv n m pc
    → Inv n m' (update pc i p)
Move-Inv n {m} pc i q lt at Move.publish h = publish-Inv n m pc i lt at h
Move-Inv n {m} pc i q lt at (Move.close_first {k} below e) h = close-Inv n m pc i lt k at below h
Move-Inv n {m} pc i q lt at (Move.close_again below e) h =
    outside n m pc i lt idle idle at (λ k. refl) (λ k. refl) tt h
Move-Inv n {m} pc i (clearing k) lt at (Move.swap_nil e) h = swap_nil-Inv n m pc i lt k at e h
Move-Inv n {m} pc i (clearing k) lt at (Move.swap_fails e) h = swap_fails-Inv n m pc i lt k at e h
Move-Inv n {m} pc i q lt at Move.load h =
    outside n m pc i lt idle (loaded m.default_pool) at (λ k. refl) (λ k. refl) tt h
Move-Inv n {m} pc i q lt at Move.see_nil h =
    outside n m pc i lt (loaded none) (returned none) at (λ k. refl) (λ k. refl) tt h
Move-Inv n {m} pc i (loaded (some k)) lt at (Move.see_closed e) h =
    outside n m pc i lt (loaded (some k)) (returned none) at (λ k. refl) (λ k. refl) tt h
Move-Inv n {m} pc i (loaded (some k)) lt at (Move.see_open e) h =
    outside n m pc i lt (loaded (some k)) (returned (some k)) at (λ k. refl) (λ k. refl) tt h
Move-Inv n {m} pc i (returned o) lt at Move.leave h =
    outside n m pc i lt (returned o) idle at (λ k. refl) (λ k. refl) tt h

init-Inv : (n : ℕ) → Inv n init.shared init.pc
init-Inv n = record {
  kept = λ k e shut. absurd (omega (arith, e));
  only_latest = λ k e. cc;
  cleared = λ k e shut. cc;
  fresh = λ k le. refl;
  after_close = λ i. tt;
}

Reach-Inv : {n : ℕ} {s : System} → Reach n s → Inv n s.shared s.pc
Reach-Inv {n} start = init-Inv n
Reach-Inv {n} (next {s = s} r (act i lt mv)) = Move-Inv n s.pc i (s.pc i) lt refl mv (Reach-Inv r)

-- With no Close between its two steps the pointer is settled, for any number `np` of pools.
settled :
    (n : ℕ) (m : Shared) (pc : ℕ → Pc) (np : ℕ)
    → m.next_pool ≡ np
    → Inv n m pc
    → ((k : ℕ) → total (clears k) n pc ≡ 0)
    → m.default_pool ≡ latest m.closed np
settled n m pc zero last h still = elim (Option-cases m.default_pool) [
  | inl none_ ↦ none_
  | inr (k, e) ↦ absurd (omega (arith, h.only_latest k e, last))
]
settled n m pc (suc k) last h still = elim (Bool-cases (m.closed k)) [
  | inl shut ↦ rw shut (elim (Option-cases m.default_pool) [
    | inl none_ ↦ none_
    | inr (j, e) ↦
        let same : j ≡ k = omega (arith, h.only_latest j e, last) in
        absurd (omega (arith, still j, h.cleared j e (ap m.closed same ∙ shut)))
  ])
  | inr open_ ↦ rw open_ (h.kept k last open_)
]

-- While no Close stands between its two steps, the default pool is the latest one if that is open,
-- and there is none if it is closed: to close an older pool changes nothing.
pub default_pool-latest :
    {n : ℕ} {s : System}
    → Reach n s
    → ((k : ℕ) → total (clears k) n s.pc ≡ 0)
    → s.shared.default_pool ≡ latest s.shared.closed s.shared.next_pool
default_pool-latest {n} {s} r still =
    settled n s.shared s.pc s.shared.next_pool refl (Reach-Inv r) still
