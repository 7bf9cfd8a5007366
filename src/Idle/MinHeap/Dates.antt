-- ===== src/Idle/MinHeap/Dates.antt =====
-- Sorted lists of dates, and the dates of a heap.
use agile_pool.Prelude.{
  ℕ, zero, suc, ◌+◌, ◌-◌, ◌/◌, ◌≤◌, ◌<◌, ◌≡◌, refl, ap, inl, inr, true, List, [], ◌∷◌, arith, ltb,
  ◌==◌, if◌then◌else◌, Bool-cases, Option, none, some, length, keep,
}
use agile_pool.Prelude.All.{All-imp}
use agile_pool.Prelude.Threads.{total, total-positive, weight-le-total}
use agile_pool.Idle.{stays}
use agile_pool.Idle.Queue.{by_date}
use agile_pool.Idle.Sorted.{From, Sorted}
use agile_pool.Idle.MinHeap.Sift.{Heap}

abbrev pub itself : ℕ → ℕ
itself d = d

abbrev pub hit : ℕ → ℕ → ℕ
hit k d = if d == k then 1 else 0

abbrev pub count : ℕ → List ℕ → ℕ
count k [] = 0
count k (d ∷ ds) = hit k d + count k ds

pub count-by_date : (k d : ℕ) (ds : List ℕ) → count k (by_date itself d ds) ≡ hit k d + count k ds
count-by_date k d [] = refl
count-by_date k d (e ∷ ds) = ground (arith, count-by_date k d ds)

From-by_date :
    (k d : ℕ) (ds : List ℕ) → k ≤ d → From itself k ds → From itself k (by_date itself d ds)
From-by_date k d [] le f = (le, tt)
From-by_date k d (e ∷ ds) le f = elim (Bool-cases (ltb d e)) [
  | inl here ↦ rw here (le, f)
  | inr there ↦ rw there (f.0, From-by_date k d ds le f.1)
]

pub Sorted-by_date : (d : ℕ) (ds : List ℕ) → Sorted itself ds → Sorted itself (by_date itself d ds)
Sorted-by_date d [] s = (tt, tt)
Sorted-by_date d (e ∷ ds) s = elim (Bool-cases (ltb d e)) [
  | inl here ↦
      rw here ((ground (arith, here), All-imp _ _ ds (λ x h. ground (arith, h, here)) s.0), s)
  | inr there ↦ rw there (From-by_date e d ds (ground (arith, there)) s.0, Sorted-by_date d ds s.1)
]

pub length-by_date : (d : ℕ) (ds : List ℕ) → length (by_date itself d ds) ≡ suc (length ds)
length-by_date d [] = refl
length-by_date d (e ∷ ds) = ground (arith, length-by_date d ds)

-- What is in the list is not before a bound.
le-of_count : (k d : ℕ) (ds : List ℕ) → From itself k ds → 0 < count d ds → k ≤ d
le-of_count k d [] f h = absurd (omega (arith, h))
le-of_count k d (e ∷ ds) f h = ground (arith, f.0, h, le-of_count k d ds f.1)

-- When the first stays, so do all.
pub keep-all :
    (now expiry k : ℕ) (ds : List ℕ)
    → stays itself now expiry k ≡ true
    → From itself k ds
    → keep (stays itself now expiry) ds ≡ ds
keep-all now expiry k [] s f = refl
keep-all now expiry k (d ∷ ds) s f =
    let here : stays itself now expiry d ≡ true = ground (arith, s, f.0) in
    rw here (ap (d ∷◌) (keep-all now expiry k ds s f.1))

module _ {ℓ} {A : Type ℓ} (date : A → ℕ) where
  abbrev pub some_date : Option A → Option ℕ
  some_date none = none
  some_date (some x) = some (date x)

  abbrev pub hits : ℕ → A → ℕ
  hits k x = hit k (date x)

  root-le : (k n i : ℕ) (a : ℕ → A) → i < k → i < n → Heap date n a → date (a 0) ≤ date (a i)
  root-le zero n i a f lt h = absurd (omega (arith, f))
  root-le (suc k) n zero a f lt h = omega arith
  root-le (suc k) n (suc i) a f lt h = omega (
    arith,
    h (suc i) (omega arith) lt,
    root-le k n ((suc i - 1) / 2) a (omega (arith, f)) (omega (arith, lt)) h,
  )

  -- The root has the first date of a sorted list with the same dates.
  pub root-first :
      (n : ℕ) (a : ℕ → A) (d : ℕ) (ds : List ℕ)
      → 0 < n
      → Heap date n a
      → Sorted itself (d ∷ ds)
      → ((k : ℕ) → total (hits k) n a ≡ count k (d ∷ ds))
      → date (a 0) ≡ d
  root-first n a d ds pos h s same =
      let r = date (a 0) in
      let (i, lt, here) = total-positive (hits d) n a (ground (arith, same d)) in
      let up_ : r ≤ d = ground (arith, root-le (suc i) n i a (omega arith) lt h, here) in
      let found : 0 < count r (d ∷ ds) =
        ground (arith, same r, weight-le-total (hits r) n 0 a pos) in
      let down_ : d ≤ r = le-of_count d r (d ∷ ds) (omega arith, s.0) found in
      omega (arith, up_, down_)
