-- ===== src/Histogram/Median.antt =====
-- The median is the middle of the bucket that holds the middle sample.
use agile_pool.Prelude.{
  ℕ, suc, ◌+◌, ◌-◌, ◌/◌, ◌≤◌, ◌<◌, ◌≡◌, refl, sym, ap, subst, ◌∙◌, false, some, List, [], ◌∷◌, map,
  arith, ltb, if◌then◌else◌, Bool-cases, inl, inr, length, get_or, length-drop, leb,
}
use agile_pool.Histogram.{
  Bucket, Histogram, new_histogram, bucket_index, midpoint, median_from, median, add_all,
}
use agile_pool.Histogram.Tracks.{occurrences, latest, InRange, Tracks}
use agile_pool.Histogram.Window.{add_all-new, add_all-buckets}

-- How many elements are less than `i`.
abbrev pub below : ℕ → List ℕ → ℕ
below i [] = 0
below i (x ∷ xs) = (if ltb x i then 1 else 0) + below i xs

below-suc : (i : ℕ) (xs : List ℕ) → below (suc i) xs ≡ below i xs + occurrences i xs
below-suc i [] = omega arith
below-suc i (x ∷ xs) = ground (arith, below-suc i xs)

below-zero : (xs : List ℕ) → below 0 xs ≡ 0
below-zero [] = refl
below-zero (x ∷ xs) = ground (arith, below-zero xs)

below-all : (n : ℕ) (xs : List ℕ) → InRange n xs → below n xs ≡ length xs
below-all n [] r = refl
below-all n (x ∷ xs) r = ground (arith, below-all n xs r.1)

abbrev pub empty_bucket : Bucket
empty_bucket = record { low = 0; high = some 0 }

-- Bucket `k` holds the element that has `mid` others before it in order.
abbrev pub Holds : ℕ → ℕ → List ℕ → Type 0
Holds k mid recent = (below k recent ≤ mid) × (mid < below (suc k) recent)

median_from-Holds :
    (bs : List Bucket) (mid : ℕ) (recent counts : List ℕ) (cum i : ℕ)
    → cum ≡ below i recent
    → ((j : ℕ) → get_or counts j 0 ≡ occurrences (i + j) recent)
    → below i recent ≤ mid
    → mid < below (i + length counts) recent
    → (k : ℕ) × (k < i + length counts)
      × Holds k mid recent
      × (median_from bs mid cum i counts ≡ midpoint (get_or bs k empty_bucket))
unfolding median_from
median_from-Holds bs mid recent [] cum i e known low high =
    absurd (omega (arith, ap (λ j. below j recent) (the-sum i)))
  where
    the-sum : (i : ℕ) → i + 0 ≡ i
    the-sum i = omega arith
median_from-Holds bs mid recent (c ∷ cs) cum i e known low high =
    let here : c ≡ occurrences i recent = known 0 ∙ ap (λ j. occurrences j recent) (omega arith) in
    let up : cum + c ≡ below (suc i) recent = omega (arith, e, here, below-suc i recent) in
    elim (Bool-cases (ltb mid (cum + c))) [
      | inl found ↦ (i, omega arith, (low, ground (arith, up)), rw found refl)
      | inr further ↦
          let r =
            median_from-Holds bs mid recent cs (cum + c) (suc i) up
              (λ j. known (suc j) ∙ ap (λ l. occurrences l recent) (omega arith))
              (ground (arith, up))
              (omega (arith, high, ap (λ l. below l recent) (shift i (length cs)))) in
          (r.0, omega (arith, r.1), r.2, rw further r.3)
    ]
  where
    shift : (i l : ℕ) → i + suc l ≡ suc i + l
    shift i l = omega arith

median-Holds :
    (h : Histogram) (n : ℕ) (recent : List ℕ)
    → Tracks h n recent
    → 0 < length recent
    → (k : ℕ) × (k < length h.buckets)
      × Holds k (length recent / 2) recent
      × (median h ≡ midpoint (get_or h.buckets k empty_bucket))
unfolding median
median-Holds h n recent t some_sample =
    let counts_size : 0 + length h.counts ≡ length h.buckets = omega (arith, t.count_of) in
    let mid : h.total / 2 ≡ length recent / 2 = ap (◌/ 2) t.all in
    let r =
      median_from-Holds h.buckets (h.total / 2) recent h.counts 0 0 (sym (below-zero recent))
        (λ j. t.known j ∙ ap (λ l. occurrences l recent) (omega arith))
        (omega (arith, below-zero recent))
        (omega (
          arith,
          ap (λ l. below l recent) counts_size,
          below-all (length h.buckets) recent t.range,
          t.all,
          some_sample,
        )) in
    let counted : leb h.total 0 ≡ false = ground (arith, t.all) in
    (r.0, omega (arith, r.1, t.count_of), subst (λ l. Holds r.0 l recent) mid r.2, rw counted r.3)

module _ (bs : List Bucket) (n : ℕ) (some_bucket : 0 < length bs) (some_room : 0 < n) where
  -- With a bucket and room for a sample, after every non-empty sequence of samples `median` is the
  -- midpoint of the bucket that holds the middle one of the latest `n`, by the order of the
  -- buckets.
  pub median-add_all :
      (v : ℕ) (vs : List ℕ)
      → let recent = latest n (map (bucket_index bs) (v ∷ vs)) in
        (k : ℕ) × (k < length bs)
        × Holds k (length recent / 2) recent
        × (median (add_all (v ∷ vs) (new_histogram bs n)) ≡ midpoint (get_or bs k empty_bucket))
  unfolding new_histogram
  median-add_all v vs =
      let samples = map (bucket_index bs) (v ∷ vs) in
      let recent = latest n samples in
      let h = add_all (v ∷ vs) (new_histogram bs n) in
      let same : h.buckets ≡ bs = add_all-buckets (v ∷ vs) (new_histogram bs n) in
      let some_sample : 0 < length recent =
        omega (arith, length-drop (length samples - n) samples, some_room) in
      let r =
        median-Holds h n recent (add_all-new bs n some_bucket some_room (v ∷ vs)) some_sample in
      (
        r.0,
        omega (arith, r.1, ap length same),
        r.2,
        r.3 ∙ ap (λ l. midpoint (get_or l r.0 empty_bucket)) same,
      )
