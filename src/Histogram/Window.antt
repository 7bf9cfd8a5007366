-- ===== src/Histogram/Window.antt =====
-- The counts are those of the latest samples, as many as the window holds.
use agile_pool.Prelude.{
  ℕ, suc, ◌+◌, ◌-◌, ◌<◌, ◌≡◌, refl, sym, ap, subst, ◌∙◌, List, [], ◌∷◌, ◌++◌, map, append-nil,
  append_assoc, arith, ltb, if◌then◌else◌, Bool-cases, inl, inr, length, get_or, drop,
  length-append, length-drop, length-replicate, get_or-replicate,
}
use agile_pool.Prelude.Slices.{drop-all, drop-append_left, drop-one}
use agile_pool.Histogram.{Bucket, Histogram, new_histogram, bucket_from, bucket_index, add, add_all}
use agile_pool.Histogram.Tracks.{occurrences, latest, slide, Tracks}
use agile_pool.Histogram.Slide.{add-Tracks, add-buckets}

latest-append {ℓ} :
    {A : Type ℓ} (n : ℕ) (xs : List A) (x : A)
    → 0 < n
    → (if ltb (length (latest n xs)) n then latest n xs else drop 1 (latest n xs)) ++ x ∷ []
      ≡ latest n (xs ++ x ∷ [])
latest-append n xs x h =
    let k = length xs - n in
    let size = length-drop k xs in
    elim (Bool-cases (ltb (length (latest n xs)) n)) [
      | inl below ↦
          let same : length (xs ++ x ∷ []) - n ≡ k =
            ground (arith, size, length-append xs (x ∷ [])) in
          rw below (
            sym (drop-append_left k xs (x ∷ []) (omega arith))
            ∙ ap (λ i. drop i (xs ++ x ∷ [])) (sym same))
      | inr full ↦
          let same : length (xs ++ x ∷ []) - n ≡ suc k =
            ground (arith, size, length-append xs (x ∷ [])) in
          rw full (
            ap (◌++ x ∷ []) (drop-one k xs)
            ∙ sym (drop-append_left (suc k) xs (x ∷ []) (ground (arith, size)))
            ∙ ap (λ i. drop i (xs ++ x ∷ [])) (sym same))
    ]

bucket_from-lt :
    (value fallback i : ℕ) (bs : List Bucket)
    → fallback < i + length bs
    → bucket_from value fallback i bs < i + length bs
unfolding bucket_from
bucket_from-lt value fallback i [] h = h
bucket_from-lt value fallback i (b ∷ bs) h =
    ground (arith, bucket_from-lt value fallback (suc i) bs (omega (arith, h)))

pub bucket_index-lt :
    (bs : List Bucket) (value : ℕ) → 0 < length bs → bucket_index bs value < length bs
unfolding bucket_index
bucket_index-lt bs value h =
    omega (arith, bucket_from-lt value (length bs - 1) 0 bs (omega (arith, h)))

new-Tracks : (bs : List Bucket) (n : ℕ) → 0 < n → Tracks (new_histogram bs n) n []
unfolding new_histogram
new-Tracks bs n h = record {
  size = length-replicate n 0;
  inside = h;
  window = refl;
  known = λ i. get_or-replicate (length bs) 0 i;
  count_of = length-replicate (length bs) 0;
  range = tt;
  all = refl;
}

module _ (bs : List Bucket) (n : ℕ) (some_bucket : 0 < length bs) (some_room : 0 < n) where
  add_all-Tracks :
      (past vs : List ℕ) (h : Histogram)
      → h.buckets ≡ bs
      → Tracks h n (latest n past)
      → Tracks (add_all vs h) n (latest n (past ++ map (bucket_index bs) vs))
  unfolding add_all
  add_all-Tracks past [] h e t = subst (λ l. Tracks h n (latest n l)) (sym (append-nil past)) t
  add_all-Tracks past (v ∷ vs) h e t =
      let idx = bucket_index bs v in
      let lt : bucket_index h.buckets v < length h.buckets =
        bucket_index-lt h.buckets v (subst (λ l. 0 < length l) (sym e) some_bucket) in
      let step : Tracks (add v h) n (latest n (past ++ idx ∷ [])) =
        subst (Tracks (add v h) n)
          (ap (λ l. slide n (latest n past) (bucket_index l v)) e
            ∙ latest-append n past idx some_room)
          (add-Tracks h n (latest n past) v lt t) in
      subst (λ l. Tracks (add_all vs (add v h)) n (latest n l))
        (append_assoc past (idx ∷ []) (map (bucket_index bs) vs))
        (add_all-Tracks (past ++ idx ∷ []) vs (add v h) (add-buckets v h ∙ e) step)

  pub add_all-new :
      (vs : List ℕ)
      → Tracks (add_all vs (new_histogram bs n)) n (latest n (map (bucket_index bs) vs))
  unfolding new_histogram
  add_all-new vs = add_all-Tracks [] vs (new_histogram bs n) refl (
      subst (Tracks (new_histogram bs n) n) (sym (drop-all (0 - n) [] (omega arith)))
        (new-Tracks bs n some_room))

  -- With a bucket and room for a sample, after every sequence of samples the count of each bucket
  -- is how many of the latest `n` samples it got, and `total` is the number of these.
  pub counts-add_all :
      (vs : List ℕ)
      → let h = add_all vs (new_histogram bs n) in
        let recent = latest n (map (bucket_index bs) vs) in
        ((i : ℕ) → get_or h.counts i 0 ≡ occurrences i recent) × (h.total ≡ length recent)
  counts-add_all vs = let t = add_all-new vs in (t.known, t.all)

pub add_all-buckets : (vs : List ℕ) (h : Histogram) → (add_all vs h).buckets ≡ h.buckets
unfolding add_all
add_all-buckets [] h = refl
add_all-buckets (v ∷ vs) h = add_all-buckets vs (add v h) ∙ add-buckets v h

pub add_all-append :
    (vs : List ℕ) (v : ℕ) (h : Histogram) → add_all (vs ++ v ∷ []) h ≡ add v (add_all vs h)
unfolding add_all
add_all-append [] v h = refl
add_all-append (x ∷ vs) v h = add_all-append vs v (add x h)

pub length-new_histogram : (bs : List Bucket) (n : ℕ) → length (new_histogram bs n).samples ≡ n
unfolding new_histogram
length-new_histogram bs n = length-replicate n 0
