-- ===== src/Histogram/Buckets.antt =====
-- The tables of buckets, and where a sample goes in one that leaves no gap.
use agile_pool.Prelude.{
  ℕ, suc, ◌+◌, ◌-◌, ◌≤◌, ◌<◌, ◌≡◌, ap, ◌∙◌, Bool, true, false, ◌&&◌, none, some, List, [], ◌∷◌,
  arith, ◌==◌, Bool-cases, Option-cases, inl, inr, length, get_or,
}
use agile_pool.Histogram.{Bucket, fits, bucket_from, bucket_index}
use agile_pool.Histogram.Median.{empty_bucket}

abbrev pub submit_buckets : List Bucket
submit_buckets =
    record { low = 0; high = some 0 }
    ∷ record { low = 1; high = some 5 }
    ∷ record { low = 6; high = some 20 }
    ∷ record { low = 21; high = some 100 }
    ∷ record { low = 101; high = some 500 }
    ∷ record { low = 501; high = some 2000 }
    ∷ record { low = 2001; high = some 10000 }
    ∷ record { low = 10001; high = none }
    ∷ []

abbrev pub consume_buckets : List Bucket
consume_buckets =
    record { low = 0; high = some 0 }
    ∷ record { low = 1; high = some 5 }
    ∷ record { low = 6; high = some 20 }
    ∷ record { low = 21; high = some 100 }
    ∷ record { low = 101; high = some 500 }
    ∷ record { low = 501; high = some 2000 }
    ∷ record { low = 2001; high = some 10000 }
    ∷ record { low = 10001; high = none }
    ∷ []

abbrev pub exit_buckets : List Bucket
exit_buckets =
    record { low = 0; high = some 0 }
    ∷ record { low = 1; high = some 2 }
    ∷ record { low = 3; high = some 5 }
    ∷ record { low = 6; high = some 10 }
    ∷ record { low = 11; high = some 20 }
    ∷ record { low = 21; high = some 50 }
    ∷ record { low = 51; high = some 100 }
    ∷ record { low = 101; high = none }
    ∷ []

-- The buckets take every number from `l` on.
abbrev pub covers : ℕ → List Bucket → Bool
covers l [] = false
covers l (b ∷ bs) = (b.low == l) && elim b.high [ none ↦ true | some high ↦ covers (suc high) bs ]

bucket_from-fits :
    (value fallback i l : ℕ) (bs : List Bucket)
    → covers l bs ≡ true
    → l ≤ value
    → (k : ℕ) × (bucket_from value fallback i bs ≡ i + k)
      × (k < length bs)
      × (fits value (get_or bs k empty_bucket) ≡ true)
unfolding bucket_from
bucket_from-fits value fallback i l [] c h = absurd (ground (arith, c))
bucket_from-fits value fallback i l (b ∷ bs) c h = elim (Bool-cases (fits value b)) [
  | inl here ↦ (0, rw here (omega arith), omega arith, here)
  | inr other ↦ elim (Option-cases b.high) [
    | inl open_end ↦ absurd (ground (arith, c, h))
    | inr (high, e) ↦
        let r =
          bucket_from-fits value fallback (suc i) (suc high) bs (ground (arith, c))
            (ground (arith, c)) in
        (suc r.0, rw other (omega (arith, r.1)), omega (arith, r.2), r.3)
  ]
]

-- A sample goes to a bucket that it fits, when the table covers the numbers from 0 on.
pub bucket_index-fits :
    (bs : List Bucket) (value : ℕ)
    → covers 0 bs ≡ true
    → fits value (get_or bs (bucket_index bs value) empty_bucket) ≡ true
unfolding bucket_index
bucket_index-fits bs value c =
    let r = bucket_from-fits value (length bs - 1) 0 0 bs c (omega arith) in
    ap (λ k. fits value (get_or bs k empty_bucket)) (r.1 ∙ omega arith) ∙ r.3

bucket_from-ge :
    (value fallback i l : ℕ) (bs : List Bucket)
    → covers l bs ≡ true
    → l ≤ value
    → i ≤ bucket_from value fallback i bs
bucket_from-ge value fallback i l bs c h =
    let r = bucket_from-fits value fallback i l bs c h in omega (arith, r.1)

bucket_from-le :
    (v v' fallback i l : ℕ) (bs : List Bucket)
    → covers l bs ≡ true
    → l ≤ v
    → v ≤ v'
    → bucket_from v fallback i bs ≤ bucket_from v' fallback i bs
unfolding bucket_from
bucket_from-le v v' fallback i l [] c h le = omega arith
bucket_from-le v v' fallback i l (b ∷ bs) c h le = elim (Bool-cases (fits v b)) [
  | inl here ↦
      let at_least = bucket_from-ge v' fallback i l (b ∷ bs) c (omega (arith, h, le)) in
      rw here at_least
  | inr other ↦ elim (Option-cases b.high) [
    | inl open_end ↦ absurd (ground (arith, c, h))
    | inr (high, e) ↦
        let r =
          bucket_from-le v v' fallback (suc i) (suc high) bs (ground (arith, c)) (ground (arith, c))
            le in
        let other' : fits v' b ≡ false = ground (arith, c) in rw (other, other') r
  ]
]

-- A greater sample does not go to an earlier bucket: the order of the buckets is that of the
-- samples.
pub bucket_index-le :
    (bs : List Bucket) (v v' : ℕ)
    → covers 0 bs ≡ true
    → v ≤ v'
    → bucket_index bs v ≤ bucket_index bs v'
unfolding bucket_index
bucket_index-le bs v v' c le = bucket_from-le v v' (length bs - 1) 0 0 bs c (omega arith) le
