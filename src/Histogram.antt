-- ===== src/Histogram.antt =====
-- histogram.go: counts of the latest samples by bucket, and their median.
pub mod Tracks
pub mod Slide
pub mod Window
pub mod Median
pub mod Buckets
mod Tests
use agile_pool.Prelude.{
  ℕ, zero, suc, ◌+◌, ◌-◌, ◌*◌, ◌/◌, Bool, true, false, ◌&&◌, Option, none, some, List, [], ◌∷◌, leb,
  ltb, if◌then◌else◌, length, get_or, set, replicate,
}

-- `high` is none for -1, an open end.
pub record Bucket : Type 0 where
  pub low : ℕ
  pub high : Option ℕ

pub record Histogram : Type 0 where
  pub buckets : List Bucket
  pub counts : List ℕ
  pub total : ℕ
  pub samples : List ℕ
  pub pos : ℕ
  pub filled : Bool

pub new_histogram : List Bucket → ℕ → Histogram
new_histogram buckets window_size = record {
  buckets = buckets;
  counts = replicate (length buckets) 0;
  total = 0;
  samples = replicate window_size 0;
  pos = 0;
  filled = false;
}

abbrev pub within : ℕ → Option ℕ → Bool
within value none = true
within value (some high) = leb value high

abbrev pub fits : ℕ → Bucket → Bool
fits value b = leb b.low value && within value b.high

-- The first bucket that fits, from number `i` on; `fallback` when there is none.
pub bucket_from : ℕ → ℕ → ℕ → List Bucket → ℕ
bucket_from value fallback i [] = fallback
bucket_from value fallback i (b ∷ bs) =
    let rest = bucket_from value fallback (suc i) bs in if fits value b then i else rest

pub bucket_index : List Bucket → ℕ → ℕ
bucket_index buckets value = bucket_from value (length buckets - 1) 0 buckets

-- The sample at `pos` goes out of the counts.
pub evict : Histogram → Histogram
evict h =
    let old = get_or h.samples h.pos 0 in
    record h { counts = set h.counts old (get_or h.counts old 0 - 1); total = h.total - 1 }

-- A full window loses its oldest sample.
pub make_way : Histogram → Histogram
make_way h = if h.filled then evict h else h

pub insert : ℕ → Histogram → Histogram
insert idx h = record h {
  samples = set h.samples h.pos idx;
  counts = set h.counts idx (suc (get_or h.counts idx 0));
  total = suc h.total;
}

pub next_pos : Histogram → Histogram
next_pos h =
    if leb (length h.samples) (suc h.pos)
    then record h { pos = 0; filled = true }
    else record h { pos = suc h.pos }

pub add : ℕ → Histogram → Histogram
add value h = next_pos (insert (bucket_index h.buckets value) (make_way h))

-- Medians are in halves, so that the midpoint of two whole numbers is one.
abbrev pub midpoint : Bucket → ℕ
midpoint b = elim b.high [ none ↦ 2 * b.low | some high ↦ b.low + high ]

-- The loop of `median` from bucket `i` on.
pub median_from : List Bucket → (mid cum i : ℕ) → List ℕ → ℕ
median_from buckets mid cum i [] = 0
median_from buckets mid cum i (count ∷ counts) =
    let rest = median_from buckets mid (cum + count) (suc i) counts in
    if ltb mid (cum + count)
    then midpoint (get_or buckets i (record { low = 0; high = some 0 }))
    else rest

pub median : Histogram → ℕ
median h = if leb h.total 0 then 0 else median_from h.buckets (h.total / 2) 0 0 h.counts

unfoldable pub add_all : List ℕ → Histogram → Histogram
add_all [] h = h
add_all (v ∷ vs) h = add_all vs (add v h)
