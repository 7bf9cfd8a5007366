-- ===== src/Histogram/Tests.antt =====
-- The histogram of exits at concrete samples.
use agile_pool.Prelude.{ℕ, ◌<◌, ◌≡◌, ◌/◌, refl, true, [], ◌∷◌, map, arith, length, get_or}
use agile_pool.Histogram.{
  new_histogram, bucket_from, bucket_index, evict, make_way, insert, next_pos, add, midpoint,
  median_from, median, add_all,
}
use agile_pool.Histogram.Tracks.{latest}
use agile_pool.Histogram.Median.{empty_bucket, Holds, median-add_all}
use agile_pool.Histogram.Buckets.{submit_buckets, consume_buckets, exit_buckets, covers}

-- The window of three has lost the first two samples.
exit_median : median (add_all (0 ∷ 0 ∷ 7 ∷ 4 ∷ 60 ∷ []) (new_histogram exit_buckets 3)) ≡ 16
unfolding median median_from add_all add make_way evict insert next_pos bucket_index bucket_from
    new_histogram
exit_median = refl

tables_cover :
    (covers 0 submit_buckets ≡ true)
    × (covers 0 consume_buckets ≡ true)
    × (covers 0 exit_buckets ≡ true)
tables_cover = (refl, refl, refl)

median-add_all_example :
    let recent = latest 2 (map (bucket_index exit_buckets) (0 ∷ 7 ∷ 8 ∷ [])) in
    (k : ℕ) × (k < length exit_buckets)
    × Holds k (length recent / 2) recent
    × (median (add_all (0 ∷ 7 ∷ 8 ∷ []) (new_histogram exit_buckets 2))
        ≡ midpoint (get_or exit_buckets k empty_bucket))
median-add_all_example = median-add_all exit_buckets 2 (omega arith) (omega arith) 0 (7 ∷ 8 ∷ [])
