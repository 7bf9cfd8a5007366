-- ===== src/Rates/Tests.antt =====
-- The sampler at concrete steps: two submissions before the counters are taken, and one between.
use agile_pool.Prelude.{ℕ, refl, some, none, List, [], ◌∷◌}
use agile_pool.Histogram.{Bucket, median}
use agile_pool.Rates.{
  Sample, Read, Others, System, Step, Layout, init, Reach, sample, read, others, start, next,
}
use agile_pool.Rates.Account.{Accounted, Snapshot}
use agile_pool.Rates.Safety.{nothing_lost, medians_agree}

abbrev buckets : List Bucket
buckets =
    record { low = 0; high = some 0 }
    ∷ record { low = 1; high = some 3 }
    ∷ record { low = 4; high = none }
    ∷ []

abbrev layout : Layout
layout = record {
  submit_buckets = buckets;
  consume_buckets = buckets;
  exit_buckets = buckets;
  window = 2;
}

abbrev Run : Type 0
Run = (s : System) × Reach layout s

abbrev then : (r : Run) {t : System} → Step r.0 t → Run
then r {t} st = (t, next r.1 st)

abbrev submitted : Run
submitted = then (then (init layout, start) (others Others.submit)) (others Others.submit)

abbrev taken : Run
taken =
    then
      (then
        (then (then (then submitted (sample Sample.tick)) (sample Sample.take_submit))
          (others Others.submit))
        (sample Sample.take_consume))
      (sample Sample.take_exit)

abbrev sampled : Run
sampled =
    then
      (then
        (then (then (then taken (sample (Sample.acquire refl))) (sample Sample.sample_submit))
          (sample Sample.sample_consume))
        (sample Sample.sample_exit))
      (sample Sample.release)

abbrev answered : Run
answered =
    then
      (then
        (then (then (then sampled (read (Read.acquire refl))) (read Read.read_submit))
          (read Read.read_consume))
        (read Read.read_exit))
      (read Read.release)

nothing_lost_example :
    Accounted 2 buckets 2 taken.0.shared.submits
    × Accounted 2 buckets 0 taken.0.shared.consumes
    × Accounted 2 buckets 0 taken.0.shared.exits
nothing_lost_example = nothing_lost layout taken.1

medians_agree_example :
    (n : ℕ) × Snapshot layout n answered.0.shared.submits.samples answered.0.shared.consumes.samples
      answered.0.shared.exits.samples
      (median answered.0.shared.submits.hist)
      (median answered.0.shared.consumes.hist)
      (median answered.0.shared.exits.hist)
medians_agree_example =
    medians_agree layout (median answered.0.shared.submits.hist)
      (median answered.0.shared.consumes.hist) (median answered.0.shared.exits.hist) answered.1 refl
