-- ===== src/Rates/Reading.antt =====
-- So do those of getMedianRates.
use agile_pool.Prelude.{ℕ, ◌≡◌, refl, sym, ap, ◌∙◌, List, arith, length, take}
use agile_pool.Prelude.Slices.{take-all}
use agile_pool.Histogram.{Bucket, median}
use agile_pool.Rates.{Series, Shared, Sampler, Reader, Read, Layout}
use agile_pool.Rates.Account.{hands, Accounted, median_of, Snapshot, Inv, alone, unlocked}

module _ (y : Layout) where
  -- With nobody in the middle of a sample the histograms have as many samples each.
  pub behind :
      (p : Sampler)
      → (hands p).holds ≡ 0
      → ((hands p).consume_behind ≡ 0) × ((hands p).exit_behind ≡ 0)
  behind (Sampler.add_submit a b c) h = (refl, refl)
  behind (Sampler.add_consume b c) h = cc
  behind (Sampler.add_exit c) h = cc
  behind Sampler.unlock h = (refl, refl)
  behind Sampler.waiting h = (refl, refl)
  behind Sampler.swap_submit h = (refl, refl)
  behind (Sampler.swap_consume a) h = (refl, refl)
  behind (Sampler.swap_exit a b) h = (refl, refl)
  behind (Sampler.lock a b c) h = (refl, refl)
  behind Sampler.load_closed h = (refl, refl)
  behind Sampler.load_pending h = (refl, refl)
  behind Sampler.stopped h = (refl, refl)

  -- A median of a histogram is that of the samples that it was given.
  pub median_now :
      (buckets : List Bucket) (n k a : ℕ) (s : Series)
      → Accounted y.window buckets k s
      → length s.samples ≡ n
      → a ≡ median s.hist
      → a ≡ median_of y buckets (take n s.samples)
  median_now buckets n k a s (_, hist) len e =
      e
      ∙ ap median hist
      ∙ ap (median_of y buckets) (sym (take-all n s.samples (omega (arith, len))))

  pub returning-Snapshot :
      (m : Shared) (p : Sampler) (a b c : ℕ)
      → Inv y m (hands p) (Reader.returning a b c)
      → (n : ℕ) × Snapshot y n m.submits.samples m.consumes.samples m.exits.samples a b c
  returning-Snapshot m p a b c h =
      let n = length m.submits.samples in
      let still = behind p (alone m.stat_mu (hands p).holds (omega (arith, h.one_holder))) in
      let second : length m.consumes.samples ≡ n = omega (arith, h.consumes_even, still) in
      let third : length m.exits.samples ≡ n = omega (arith, h.exits_even, still) in
      (
        n,
        (
          omega arith,
          omega (arith, second),
          omega (arith, third),
          median_now y.submit_buckets n (hands p).submit a m.submits h.submits_ok refl h.reads.0,
          median_now y.consume_buckets n (hands p).consume b m.consumes h.consumes_ok second
              h.reads.1,
          median_now y.exit_buckets n (hands p).exit c m.exits h.exits_ok third h.reads.2,
        ),
      )

  pub Read-Inv :
      {m m' : Shared} (p : Sampler) {r r' : Reader}
      → Read m r m' r'
      → Inv y m (hands p) r
      → Inv y m' (hands p) r'
  Read-Inv {m = m} p (Read.acquire e) h = record {
    submits_ok = h.submits_ok;
    consumes_ok = h.consumes_ok;
    exits_ok = h.exits_ok;
    consumes_even = h.consumes_even;
    exits_even = h.exits_even;
    one_holder = omega (arith, unlocked m.stat_mu (hands p).holds 0 h.one_holder e);
    reads = tt;
  }
  Read-Inv p Read.read_submit h = record {
    submits_ok = h.submits_ok;
    consumes_ok = h.consumes_ok;
    exits_ok = h.exits_ok;
    consumes_even = h.consumes_even;
    exits_even = h.exits_even;
    one_holder = h.one_holder;
    reads = refl;
  }
  Read-Inv p Read.read_consume h = record {
    submits_ok = h.submits_ok;
    consumes_ok = h.consumes_ok;
    exits_ok = h.exits_ok;
    consumes_even = h.consumes_even;
    exits_even = h.exits_even;
    one_holder = h.one_holder;
    reads = (h.reads, refl);
  }
  Read-Inv p Read.read_exit h = record {
    submits_ok = h.submits_ok;
    consumes_ok = h.consumes_ok;
    exits_ok = h.exits_ok;
    consumes_even = h.consumes_even;
    exits_even = h.exits_even;
    one_holder = h.one_holder;
    reads = (h.reads.0, h.reads.1, refl);
  }
  Read-Inv {m = m} p {r = Reader.returning a b c} Read.release h = record {
    submits_ok = h.submits_ok;
    consumes_ok = h.consumes_ok;
    exits_ok = h.exits_ok;
    consumes_even = h.consumes_even;
    exits_even = h.exits_even;
    one_holder = omega (arith, alone m.stat_mu (hands p).holds (omega (arith, h.one_holder)));
    reads = returning-Snapshot m p a b c h;
  }
  Read-Inv p Read.again h = record {
    submits_ok = h.submits_ok;
    consumes_ok = h.consumes_ok;
    exits_ok = h.exits_ok;
    consumes_even = h.consumes_even;
    exits_even = h.exits_even;
    one_holder = h.one_holder;
    reads = tt;
  }
