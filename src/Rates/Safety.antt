-- ===== src/Rates/Safety.antt =====
-- Sampling loses no event, and the three medians that the scaler gets belong together.
use agile_pool.Prelude.{ℕ, ◌≡◌, subst, arith}
use agile_pool.Rates.{
  Shared, Reader, Others, System, Layout, Reach, sample, read, others, start, next,
}
use agile_pool.Rates.Account.{Hands, hands, Accounted, logged, Snapshot, Reads, Inv, init-Inv}
use agile_pool.Rates.Sampling.{Sample-Inv}
use agile_pool.Rates.Reading.{Read-Inv}

module _ (y : Layout) where
  Others-Inv : {m m' : Shared} {g : Hands} {r : Reader} → Others m m' → Inv y m g r → Inv y m' g r
  Others-Inv Others.submit h = record {
    submits_ok = (omega (arith, h.submits_ok.0), h.submits_ok.1);
    consumes_ok = h.consumes_ok;
    exits_ok = h.exits_ok;
    consumes_even = h.consumes_even;
    exits_even = h.exits_even;
    one_holder = h.one_holder;
    reads = h.reads;
  }
  Others-Inv Others.consume h = record {
    submits_ok = h.submits_ok;
    consumes_ok = (omega (arith, h.consumes_ok.0), h.consumes_ok.1);
    exits_ok = h.exits_ok;
    consumes_even = h.consumes_even;
    exits_even = h.exits_even;
    one_holder = h.one_holder;
    reads = h.reads;
  }
  Others-Inv Others.exit h = record {
    submits_ok = h.submits_ok;
    consumes_ok = h.consumes_ok;
    exits_ok = (omega (arith, h.exits_ok.0), h.exits_ok.1);
    consumes_even = h.consumes_even;
    exits_even = h.exits_even;
    one_holder = h.one_holder;
    reads = h.reads;
  }
  Others-Inv Others.register h = record {
    submits_ok = h.submits_ok;
    consumes_ok = h.consumes_ok;
    exits_ok = h.exits_ok;
    consumes_even = h.consumes_even;
    exits_even = h.exits_even;
    one_holder = h.one_holder;
    reads = h.reads;
  }
  Others-Inv Others.complete h = record {
    submits_ok = h.submits_ok;
    consumes_ok = h.consumes_ok;
    exits_ok = h.exits_ok;
    consumes_even = h.consumes_even;
    exits_even = h.exits_even;
    one_holder = h.one_holder;
    reads = h.reads;
  }
  Others-Inv Others.close h = record {
    submits_ok = h.submits_ok;
    consumes_ok = h.consumes_ok;
    exits_ok = h.exits_ok;
    consumes_even = h.consumes_even;
    exits_even = h.exits_even;
    one_holder = h.one_holder;
    reads = h.reads;
  }

  Reach-Inv : {s : System} → Reach y s → Inv y s.shared (hands s.sampler) s.reader
  Reach-Inv start = init-Inv y
  Reach-Inv (next r (sample st)) = Sample-Inv y st (Reach-Inv r)
  Reach-Inv (next {s = s} r (read st)) = Read-Inv y s.sampler st (Reach-Inv r)
  Reach-Inv (next r (others st)) = Others-Inv st (Reach-Inv r)

  -- Every submission, consumption and exit that was counted is in one sample, in the hands of
  -- sampleRates or still in its counter, whatever comes between the steps of sampleRates, and each
  -- histogram is that of its samples.
  pub nothing_lost :
      {s : System}
      → Reach y s
      → Accounted y.window y.submit_buckets (hands s.sampler).submit s.shared.submits
        × Accounted y.window y.consume_buckets (hands s.sampler).consume s.shared.consumes
        × Accounted y.window y.exit_buckets (hands s.sampler).exit s.shared.exits
  nothing_lost r = let h = Reach-Inv r in (h.submits_ok, h.consumes_ok, h.exits_ok)

  -- What getMedianRates returns are the medians of equally many samples of the three counters,
  -- the first ones, so that they stand for the same stretch of time: a call of sampleRates that
  -- comes between is in all three or in none.
  pub medians_agree :
      {s : System} (a b c : ℕ)
      → Reach y s
      → s.reader ≡ Reader.returned a b c
      → (n : ℕ) × Snapshot y n s.shared.submits.samples s.shared.consumes.samples
          s.shared.exits.samples a b c
  medians_agree {s = s} a b c r e =
      subst (Reads y (logged s.shared.submits) (logged s.shared.consumes) (logged s.shared.exits)) e
        (Reach-Inv r).reads
