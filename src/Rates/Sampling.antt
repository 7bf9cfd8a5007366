-- ===== src/Rates/Sampling.antt =====
-- The steps of the sampler keep what is true of the samples.
use agile_pool.Prelude.{ℕ, arith}
use agile_pool.Rates.{record_sample, Shared, Sampler, Reader, Sample, Layout}
use agile_pool.Rates.Account.{
  hands, reader_holds, record_sample-Accounted, length-record_sample, logged, Snapshot,
  Snapshot-submit, Snapshot-consume, Snapshot-exit, Reads-sample, Inv, alone, unlocked,
}

module _ (y : Layout) where
  pub sample_submit-Inv :
      (m : Shared) (a b c : ℕ) (r : Reader)
      → Inv y m (hands (Sampler.add_submit a b c)) r
      → Inv y (record m { submits = record_sample a m.submits }) (hands (Sampler.add_consume b c)) r
  unfolding record_sample
  sample_submit-Inv m a b c r h = record {
    submits_ok = record_sample-Accounted y.window y.submit_buckets a m.submits h.submits_ok;
    consumes_ok = h.consumes_ok;
    exits_ok = h.exits_ok;
    consumes_even = omega (arith, h.consumes_even, length-record_sample a m.submits);
    exits_even = omega (arith, h.exits_even, length-record_sample a m.submits);
    one_holder = h.one_holder;
    reads =
        Reads-sample y (logged m.submits) (logged m.consumes) (logged m.exits)
          (logged (record_sample a m.submits)) (logged m.consumes) (logged m.exits) r
          (alone m.stat_mu (reader_holds r) h.one_holder)
          (λ (n i j l : ℕ).
            λ (k : Snapshot y n m.submits.samples m.consumes.samples m.exits.samples i j l).
              Snapshot-submit y n a m.submits.samples m.consumes.samples m.exits.samples i j l k)
          h.reads;
  }

  pub sample_consume-Inv :
      (m : Shared) (b c : ℕ) (r : Reader)
      → Inv y m (hands (Sampler.add_consume b c)) r
      → Inv y (record m { consumes = record_sample b m.consumes }) (hands (Sampler.add_exit c)) r
  unfolding record_sample
  sample_consume-Inv m b c r h = record {
    submits_ok = h.submits_ok;
    consumes_ok = record_sample-Accounted y.window y.consume_buckets b m.consumes h.consumes_ok;
    exits_ok = h.exits_ok;
    consumes_even = omega (arith, h.consumes_even, length-record_sample b m.consumes);
    exits_even = h.exits_even;
    one_holder = h.one_holder;
    reads =
        Reads-sample y (logged m.submits) (logged m.consumes) (logged m.exits) (logged m.submits)
          (logged (record_sample b m.consumes)) (logged m.exits) r
          (alone m.stat_mu (reader_holds r) h.one_holder)
          (λ (n i j l : ℕ).
            λ (k : Snapshot y n m.submits.samples m.consumes.samples m.exits.samples i j l).
              Snapshot-consume y n b m.submits.samples m.consumes.samples m.exits.samples i j l k)
          h.reads;
  }

  pub sample_exit-Inv :
      (m : Shared) (c : ℕ) (r : Reader)
      → Inv y m (hands (Sampler.add_exit c)) r
      → Inv y (record m { exits = record_sample c m.exits }) (hands (Sampler.unlock)) r
  unfolding record_sample
  sample_exit-Inv m c r h = record {
    submits_ok = h.submits_ok;
    consumes_ok = h.consumes_ok;
    exits_ok = record_sample-Accounted y.window y.exit_buckets c m.exits h.exits_ok;
    consumes_even = h.consumes_even;
    exits_even = omega (arith, h.exits_even, length-record_sample c m.exits);
    one_holder = h.one_holder;
    reads =
        Reads-sample y (logged m.submits) (logged m.consumes) (logged m.exits) (logged m.submits)
          (logged m.consumes) (logged (record_sample c m.exits)) r
          (alone m.stat_mu (reader_holds r) h.one_holder)
          (λ (n i j l : ℕ).
            λ (k : Snapshot y n m.submits.samples m.consumes.samples m.exits.samples i j l).
              Snapshot-exit y n c m.submits.samples m.consumes.samples m.exits.samples i j l k)
          h.reads;
  }

  pub Sample-Inv :
      {m m' : Shared} {p p' : Sampler} {r : Reader}
      → Sample m p m' p'
      → Inv y m (hands p) r
      → Inv y m' (hands p') r
  Sample-Inv Sample.tick h = h
  Sample-Inv Sample.take_submit h = record {
    submits_ok = (omega (arith, h.submits_ok.0), h.submits_ok.1);
    consumes_ok = h.consumes_ok;
    exits_ok = h.exits_ok;
    consumes_even = h.consumes_even;
    exits_even = h.exits_even;
    one_holder = h.one_holder;
    reads = h.reads;
  }
  Sample-Inv Sample.take_consume h = record {
    submits_ok = h.submits_ok;
    consumes_ok = (omega (arith, h.consumes_ok.0), h.consumes_ok.1);
    exits_ok = h.exits_ok;
    consumes_even = h.consumes_even;
    exits_even = h.exits_even;
    one_holder = h.one_holder;
    reads = h.reads;
  }
  Sample-Inv Sample.take_exit h = record {
    submits_ok = h.submits_ok;
    consumes_ok = h.consumes_ok;
    exits_ok = (omega (arith, h.exits_ok.0), h.exits_ok.1);
    consumes_even = h.consumes_even;
    exits_even = h.exits_even;
    one_holder = h.one_holder;
    reads = h.reads;
  }
  Sample-Inv {m = m} {r = r} (Sample.acquire e) h = record {
    submits_ok = h.submits_ok;
    consumes_ok = h.consumes_ok;
    exits_ok = h.exits_ok;
    consumes_even = h.consumes_even;
    exits_even = h.exits_even;
    one_holder = omega (arith, unlocked m.stat_mu 0 (reader_holds r) h.one_holder e);
    reads = h.reads;
  }
  Sample-Inv {m = m} {p = Sampler.add_submit a b c} {r = r} Sample.sample_submit h =
      sample_submit-Inv m a b c r h
  Sample-Inv {m = m} {p = Sampler.add_consume b c} {r = r} Sample.sample_consume h =
      sample_consume-Inv m b c r h
  Sample-Inv {m = m} {p = Sampler.add_exit c} {r = r} Sample.sample_exit h = sample_exit-Inv m c r h
  Sample-Inv {m = m} {r = r} Sample.release h = record {
    submits_ok = h.submits_ok;
    consumes_ok = h.consumes_ok;
    exits_ok = h.exits_ok;
    consumes_even = h.consumes_even;
    exits_even = h.exits_even;
    one_holder = omega (arith, alone m.stat_mu (reader_holds r) h.one_holder);
    reads = h.reads;
  }
  Sample-Inv (Sample.still_open e) h = h
  Sample-Inv (Sample.now_closed e) h = h
  Sample-Inv (Sample.still_pending e) h = h
  Sample-Inv (Sample.drained e) h = h
