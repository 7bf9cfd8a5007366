-- ===== src/Rates.antt =====
-- pool.go: the counters of submissions, consumed tasks and exits, statsSampler with sampleRates,
-- which turns them into samples, and getMedianRates, which the scaler calls. Every access of shared
-- memory is a step.
pub mod Account
pub mod Sampling
pub mod Reading
pub mod Safety
mod Tests
use agile_pool.Prelude.{ℕ, suc, ◌-◌, ◌≡◌, ◌≢◌, Bool, true, false, List, [], ◌∷◌, ◌++◌}
use agile_pool.Histogram.{Bucket, Histogram, new_histogram, add, median}

-- A counter with its histogram. `events` and `samples` only serve the statements: how often the
-- counter was raised, and what was given to `add`.
pub record Series : Type 0 where
  pub count : ℕ
  pub hist : Histogram
  pub events : ℕ
  pub samples : List ℕ

-- `atomic.AddInt64(&count, 1)`
abbrev pub bump : Series → Series
bump s = record s { count = suc s.count; events = suc s.events }

-- What `atomic.SwapInt64(&count, 0)` leaves.
abbrev pub swapped : Series → Series
swapped s = record s { count = 0 }

unfoldable pub record_sample : ℕ → Series → Series
record_sample v s = record s { hist = add v s.hist; samples = s.samples ++ v ∷ [] }

pub record Shared : Type 0 where
  pub submits : Series
  pub consumes : Series
  pub exits : Series
  pub stat_mu : Bool
  pub closed : Bool
  pub pending : ℕ

-- The goroutine of statsSampler, with what it holds of the three counters.
pub data Sampler : Type 0 where
  waiting : Sampler
  swap_submit : Sampler
  swap_consume : ℕ → Sampler
  swap_exit : ℕ → ℕ → Sampler
  lock : ℕ → ℕ → ℕ → Sampler
  add_submit : ℕ → ℕ → ℕ → Sampler
  add_consume : ℕ → ℕ → Sampler
  add_exit : ℕ → Sampler
  unlock : Sampler
  load_closed : Sampler
  load_pending : Sampler
  stopped : Sampler

-- The scaler in getMedianRates, with the medians that it has.
pub data Reader : Type 0 where
  idle : Reader
  median_submit : Reader
  median_consume : ℕ → Reader
  median_exit : ℕ → ℕ → Reader
  returning : ℕ → ℕ → ℕ → Reader
  returned : ℕ → ℕ → ℕ → Reader

pub data Sample (m : Shared) : Sampler → Shared → Sampler → Type 0 where
  tick : Sample m waiting m swap_submit
  take_submit :
      Sample m swap_submit (record m { submits = swapped m.submits }) (swap_consume m.submits.count)
  take_consume :
      {a : ℕ}
      → Sample m
          (swap_consume a)
          (record m { consumes = swapped m.consumes })
          (swap_exit a m.consumes.count)
  take_exit :
      {a b : ℕ}
      → Sample m (swap_exit a b) (record m { exits = swapped m.exits }) (lock a b m.exits.count)
  acquire :
      {a b c : ℕ}
      → m.stat_mu ≡ false
      → Sample m (lock a b c) (record m { stat_mu = true }) (add_submit a b c)
  sample_submit :
      {a b c : ℕ}
      → Sample m
          (add_submit a b c)
          (record m { submits = record_sample a m.submits })
          (add_consume b c)
  sample_consume :
      {b c : ℕ}
      → Sample m (add_consume b c) (record m { consumes = record_sample b m.consumes }) (add_exit c)
  sample_exit :
      {c : ℕ} → Sample m (add_exit c) (record m { exits = record_sample c m.exits }) unlock
  release : Sample m unlock (record m { stat_mu = false }) load_closed
  still_open : m.closed ≡ false → Sample m load_closed m waiting
  now_closed : m.closed ≡ true → Sample m load_closed m load_pending
  still_pending : m.pending ≢ 0 → Sample m load_pending m waiting
  drained : m.pending ≡ 0 → Sample m load_pending m stopped

pub data Read (m : Shared) : Reader → Shared → Reader → Type 0 where
  acquire : m.stat_mu ≡ false → Read m idle (record m { stat_mu = true }) median_submit
  read_submit : Read m median_submit m (median_consume (median m.submits.hist))
  read_consume : {a : ℕ} → Read m (median_consume a) m (median_exit a (median m.consumes.hist))
  read_exit : {a b : ℕ} → Read m (median_exit a b) m (returning a b (median m.exits.hist))
  release : {a b c : ℕ} → Read m (returning a b c) (record m { stat_mu = false }) (returned a b c)
  again : {a b c : ℕ} → Read m (returned a b c) m idle

-- What the other goroutines do to these fields.
pub data Others (m : Shared) : Shared → Type 0 where
  submit : Others m (record m { submits = bump m.submits })
  consume : Others m (record m { consumes = bump m.consumes })
  exit : Others m (record m { exits = bump m.exits })
  register : Others m (record m { pending = suc m.pending })
  complete : Others m (record m { pending = m.pending - 1 })
  close : Others m (record m { closed = true })

pub record System : Type 0 where
  pub shared : Shared
  pub sampler : Sampler
  pub reader : Reader

pub data Step (s : System) : System → Type 0 where
  sample :
      {m : Shared} {p : Sampler}
      → Sample s.shared s.sampler m p
      → Step s (record s { shared = m; sampler = p })
  read :
      {m : Shared} {r : Reader}
      → Read s.shared s.reader m r
      → Step s (record s { shared = m; reader = r })
  others : {m : Shared} → Others s.shared m → Step s (record s { shared = m })

-- The buckets of the three histograms, and the window.
pub record Layout : Type 0 where
  pub submit_buckets : List Bucket
  pub consume_buckets : List Bucket
  pub exit_buckets : List Bucket
  pub window : ℕ

module _ (y : Layout) where
  abbrev pub series : List Bucket → Series
  series buckets = record {
    count = 0;
    hist = new_histogram buckets y.window;
    events = 0;
    samples = [];
  }

  abbrev pub init : System
  init = record {
    shared = record {
      submits = series y.submit_buckets;
      consumes = series y.consume_buckets;
      exits = series y.exit_buckets;
      stat_mu = false;
      closed = false;
      pending = 0;
    };
    sampler = waiting;
    reader = idle;
  }

  pub data Reach : System → Type 0 where
    start : Reach init
    next : {s t : System} → Reach s → Step s t → Reach t
