-- ===== src/Rates/Account.antt =====
-- What is true of the samples whatever goroutine comes next.
use agile_pool.Prelude.{
  ℕ, zero, suc, ◌+◌, ◌≤◌, ◌≡◌, refl, sym, ap, ◌∙◌, Bool, true, false, List, [], ◌∷◌, ◌++◌, arith,
  length, length-append, sum, sum-append, take,
}
use agile_pool.Histogram.{Bucket, Histogram, new_histogram, add, median, add_all}
use agile_pool.Histogram.Window.{add_all-append}
use agile_pool.Rates.{Series, record_sample, Shared, Sampler, Reader, Layout, init}

pub sum-append_one : (xs : List ℕ) (v : ℕ) → sum (xs ++ v ∷ []) ≡ sum xs + v
sum-append_one xs v = omega (arith, sum-append xs (v ∷ []))

-- What a sampler is in the middle of: what it has in hand of each counter, how many samples the
-- later histograms are behind the first one, and whether it holds the lock.
pub record Hands : Type 0 where
  pub submit : ℕ
  pub consume : ℕ
  pub exit : ℕ
  pub consume_behind : ℕ
  pub exit_behind : ℕ
  pub holds : ℕ

abbrev pub free : (a b c : ℕ) → Hands
free a b c = record {
  submit = a;
  consume = b;
  exit = c;
  consume_behind = 0;
  exit_behind = 0;
  holds = 0;
}

abbrev pub hands : Sampler → Hands
hands (Sampler.swap_consume a) = free a 0 0
hands (Sampler.swap_exit a b) = free a b 0
hands (Sampler.lock a b c) = free a b c
hands (Sampler.add_submit a b c) = record (free a b c) { holds = 1 }
hands (Sampler.add_consume b c) = record (free 0 b c) {
  consume_behind = 1;
  exit_behind = 1;
  holds = 1;
}
hands (Sampler.add_exit c) = record (free 0 0 c) { exit_behind = 1; holds = 1 }
hands Sampler.unlock = record (free 0 0 0) { holds = 1 }
hands Sampler.waiting = free 0 0 0
hands Sampler.swap_submit = free 0 0 0
hands Sampler.load_closed = free 0 0 0
hands Sampler.load_pending = free 0 0 0
hands Sampler.stopped = free 0 0 0

abbrev pub reader_holds : Reader → ℕ
reader_holds Reader.idle = 0
reader_holds (Reader.returned a b c) = 0
reader_holds r = 1

abbrev pub taken : Bool → ℕ
taken true = 1
taken false = 0

module _ (window : ℕ) where
  -- Every event is in a sample, in the sampler's hands or in the counter, and the histogram is that of
  -- the samples.
  abbrev pub Accounted : List Bucket → ℕ → Series → Type 0
  Accounted buckets in_hand s =
      (s.events ≡ sum s.samples + in_hand + s.count)
      × (s.hist ≡ add_all s.samples (new_histogram buckets window))

  pub record_sample-Accounted :
      (buckets : List Bucket) (v : ℕ) (s : Series)
      → Accounted buckets v s
      → Accounted buckets 0 (record_sample v s)
  unfolding record_sample
  record_sample-Accounted buckets v s (count, hist) = (
    omega (arith, sum-append_one s.samples v),
    ap (add v) hist ∙ sym (add_all-append s.samples v (new_histogram buckets window)),
  )

pub length-append_one {ℓ} :
    {A : Type ℓ} (xs : List A) (x : A) → length (xs ++ x ∷ []) ≡ suc (length xs)
length-append_one xs x = omega (arith, length-append xs (x ∷ []))

pub length-record_sample :
    (v : ℕ) (s : Series) → length (record_sample v s).samples ≡ suc (length s.samples)
unfolding record_sample
length-record_sample v s = length-append_one s.samples v

-- What the histogram of a counter holds, and what it was given.
abbrev pub Logged : Type 0
Logged = Histogram × List ℕ

abbrev pub logged : Series → Logged
logged s = (s.hist, s.samples)

-- The first samples of a counter stay when others come behind them.
pub take-append_one {ℓ} :
    {A : Type ℓ} (n : ℕ) (xs : List A) (x : A) → n ≤ length xs → take n (xs ++ x ∷ []) ≡ take n xs
take-append_one zero xs x h = refl
take-append_one (suc n) [] x h = absurd (omega arith)
take-append_one (suc n) (y ∷ xs) x h = ap (y ∷◌) (take-append_one n xs x (omega arith))

pub alone : (b : Bool) (y : ℕ) → 1 + y ≡ taken b → y ≡ 0
alone true y h = omega arith
alone false y h = omega arith

pub unlocked : (b : Bool) (x y : ℕ) → x + y ≡ taken b → b ≡ false → (x ≡ 0) × (y ≡ 0)
unlocked true x y h e = cc
unlocked false x y h e = omega arith

module _ (y : Layout) where
  abbrev pub median_of : List Bucket → List ℕ → ℕ
  median_of buckets samples = median (add_all samples (new_histogram buckets y.window))

  -- `a`, `b` and `c` are the medians of the first `n` samples of the three counters.
  abbrev pub Snapshot : ℕ → (xs ys zs : List ℕ) → (a b c : ℕ) → Type 0
  Snapshot n xs ys zs a b c =
      (n ≤ length xs)
      × (n ≤ length ys)
      × (n ≤ length zs)
      × (a ≡ median_of y.submit_buckets (take n xs))
      × (b ≡ median_of y.consume_buckets (take n ys))
      × (c ≡ median_of y.exit_buckets (take n zs))

  pub Snapshot-submit :
      (n v : ℕ) (xs ys zs : List ℕ) (a b c : ℕ)
      → Snapshot n xs ys zs a b c
      → Snapshot n (xs ++ v ∷ []) ys zs a b c
  Snapshot-submit n v xs ys zs a b c (hx, hy, hz, ea, eb, ec) = (
    omega (arith, length-append xs (v ∷ [])),
    hy,
    hz,
    ea ∙ ap (median_of y.submit_buckets) (sym (take-append_one n xs v hx)),
    eb,
    ec,
  )

  pub Snapshot-consume :
      (n v : ℕ) (xs ys zs : List ℕ) (a b c : ℕ)
      → Snapshot n xs ys zs a b c
      → Snapshot n xs (ys ++ v ∷ []) zs a b c
  Snapshot-consume n v xs ys zs a b c (hx, hy, hz, ea, eb, ec) = (
    hx,
    omega (arith, length-append ys (v ∷ [])),
    hz,
    ea,
    eb ∙ ap (median_of y.consume_buckets) (sym (take-append_one n ys v hy)),
    ec,
  )

  pub Snapshot-exit :
      (n v : ℕ) (xs ys zs : List ℕ) (a b c : ℕ)
      → Snapshot n xs ys zs a b c
      → Snapshot n xs ys (zs ++ v ∷ []) a b c
  Snapshot-exit n v xs ys zs a b c (hx, hy, hz, ea, eb, ec) = (
    hx,
    hy,
    omega (arith, length-append zs (v ∷ [])),
    ea,
    eb,
    ec ∙ ap (median_of y.exit_buckets) (sym (take-append_one n zs v hz)),
  )

  -- While the lock is held the medians are those of the histograms as they are.
  abbrev pub Reads : (u v w : Logged) → Reader → Type 0
  Reads u v w Reader.idle = Unit
  Reads u v w Reader.median_submit = Unit
  Reads u v w (Reader.median_consume a) = a ≡ median u.0
  Reads u v w (Reader.median_exit a b) = (a ≡ median u.0) × (b ≡ median v.0)
  Reads u v w (Reader.returning a b c) = (a ≡ median u.0) × (b ≡ median v.0) × (c ≡ median w.0)
  Reads u v w (Reader.returned a b c) = (n : ℕ) × Snapshot n u.1 v.1 w.1 a b c

  -- What a reader without the lock knows survives a sample.
  pub Reads-sample :
      (u v w u' v' w' : Logged) (r : Reader)
      → reader_holds r ≡ 0
      → ((n a b c : ℕ) → Snapshot n u.1 v.1 w.1 a b c → Snapshot n u'.1 v'.1 w'.1 a b c)
      → Reads u v w r
      → Reads u' v' w' r
  Reads-sample u v w u' v' w' Reader.idle h keep_ k = tt
  Reads-sample u v w u' v' w' (Reader.returned a b c) h keep_ (n, k) = (n, keep_ n a b c k)
  Reads-sample u v w u' v' w' Reader.median_submit h keep_ k = cc
  Reads-sample u v w u' v' w' (Reader.median_consume a) h keep_ k = cc
  Reads-sample u v w u' v' w' (Reader.median_exit a b) h keep_ k = cc
  Reads-sample u v w u' v' w' (Reader.returning a b c) h keep_ k = cc

  pub record Inv (m : Shared) (g : Hands) (r : Reader) : Type 0 where
    pub submits_ok : Accounted y.window y.submit_buckets g.submit m.submits
    pub consumes_ok : Accounted y.window y.consume_buckets g.consume m.consumes
    pub exits_ok : Accounted y.window y.exit_buckets g.exit m.exits
    pub consumes_even : length m.consumes.samples + g.consume_behind ≡ length m.submits.samples
    pub exits_even : length m.exits.samples + g.exit_behind ≡ length m.submits.samples
    pub one_holder : g.holds + reader_holds r ≡ taken m.stat_mu
    pub reads : Reads (logged m.submits) (logged m.consumes) (logged m.exits) r

  pub init-Inv : Inv (init y).shared (free 0 0 0) Reader.idle
  unfolding add_all
  init-Inv = record {
    submits_ok = (refl, refl);
    consumes_ok = (refl, refl);
    exits_ok = (refl, refl);
    consumes_even = refl;
    exits_even = refl;
    one_holder = refl;
    reads = tt;
  }
