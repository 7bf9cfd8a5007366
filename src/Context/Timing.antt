-- ===== src/Context/Timing.antt =====
-- internal/context/context.go: the stamps of a task's life and the latencies between them. Times are
-- nanoseconds since the zero time, and a `time.Duration` saturates at 64 bits.
use agile_pool.Prelude.{
  ℕ, ◌+◌, ◌-◌, ◌^◌, ◌≤◌, ◌<◌, ◌≡◌, ap, ◌∙◌, Bool, ◌||◌, arith, ◌==◌, leb, if◌then◌else◌, min,
}
use agile_pool.Prelude.Int.{ℤ, pos, negsuc}
use agile_pool.Context.{
  Labels, get_time, label_timing_submitted, label_timing_enqueued, label_timing_started,
  label_timing_completed,
}

abbrev pub max_duration : ℕ
max_duration = 2 ^ 63 - 1

-- `a.Sub(b)`
pub sub : ℕ → ℕ → ℤ
sub a b = if leb b a then pos (min (a - b) max_duration) else negsuc (min (b - a - 1) max_duration)

-- `Timing`
unfoldable pub timing : Labels → ℕ × ℕ × ℕ × ℕ
timing m = (
  get_time label_timing_submitted m,
  get_time label_timing_enqueued m,
  get_time label_timing_started m,
  get_time label_timing_completed m,
)

-- `IsZero`
abbrev pub is_zero : ℕ → Bool
is_zero t = t == 0

pub duration : (now : ℕ) → Labels → ℤ
duration now m =
    let start = get_time label_timing_started m in if is_zero start then pos 0 else sub now start

pub total_latency : Labels → ℤ
total_latency m =
    let (submitted, _, _, completed) = timing m in
    if is_zero submitted || is_zero completed then pos 0 else sub completed submitted

pub queue_latency : Labels → ℤ
queue_latency m =
    let (submitted, _, started, _) = timing m in
    if is_zero submitted || is_zero started then pos 0 else sub started submitted

pub exec_latency : Labels → ℤ
exec_latency m =
    let (_, _, started, completed) = timing m in
    if is_zero started || is_zero completed then pos 0 else sub completed started

pub handoff_latency : Labels → ℤ
handoff_latency m =
    let (submitted, enqueued, _, _) = timing m in
    if is_zero submitted || is_zero enqueued then pos 0 else sub enqueued submitted

pub queue_wait_latency : Labels → ℤ
queue_wait_latency m =
    let (_, enqueued, started, _) = timing m in
    if is_zero enqueued || is_zero started then pos 0 else sub started enqueued

sub-pos : (a b : ℕ) → b ≤ a → a - b ≤ max_duration → sub a b ≡ pos (a - b)
unfolding sub
sub-pos a b le small = ground arith

-- Two stamps that are recorded and in order.
sub-recorded :
    (a b : ℕ)
    → 0 < b
    → b ≤ a
    → a - b ≤ max_duration
    → (if is_zero b || is_zero a then pos 0 else sub a b) ≡ pos (a - b)
sub-recorded a b some_ le small = ground (arith, sub-pos a b)

-- When the four stamps are recorded in the order of a task's life, no more than `max_duration`
-- apart, the handoff and the wait add up to the queue latency, and with the execution to the total.
pub latencies-add :
    (m : Labels)
    → 0 < (timing m).0
    → (timing m).0 ≤ (timing m).1
    → (timing m).1 ≤ (timing m).2
    → (timing m).2 ≤ (timing m).3
    → (timing m).3 - (timing m).0 ≤ max_duration
    → (handoff wait run : ℕ) × (handoff_latency m ≡ pos handoff)
      × (queue_wait_latency m ≡ pos wait)
      × (exec_latency m ≡ pos run)
      × (queue_latency m ≡ pos (handoff + wait))
      × (total_latency m ≡ pos (handoff + wait + run))
unfolding timing handoff_latency queue_wait_latency exec_latency queue_latency total_latency
latencies-add m h0 h1 h2 h3 small =
    let s = (timing m).0 in
    let e = (timing m).1 in
    let b = (timing m).2 in
    let c = (timing m).3 in
    (
      e - s,
      b - e,
      c - b,
      sub-recorded e s h0 h1 (omega arith),
      sub-recorded b e (omega arith) h2 (omega arith),
      sub-recorded c b (omega arith) h3 (omega arith),
      sub-recorded b s h0 (omega arith) (omega arith) ∙ ap pos (omega arith),
      sub-recorded c s h0 (omega arith) small ∙ ap pos (omega arith),
    )
