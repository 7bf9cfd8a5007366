-- ===== src/Scaler.antt =====
-- pool.go: how many workers scaleIfNeeded decides to start. float64 is a parameter: `trunc` is the
-- conversion to int64, with 0 for what is not positive, since the code compares a target only with
-- numbers that are not negative. The other numbers are counts of tasks and workers.
pub mod Decision
mod Tests
use agile_pool.Prelude.{
  ℕ, ◌+◌, ◌-◌, min, max, Bool, true, false, ◌&&◌, Option, none, some, ltb, leb, ◌==◌, if◌then◌else◌,
}

pub record Floats (Float : Type 0) : Type 0 where
  pub of_count : ℕ → Float
  pub plus : Float → Float → Float
  pub minus : Float → Float → Float
  pub times : Float → Float → Float
  pub over : Float → Float → Float
  pub smaller : Float → Float → Float  -- min
  pub is_positive : Float → Bool  -- > 0
  pub trunc : Float → ℕ
  pub one : Float
  pub pressure_rate : Float  -- 0.15

pub record Settings (Float : Type 0) : Type 0 where
  pub capacity : ℕ
  pub backlog_decay_factor : Float
  pub max_zero_consume_scale_step : ℕ
  pub scaler_period : Float
  pub stats_sample_period : Float

-- What one call of scaleIfNeeded reads. `step_due` says that the interval since
-- lastZeroConsumeScale is over.
pub record Reading (Float : Type 0) : Type 0 where
  pub submit_med : Float
  pub consume_med : Float
  pub exit_med : Float
  pub running : ℕ
  pub buf_depth : ℕ
  pub total_backlog : ℕ
  pub queued : ℕ
  pub step_due : Bool

-- `toSpawn` where the code goes on to start workers.
unfoldable pub settle : (target exit_per_tick running capacity : ℕ) → Option ℕ
settle target exit_per_tick running capacity =
    let to_spawn = min (target - running + exit_per_tick) (capacity - running) in
    if leb target running then none else if leb to_spawn 0 then none else some to_spawn

module _ {Float : Type 0} (fl : Floats Float) (c : Settings Float) (r : Reading Float) where
  abbrev pub rate_target : ℕ
  rate_target =
      if ltb 0 r.running && fl.is_positive r.consume_med && fl.is_positive r.submit_med
      then fl.trunc (fl.over (fl.times r.submit_med (fl.of_count r.running)) r.consume_med)
      else 0

  abbrev pub q_target : ℕ
  q_target =
      let buf_cycles = fl.over (fl.of_count r.buf_depth) r.consume_med in
      let buf_pressure = fl.smaller fl.one (fl.times buf_cycles fl.pressure_rate) in
      let dynamic_decay =
        fl.plus c.backlog_decay_factor
          (fl.times (fl.minus fl.one c.backlog_decay_factor) buf_pressure) in
      let effective_submit =
        fl.plus r.submit_med (fl.times (fl.of_count r.total_backlog) dynamic_decay) in
      fl.trunc (fl.over (fl.times effective_submit (fl.of_count r.running)) r.consume_med)

  abbrev pub growth : ℕ
  growth =
      min (min r.queued (max 1 r.running))
        (min c.max_zero_consume_scale_step (c.capacity - r.running))

  abbrev pub grows : Bool
  grows = ltb 0 r.queued && ltb 0 (c.capacity - r.running) && r.step_due

  -- The target before it is capped, and whether lastZeroConsumeScale becomes the current time.
  unfoldable pub raw_target : ℕ × Bool
  raw_target =
      if leb r.total_backlog 0
      then (rate_target, false)
      else if r.running == 0
      then (r.total_backlog, false)
      else if fl.is_positive r.consume_med
      then (max rate_target q_target, false)
      else if grows
      then (r.running + growth, true)
      else (rate_target, false)

  abbrev pub target : ℕ
  unfolding raw_target
  target = min (min raw_target.0 r.total_backlog) c.capacity

  abbrev pub exit_per_tick : ℕ
  exit_per_tick = fl.trunc (fl.over (fl.times r.exit_med c.scaler_period) c.stats_sample_period)

  unfoldable pub decide : Option ℕ
  unfolding target settle
  decide = settle target exit_per_tick r.running c.capacity
