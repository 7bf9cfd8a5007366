-- ===== src/Scaler/Decision.antt =====
-- What the decision promises, whatever the floating-point operations return.
use agile_pool.Prelude.{
  ℕ, ◌+◌, ◌-◌, ◌≤◌, ◌<◌, min, ◌≡◌, refl, ◌∙◌, ap, ltb, ◌&&◌, none, if◌then◌else◌, true, false, some,
  arith, leb, ◌==◌,
}
use agile_pool.Scaler.{
  Floats, Settings, Reading, growth, grows, raw_target, target, exit_per_tick, settle, decide,
}

settle-bounds :
    (t x running capacity n : ℕ)
    → settle t x running capacity ≡ some n
    → (0 < n) × (n ≤ capacity - running) × (n ≤ t - running + x) × (running < t)
unfolding settle
settle-bounds t x running capacity n e = ground (arith, e)

settle-some :
    (t x running capacity : ℕ)
    → running < t
    → running < capacity
    → settle t x running capacity ≡ some (min (t - running + x) (capacity - running))
unfolding settle
settle-some t x running capacity ht hc = ground (arith, ht, hc)

module _ {Float : Type 0} (fl : Floats Float) (c : Settings Float) (r : Reading Float) where
  -- A decision fits in the room that was read, and apart from the compensation for exits it brings
  -- the workers to the number of pending tasks at most.
  pub decide-bounds :
      (n : ℕ)
      → decide fl c r ≡ some n
      → (0 < n)
        × (n ≤ c.capacity - r.running)
        × (n ≤ r.total_backlog - r.running + exit_per_tick fl c r)
        × (r.running < r.total_backlog)
  unfolding decide
  decide-bounds n e =
      let s = settle-bounds (target fl c r) (exit_per_tick fl c r) r.running c.capacity n e in
      ground (arith, s)

  raw_target-cold : r.running ≡ 0 → 0 < r.total_backlog → (raw_target fl c r).0 ≡ r.total_backlog
  unfolding raw_target
  raw_target-cold idle some_task =
      let some_left : leb r.total_backlog 0 ≡ false = ground (arith, some_task) in
      let none_running : (r.running == 0) ≡ true = ground (arith, idle) in
      rw (some_left, none_running) refl

  -- With tasks pending, no worker and some capacity, the decision is to start one at least.
  pub decide-cold :
      r.running ≡ 0
      → 0 < r.total_backlog
      → 0 < c.capacity
      → decide fl c r
        ≡ some (min (min r.total_backlog c.capacity + exit_per_tick fl c r) c.capacity)
  unfolding decide
  decide-cold idle some_task some_room =
      let raw : (raw_target fl c r).0 ≡ r.total_backlog = raw_target-cold idle some_task in
      settle-some (target fl c r) (exit_per_tick fl c r) r.running c.capacity (ground (arith, raw))
        (omega (arith, idle, some_room))
      ∙ ap some (omega (arith, raw, idle))

  raw_target-quiet :
      fl.is_positive r.consume_med ≡ false
      → 0 < r.running
      → r.running < r.total_backlog
      → (raw_target fl c r).0 ≡ (if grows fl c r then r.running + growth fl c r else 0)
  unfolding raw_target
  raw_target-quiet quiet some_worker more = ground (arith, quiet, some_worker, more)

  -- While no consumption is seen, with a worker, more tasks pending than workers and room, nothing
  -- is started when no task is queued or the interval is not over. Otherwise as many workers are as
  -- tasks are queued, but at most as many as are running, as one step allows, as there is room for
  -- and as tasks are pending beyond the workers; the compensation for exits is added, as far as
  -- there is room. With a task queued that is one worker at least.
  pub decide-grows :
      fl.is_positive r.consume_med ≡ false
      → 0 < r.running
      → r.running < r.total_backlog
      → r.running < c.capacity
      → 0 < c.max_zero_consume_scale_step
      → let room = c.capacity - r.running in
        let step =
          min
            (min r.queued r.running)
            (min c.max_zero_consume_scale_step (min room (r.total_backlog - r.running))) in
        (decide fl c r ≡ (
          if ltb 0 r.queued && r.step_due
          then some (min (step + exit_per_tick fl c r) room)
          else none))
        × (min r.queued 1 ≤ min (step + exit_per_tick fl c r) room)
  unfolding decide settle target
  decide-grows quiet some_worker more room step =
      let raw = raw_target-quiet quiet some_worker more in
      (ground (arith, raw), omega (arith, some_worker, more, room, step))
