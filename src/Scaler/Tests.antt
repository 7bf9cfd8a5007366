-- ===== src/Scaler/Tests.antt =====
-- Decisions at concrete readings, with whole numbers for float64.
use agile_pool.Prelude.{ℕ, ◌+◌, ◌-◌, ◌*◌, ◌/◌, ◌≤◌, ◌<◌, min, ◌≡◌, refl, true, some, arith, ltb}
use agile_pool.Scaler.{Floats, Settings, Reading, exit_per_tick, raw_target, target, settle, decide}
use agile_pool.Scaler.Decision.{decide-bounds, decide-cold, decide-grows}

abbrev whole : Floats ℕ
whole = record {
  of_count = λ n. n;
  plus = λ a b. a + b;
  minus = λ a b. a - b;
  times = λ a b. a * b;
  over = λ a b. a / b;
  smaller = min;
  is_positive = ltb 0;
  trunc = λ n. n;
  one = 1;
  pressure_rate = 0;
}

abbrev ten : Settings ℕ
ten = record {
  capacity = 10;
  backlog_decay_factor = 0;
  max_zero_consume_scale_step = 64;
  scaler_period = 10;
  stats_sample_period = 100;
}

-- Two workers take one task in a period in which four come.
abbrev busy : Reading ℕ
busy = record {
  submit_med = 4;
  consume_med = 1;
  exit_med = 0;
  running = 2;
  buf_depth = 0;
  total_backlog = 30;
  queued = 28;
  step_due = true;
}

abbrev cold : Reading ℕ
cold = record busy { running = 0; consume_med = 0 }

abbrev stalled : Reading ℕ
stalled = record busy { consume_med = 0; submit_med = 0 }

busy_decision : decide whole ten busy ≡ some 6
unfolding decide target raw_target settle
busy_decision = refl

decide-bounds_example :
    (0 < 6) × (6 ≤ 10 - 2) × (6 ≤ 30 - 2 + exit_per_tick whole ten busy) × (2 < 30)
decide-bounds_example = decide-bounds whole ten busy 6 busy_decision

decide-cold_example :
    decide whole ten cold ≡ some (min (min 30 10 + exit_per_tick whole ten cold) 10)
decide-cold_example = decide-cold whole ten cold refl (omega arith) (omega arith)

decide-grows_example :
    (decide whole ten stalled ≡ some (min (2 + exit_per_tick whole ten stalled) 8))
    × (1 ≤ min (2 + exit_per_tick whole ten stalled) 8)
decide-grows_example =
    decide-grows whole ten stalled refl (omega arith) (omega arith) (omega arith) (omega arith)
