-- ===== src/SpinLock.antt =====
-- spinlock.go: `Lock` and `Unlock` as steps of interleaved goroutines, one for each access of
-- `state` and each call of `runtime.Gosched`.
pub mod Safety
mod Tests
use agile_pool.Prelude.{ℕ, zero, suc, ◌+◌, ◌*◌, ◌%◌, ◌≤◌, ◌<◌, ◌≡◌, ◌≢◌, ltb, if◌then◌else◌}
use agile_pool.Prelude.Update.{update}

abbrev pub fast_spin : ℕ
fast_spin = 100

abbrev pub yield_interval : ℕ
yield_interval = 16

abbrev pub max_backoff : ℕ
max_backoff = 16

abbrev pub max_rounds : ℕ
max_rounds = 1024

abbrev pub next_backoff : ℕ → ℕ
next_backoff b = if ltb b max_backoff then b * 2 else b

-- Where a goroutine stands; those that yield carry what is left of the round.
pub data Spot : Type 0 where
  outside : Spot
  fast : (i : ℕ) → Spot
  fast_yield : (i : ℕ) → Spot
  slow : (round backoff : ℕ) → Spot
  slow_yield : (round backoff left : ℕ) → Spot
  fallback : Spot
  fallback_yield : Spot
  holding : Spot

pub data Act (state : ℕ) : Spot → ℕ → Spot → Type 0 where
  lock : Act state outside state (fast 0)
  fast_win : {i : ℕ} → i < fast_spin → state ≡ 0 → Act state (fast i) 1 holding
  fast_fail :
      {i : ℕ}
      → i < fast_spin
      → state ≢ 0
      → (i + 1) % yield_interval ≢ 0
      → Act state (fast i) state (fast (suc i))
  fast_wait :
      {i : ℕ}
      → i < fast_spin
      → state ≢ 0
      → (i + 1) % yield_interval ≡ 0
      → Act state (fast i) state (fast_yield i)
  fast_go : {i : ℕ} → Act state (fast_yield i) state (fast (suc i))
  fast_over : {i : ℕ} → fast_spin ≤ i → Act state (fast i) state (slow 0 1)
  slow_win : {r b : ℕ} → r < max_rounds → state ≡ 0 → Act state (slow r b) 1 holding
  slow_fail : {r b : ℕ} → r < max_rounds → state ≢ 0 → Act state (slow r b) state (slow_yield r b b)
  slow_go : {r b l : ℕ} → Act state (slow_yield r b (suc l)) state (slow_yield r b l)
  slow_next : {r b : ℕ} → Act state (slow_yield r b 0) state (slow (suc r) (next_backoff b))
  slow_over : {r b : ℕ} → max_rounds ≤ r → Act state (slow r b) state fallback
  fallback_win : state ≡ 0 → Act state fallback 1 holding
  fallback_fail : state ≢ 0 → Act state fallback state fallback_yield
  fallback_go : Act state fallback_yield state fallback
  unlock : Act state holding 0 outside

pub record Goroutines : Type 0 where
  pub state : ℕ
  pub spot : ℕ → Spot

-- Any goroutine below `n` acts.
pub data Turn (n : ℕ) (g : Goroutines) : Goroutines → Type 0 where
  act :
      (i : ℕ) {state : ℕ} {p : Spot}
      → Act g.state (g.spot i) state p
      → i < n
      → Turn n g (record { state = state; spot = update g.spot i p })

-- `newSpinLock`, with nobody there.
abbrev pub free : Goroutines
free = record { state = 0; spot = λ _. outside }

pub data Run (n : ℕ) : Goroutines → Type 0 where
  begin : Run n free
  turn : {g h : Goroutines} → Turn n g h → Run n g → Run n h
