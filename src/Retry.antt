-- ===== src/Retry.antt =====
-- task.go: TaskWithRetry, as the calls and sleeps that it makes. `fails k` says whether call number
-- `k` of the task returns an error. Durations are nanoseconds, and `retry_num`
-- is the number that the 64 bits of a uint stand for. At 2 ^ 63 - 1, the greatest int, the loop's
-- counter would wrap around after as many retries: that value is left out.
pub mod Calls
pub mod Delay
mod Tests
use agile_pool.Prelude.{
  ℕ, zero, suc, ◌+◌, ◌*◌, ◌%◌, ◌^◌, Bool, not, ◌||◌, Option, none, some, List, [], ◌∷◌, ltb, ◌==◌,
  if◌then◌else◌, ◌-◌,
}
use agile_pool.Prelude.Int.{ℤ, pos, negsuc, pos_part}

pub record TaskWithRetry : Type 0 where
  pub min_back_off : ℕ
  pub max_back_off : ℕ
  pub retry_num : ℕ
  pub back_off_strategy : Option (ℕ → ℕ → ℕ → ℕ)

-- `int(t.RetryNum)`: the same 64 bits, as a number with a sign.
abbrev pub to_int : ℕ → ℤ
to_int w = if ltb w (2 ^ 63) then pos w else negsuc (2 ^ 64 - 1 - w)

pub data Event : Type 0 where
  called : Event
  slept : ℕ → Event

-- float64 takes the product exactly for a `min` up to 2 ^ 53: the other factor is a power of two.
-- `wild` is what the conversion to int64 makes of a value that does not fit.
unfoldable pub default_back_off_strategy : (ℕ → ℕ) → (min max retry_num : ℕ) → ℕ
default_back_off_strategy wild min max retry_num =
    let mult = 2 ^ retry_num * min in
    let sleep = if ltb mult (2 ^ 63) then mult else wild mult % 2 ^ 63 in
    if not (sleep == mult) || ltb max sleep then max else sleep

module _ (wild : ℕ → ℕ) (t : TaskWithRetry) where
  unfoldable pub get_back_off_time : ℕ → ℕ
  unfolding default_back_off_strategy
  get_back_off_time retry_num = elim t.back_off_strategy [
    | none ↦ default_back_off_strategy wild t.min_back_off t.max_back_off retry_num
    | some strategy ↦ strategy t.min_back_off t.max_back_off retry_num
  ]

  -- The loop of runBackOffStrategy from retry `i` on, with `remaining` left; none are left of a
  -- negative number.
  unfoldable pub retries : (ℕ → Bool) → (remaining i : ℕ) → List Event
  retries fails zero i = []
  retries fails (suc r) i =
      let rest = retries fails r (suc i) in
      slept (get_back_off_time i) ∷ called ∷ (if fails i then rest else [])

  unfoldable pub process : (ℕ → Bool) → List Event
  unfolding retries
  process fails = called ∷ (if fails 0 then retries fails (pos_part (to_int t.retry_num)) 1 else [])
