-- ===== src/Retry/Delay.antt =====
-- How long the default strategy waits.
use agile_pool.Prelude.{ℕ, ◌*◌, ◌^◌, ◌%◌, ◌<◌, ◌≡◌, min, arith, ltb, ◌==◌, not, ◌||◌, if◌then◌else◌}
use agile_pool.Retry.{default_back_off_strategy}

delay : (mult wild most : ℕ) → ℕ
delay mult wild most =
    let sleep = if ltb mult (2 ^ 63) then mult else wild % 2 ^ 63 in
    if not (sleep == mult) || ltb most sleep then most else sleep

delay-min : (mult wild most : ℕ) → most < 2 ^ 63 → delay mult wild most ≡ min mult most
unfolding delay
delay-min mult wild most fit = ground (arith, fit)

-- The default strategy waits `min` times two to the number of the retry, and `max` at most,
-- whatever the conversion makes of products that do not fit.
pub default_back_off_strategy-min :
    (wild : ℕ → ℕ) (least most n : ℕ)
    → most < 2 ^ 63
    → default_back_off_strategy wild least most n ≡ min (2 ^ n * least) most
unfolding default_back_off_strategy delay
default_back_off_strategy-min wild least most n fit =
    delay-min (2 ^ n * least) (wild (2 ^ n * least)) most fit
