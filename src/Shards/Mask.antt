-- ===== src/Shards/Mask.antt =====
-- `shardMask` picks a shard: with a power of two less one, `&` is the remainder.
use Prim.Native.Nat.{min, digits, bit_and, bit_and-bitwise}
use native.Mathlib.Nat.{mod-lt, mod-add-div', add-mul-mod_self_right, mod-eq_of_lt}
use agile_pool.Prelude.{ℕ, zero, suc, ◌+◌, ◌-◌, ◌*◌, ◌/◌, ◌%◌, ◌≤◌, ◌<◌, ◌≡◌, sym, ap, ◌∙◌, arith}
use agile_pool.Shards.Rounding.{power, power-positive}

mod-double : (a p : ℕ) → 0 < p → a % (p * 2) ≡ a / 2 % p * 2 + a % 2
mod-double a p h =
    let q = a / 2 / p in
    let r = a / 2 % p in
    let low : r < p = mod-lt (a / 2) h in
    let half : r + q * p ≡ a / 2 = mod-add-div' (a / 2) p in
    let whole : a ≡ (r * 2 + a % 2) + q * (p * 2) = omega (arith, half) in
    ap (◌% (p * 2)) whole
    ∙ add-mul-mod_self_right (r * 2 + a % 2) q (p * 2)
    ∙ mod-eq_of_lt (omega (arith, low))

zero-mod-power : (k : ℕ) → 0 % power k ≡ 0
zero-mod-power k = mod-eq_of_lt (power-positive k)

-- The digits of `a` under a mask of `k` ones, for any count of digits that is enough.
digits-mask : (n k a : ℕ) → a ≤ n → digits (λ b. 0) min n a (power k - 1) ≡ a % power k
digits-mask zero k zero h = sym (zero-mod-power k)
digits-mask zero k (suc a) h = absurd (omega (arith, h))
digits-mask (suc n) k zero h = sym (zero-mod-power k)
digits-mask (suc n) zero (suc a) h =
    rw (digits-mask n zero (suc a / 2) (omega (arith, h))) (omega arith)
digits-mask (suc n) (suc k) (suc a) h =
    let some_ : 0 < power k = power-positive k in
    let half : (power k * 2 - 1) / 2 ≡ power k - 1 = omega (arith, some_) in
    let odd : (power k * 2 - 1) % 2 ≡ 1 = omega (arith, some_) in
    rw half (
      rw odd (
        rw (digits-mask n k (suc a / 2) (omega (arith, h)))
          (omega (arith, mod-double (suc a) (power k) some_))))

pub bit_and-mask : (k a : ℕ) → bit_and a (power k - 1) ≡ a % power k
bit_and-mask k a = simp bit_and-bitwise (digits-mask a k a (omega arith))
