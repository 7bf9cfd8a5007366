-- ===== src/Pool/Spread.antt =====
-- nextShard goes round the shards, also where sendSeq wraps around.
use Prim.Native.Nat.{bit_and}
use native.Mathlib.Nat.{
  mod-add-div', add-mul-mod_self_right, mod-eq_of_lt, add-mod_right, mod-add-mod, mul_assoc,
}
use agile_pool.Prelude.{
  ℕ, zero, suc, ◌+◌, ◌-◌, ◌*◌, ◌/◌, ◌%◌, ◌^◌, ◌≤◌, ◌<◌, ◌≡◌, refl, sym, ap, subst, ◌∙◌, List, [],
  ◌∷◌, arith, ltb, ◌==◌, if◌then◌else◌,
}
use agile_pool.Histogram.Tracks.{occurrences}
use agile_pool.Shards.Rounding.{power, power-positive}
use agile_pool.Pool.State.{Settings, Channels}
use agile_pool.Shards.Mask.{bit_and-mask}
use agile_pool.Pool.Channels.{masked, next_shard}

-- The shards that `k` calls of nextShard pick.
unfoldable pub picks : Settings → ℕ → Channels → List ℕ
unfolding next_shard
picks c zero ch = []
picks c (suc k) ch = let (q, ch') = next_shard c ch in q ∷ picks c k ch'

power-add : (j k : ℕ) → power (j + k) ≡ power j * power k
power-add zero k = let e : 0 + k ≡ k = omega arith in omega (arith, ap power e)
power-add (suc j) k =
    let e : suc j + k ≡ suc (j + k) = omega arith in ap power e ∙ grind (arith, power-add j k)

-- A number below 2 ^ 64 and one that has wrapped have the same remainder.
mod-wrapped : (j x : ℕ) → j ≤ 64 → x % 2 ^ 64 % power j ≡ x % power j
mod-wrapped j x h =
    let p = power j in
    let r = power (64 - j) in
    let exponent : 64 ≡ (64 - j) + j = omega (arith, h) in
    let whole : 2 ^ 64 ≡ r * p = ap power exponent ∙ power-add (64 - j) j in
    let parts : x % 2 ^ 64 + x / 2 ^ 64 * r * p ≡ x =
      ap (λ (m : ℕ). x % 2 ^ 64 + m)
        (mul_assoc (x / 2 ^ 64) r p ∙ ap (λ (m : ℕ). x / 2 ^ 64 * m) (sym whole))
      ∙ mod-add-div' x (2 ^ 64) in
    sym (add-mul-mod_self_right (x % 2 ^ 64) (x / 2 ^ 64 * r) p) ∙ ap (◌% p) parts

module _ (p : ℕ) (some_ : 0 < p) where
  hit : ℕ → ℕ → ℕ
  hit q a = if a % p == q then 1 else 0

  -- How many of the `n` numbers from `a` on have the remainder `q`.
  hits : ℕ → (n a : ℕ) → ℕ
  hits q zero a = 0
  hits q (suc n) a = hit q a + hits q n (suc a)

  hits-last : (q n a : ℕ) → hits q (suc n) a ≡ hits q n a + hit q (a + n)
  unfolding hits
  hits-last q zero a = let e : a + 0 ≡ a = omega arith in omega (arith, ap (hit q) e)
  hits-last q (suc n) a =
      let e : suc a + n ≡ a + suc n = omega arith in
      omega (arith, hits-last q n (suc a), ap (hit q) e)

  -- A window of `p` numbers may move.
  hits-shift : (q a : ℕ) → hits q p (suc a) ≡ hits q p a
  unfolding hits hit
  hits-shift q a =
      let same : hit q (a + p) ≡ hit q a =
        ap (λ (x : ℕ). if x == q then 1 else 0) (add-mod_right a p) in
      omega (arith, hits-last q p a, same)

  hits-zero : (q a : ℕ) → hits q p a ≡ hits q p 0
  hits-zero q zero = refl
  hits-zero q (suc a) = hits-shift q a ∙ hits-zero q a

  hits-start : (q n : ℕ) → n ≤ p → hits q n 0 ≡ (if ltb q n then 1 else 0)
  unfolding hits hit
  hits-start q zero h = ground arith
  hits-start q (suc n) h =
      let e : 0 + n ≡ n = omega arith in
      let small : n % p ≡ n = mod-eq_of_lt (omega (arith, h)) in
      let last : hit q (0 + n) ≡ (if n == q then 1 else 0) =
        ap (hit q) e ∙ ap (λ (x : ℕ). if x == q then 1 else 0) small in
      ground (arith, hits-last q n 0, hits-start q n (omega (arith, h)), last)

  hits-one : (q a : ℕ) → q < p → hits q p a ≡ 1
  hits-one q a h = ground (arith, hits-zero q a, hits-start q p (omega arith))

mod-suc : (p a b : ℕ) → a % p ≡ b % p → suc a % p ≡ suc b % p
mod-suc p a b e =
    let step = λ (x : ℕ). mod-add-mod x p 1 in
    let one = λ (x : ℕ). let y : x + 1 ≡ suc x = omega arith in ap (◌% p) y in
    sym (one a) ∙ sym (step a) ∙ ap (λ (x : ℕ). (x + 1) % p) e ∙ step b ∙ one b

-- The calls from `ch` on pick the remainders of the numbers from `a` on.
occurrences-picks :
    (c : Settings) (j q : ℕ) (some_ : 0 < power j)
    → j ≤ 64
    → c.shard_count ≡ power j
    → (k a : ℕ) (ch : Channels) → suc ch.send_seq % power j ≡ a % power j
    → occurrences q (picks c k ch) ≡ hits (power j) some_ q k a
unfolding picks next_shard hits hit
occurrences-picks c j q some_ small e zero a ch now = refl
occurrences-picks c j q some_ small e (suc k) a ch now =
    let seq = (ch.send_seq + 1) % 2 ^ 64 in
    let plus : ch.send_seq + 1 ≡ suc ch.send_seq = omega arith in
    let here : seq % power j ≡ a % power j =
      mod-wrapped j (ch.send_seq + 1) small ∙ ap (◌% power j) plus ∙ now in
    let first : masked c seq ≡ a % power j =
      ap (λ (k : ℕ). bit_and seq (k - 1)) e ∙ bit_and-mask j seq ∙ here in
    let rest =
      occurrences-picks c j q some_ small e k (suc a) (next_shard c ch).1
        (mod-suc (power j) seq a here) in
    omega (arith, ap {B = ℕ} (λ (x : ℕ). if x == q then 1 else 0) first, rest)

-- With a power of two shards, each of as many calls as there are shards picks another one, so that
-- every shard is picked once, from any value of sendSeq, also when it wraps around.
pub round_robin :
    (c : Settings) (ch : Channels) (j q : ℕ)
    → j ≤ 64
    → c.shard_count ≡ power j
    → q < c.shard_count
    → occurrences q (picks c c.shard_count ch) ≡ 1
round_robin c ch j q small e h =
    let some_ = power-positive j in
    ap (λ (k : ℕ). occurrences q (picks c k ch)) e
    ∙ occurrences-picks c j q some_ small e (power j) (suc ch.send_seq) ch refl
    ∙ hits-one (power j) some_ q (suc ch.send_seq) (subst (q <◌) e h)
