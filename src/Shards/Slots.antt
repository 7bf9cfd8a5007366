-- ===== src/Shards/Slots.antt =====
-- The slots of a shard.
use agile_pool.Prelude.{
  ℕ, ◌+◌, ◌-◌, ◌*◌, ◌/◌, ◌%◌, ◌^◌, ◌≤◌, ◌<◌, ◌≡◌, refl, ap, inl, inr, true, false, arith, ltb,
  Bool-cases,
}
use native.Mathlib.Nat.{mod-lt, mod-add-div'}
use agile_pool.Shards.{negative, per_shard_cap}

quotient-bounds :
    (size shards : ℕ)
    → 0 < size
    → 0 < shards
    → let q = (size + (shards - 1)) / shards in
      (size ≤ q * shards) × (q * shards < size + shards) × (0 < q)
quotient-bounds size shards some_room some_shard =
    let sum = size + (shards - 1) in
    let q = sum / shards in
    let parts = mod-add-div' sum shards in
    let rest = mod-lt sum some_shard in
    let low : size ≤ q * shards = omega (arith, parts, rest) in
    (
      low,
      omega (arith, parts),
      elim (Bool-cases (ltb 0 q)) [
        | inl positive ↦ ground arith
        | inr zero_q ↦
            let none_left : q ≡ 0 = ground arith in
            absurd (omega (arith, low, ap (◌* shards) none_left))
      ],
    )

-- The shards have at least the configured capacity between them, and less than one slot more for
-- each, unless the sum that is divided wraps.
pub per_shard_cap-bounds :
    (size shards : ℕ)
    → 0 < size
    → 0 < shards
    → size + shards ≤ 2 ^ 63
    → (size ≤ per_shard_cap size shards * shards)
      × (per_shard_cap size shards * shards < size + shards)
      × (0 < per_shard_cap size shards)
unfolding per_shard_cap
per_shard_cap-bounds size shards some_room some_shard fit =
    let sum = size + (shards - 1) in
    let q = quotient-bounds size shards some_room some_shard in
    let exact : sum % 2 ^ 64 ≡ sum = omega (arith, fit) in
    let plus : negative sum ≡ false = ground (arith, fit) in
    let some_slots : ltb (sum / shards) 1 ≡ false = ground (arith, q) in
    rw (exact, plus, some_slots) q

-- When the sum wraps every shard has one slot, whatever the configured capacity is.
pub per_shard_cap-one :
    (size shards : ℕ)
    → size < 2 ^ 63
    → shards < 2 ^ 63
    → 2 ^ 63 < size + shards
    → per_shard_cap size shards ≡ 1
unfolding per_shard_cap
per_shard_cap-one size shards hs hn over =
    let wrapped : negative ((size + (shards - 1)) % 2 ^ 64) ≡ true = ground (arith, hs, hn, over) in
    rw wrapped refl
