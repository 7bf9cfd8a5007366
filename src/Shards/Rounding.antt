-- ===== src/Shards/Rounding.antt =====
-- The number of shards is a power of two, unless the doubling wraps around.
use agile_pool.Prelude.{
  ℕ, zero, suc, ◌+◌, ◌*◌, ◌/◌, ◌%◌, ◌^◌, ◌≤◌, ◌<◌, ◌≡◌, refl, sym, ap, subst, ◌∙◌, ◌⊎◌, inl, inr,
  true, false, none, some, arith, ltb, Bool-cases, max, min, if◌then◌else◌,
}
use agile_pool.Shards.{
  less, round_up, shrink, wanted, shrink_to, resize, resolve_task_queue_shards,
  min_shardable_queue_size,
}

-- The powers of two.
abbrev pub power : ℕ → ℕ
power zero = 1
power (suc k) = power k * 2

pub power-positive : (k : ℕ) → 0 < power k
power-positive zero = omega arith
power-positive (suc k) = omega (arith, power-positive k)

power-le : (j k : ℕ) → j ≤ k → power j ≤ power k
power-le zero zero h = omega arith
power-le zero (suc k) h = omega (arith, power-positive k)
power-le (suc j) zero h = absurd (omega (arith, h))
power-le (suc j) (suc k) h = omega (arith, power-le j k (omega (arith, h)))

-- From a power of two on, `round_up` finds the first one that is enough.
round_up-power :
    (f k want : ℕ)
    → k + f ≡ 62
    → 0 < want
    → want ≤ power 62
    → power k < want + want
    → (j : ℕ) × (round_up (suc f) want (power k) ≡ some (power j))
      × (want ≤ power j)
      × (power j < want + want)
      × (j ≤ 62)
unfolding round_up
round_up-power zero k want e pos le room =
    let last : k ≡ 62 = omega (arith, e) in
    let top : power k ≡ power 62 = ap power last in
    let enough : less (power k) want ≡ false = ground (arith, top) in
    (k, rw enough refl, omega (arith, top, le), room, omega (arith, e))
round_up-power (suc f) k want e pos le room = elim (Bool-cases (less (power k) want)) [
  | inl short ↦
      let small : power k < want = ground (arith, room) in
      let doubled : power k * 2 % 2 ^ 64 ≡ power (suc k) = ground (arith, small, le) in
      let r = round_up-power f (suc k) want (omega (arith, e)) pos le (omega (arith, small)) in
      (
        r.0,
        rw short (subst (λ s. round_up (suc f) want s ≡ some (power r.0)) (sym doubled) r.1),
        r.2,
        r.3,
        r.4,
      )
  | inr enough ↦ (k, rw enough refl, ground (arith, room), room, omega (arith, e))
]

-- `shrink` stops at the greatest power of two below the given one that does not exceed the size.
shrink-power :
    (f k size : ℕ)
    → k ≤ f
    → 0 < size
    → (j : ℕ) × (shrink (suc f) size (power k) ≡ some (power j))
      × (power j ≤ size)
      × (j ≤ k)
      × ((j ≡ k) ⊎ (size < power (suc j)))
unfolding shrink
shrink-power f zero size le pos = (0, ground arith, omega (arith, pos), omega arith, inl refl)
shrink-power zero (suc k) size le pos = absurd (omega (arith, le))
shrink-power (suc f) (suc k) size le pos =
    let half : power (suc k) / 2 ≡ power k = omega arith in
    elim (Bool-cases (ltb size (power (suc k)))) [
      | inl over ↦
          let two : ltb 1 (power (suc k)) ≡ true = ground (arith, power-positive k) in
          let r = shrink-power f k size (omega (arith, le)) pos in
          (
            r.0,
            rw (over, two, half) r.1,
            r.2,
            omega (arith, r.3),
            inr (elim r.4 [ inl e ↦ ground (arith, ap power e) | inr h ↦ h ]),
          )
      | inr fits ↦ (suc k, rw fits refl, ground (arith, fits), omega arith, inl refl)
    ]

wanted-auto : (procs : ℕ) → wanted 0 procs ≡ max 1 (min procs 32)
unfolding wanted
wanted-auto procs = ground arith

wanted-suc : (e procs : ℕ) → wanted (suc e) procs ≡ suc e
unfolding wanted
wanted-suc e procs = refl

resize-power :
    (want size : ℕ)
    → 0 < want
    → want ≤ 2 ^ 62
    → 0 < size
    → (j : ℕ) × (resize 63 want size ≡ some (power j))
      × (power j ≤ size)
      × (power j < want + want)
      × ((want ≤ power j) ⊎ (size < power (suc j)))
unfolding resize
resize-power want size pos le room =
    let (k, up, enough, close, small) =
      round_up-power 62 0 want refl pos (omega (arith, le)) (omega (arith, pos)) in
    let (j, down, below, first, most) = shrink-power 62 k size small room in
    (
      j,
      ap (shrink_to 63 size) up ∙ down,
      below,
      omega (arith, close, power-le j k first),
      elim most [ inl same ↦ inl (omega (arith, enough, ap power same)) | inr over ↦ inr over ],
    )

-- For an explicit number of shards up to 2 ^ 62, or none, and a queue of at least one task, 63
-- rounds of each loop are enough. The number of shards is a power of two, at most the size, less
-- than twice the number aimed at, and as great as that allows. That number is the explicit one, and
-- without one it is 1 for a size below 1024 and else GOMAXPROCS, but at least 1 and at most 32.
pub resolve-power :
    (explicit procs size : ℕ)
    → explicit ≤ 2 ^ 62
    → 0 < size
    → let automatic = if ltb size 1024 then 1 else max 1 (min procs 32) in
      let aim = if ltb 0 explicit then explicit else automatic in
      (j : ℕ) × (resolve_task_queue_shards 63 explicit procs size ≡ some (power j))
      × (power j ≤ size)
      × (power j < 2 * aim)
      × ((aim ≤ power j) ⊎ (size < power (suc j)))
unfolding resolve_task_queue_shards
resolve-power zero procs size le room = elim (Bool-cases (ltb size min_shardable_queue_size)) [
  | inl small ↦ rw small (0, refl, omega (arith, room), omega arith, inl (omega arith))
  | inr large ↦
      let w = wanted-auto procs in
      let r = resize-power (wanted 0 procs) size (omega (arith, w)) (omega (arith, w)) room in
      rw (large, ← w) (r.0, r.1, r.2, omega (arith, r.3), r.4)
]
resolve-power (suc e) procs size le room =
    let some_ : ltb 0 (suc e) ≡ true = ground arith in
    let r = resize-power (suc e) size (omega arith) le room in
    rw some_ (
      r.0,
      ap (λ want. resize 63 want size) (wanted-suc e procs) ∙ r.1,
      r.2,
      omega (arith, r.3),
      r.4,
    )

round_up-zero : (fuel want : ℕ) → 0 < want → round_up fuel want 0 ≡ none
unfolding round_up
round_up-zero zero want pos = refl
round_up-zero (suc f) want pos =
    let short : less 0 want ≡ true = ground arith in rw short (round_up-zero f want pos)

less-power :
    (k want : ℕ)
    → k ≤ 63
    → 2 ^ 62 < want
    → (less (power k % 2 ^ 64) want ≡ true) × (power k ≤ 2 ^ 63)
less-power k want le low = elim (Bool-cases (ltb k 63)) [
  | inl below ↦ let p = power-le k 62 (ground arith) in (ground (arith, p), omega (arith, p))
  | inr top ↦
      let last : k ≡ 63 = ground arith in
      let p : power k ≡ 2 ^ 63 = ap power last in (ground (arith, p), omega (arith, p))
]

round_up-stuck :
    (f k d want : ℕ) → k + d ≡ 64 → 2 ^ 62 < want → round_up f want (power k % 2 ^ 64) ≡ none
unfolding round_up
round_up-stuck zero k d want e low = refl
round_up-stuck (suc f) k zero want e low =
    let last : k ≡ 64 = omega (arith, e) in
    let p : power k ≡ 2 ^ 64 = ap power last in
    let wrapped : power k % 2 ^ 64 ≡ 0 = omega (arith, p) in
    ap (round_up (suc f) want) wrapped ∙ round_up-zero (suc f) want (omega (arith, low))
round_up-stuck (suc f) k (suc d) want e low =
    let p = less-power k want (omega (arith, e)) low in
    let doubled : power k % 2 ^ 64 * 2 % 2 ^ 64 ≡ power (suc k) % 2 ^ 64 = omega (arith, p.1) in
    rw p.0 (ap (round_up f want) doubled ∙ round_up-stuck f (suc k) d want (omega (arith, e)) low)

-- An explicit number of shards above 2 ^ 62 makes the doubling wrap around to 0, and the first loop
-- does not end, however many rounds it is given.
pub resolve-none :
    (fuel explicit procs size : ℕ)
    → 2 ^ 62 < explicit
    → resolve_task_queue_shards fuel explicit procs size ≡ none
unfolding resolve_task_queue_shards
resolve-none fuel zero procs size low = absurd (omega (arith, low))
resolve-none fuel (suc e) procs size low =
    ap (shrink_to fuel size)
      (ap (λ w. round_up fuel w 1) (wanted-suc e procs) ∙ round_up-stuck fuel 0 64 (suc e) refl low)
