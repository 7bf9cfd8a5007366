-- ===== src/Pool/Closing.antt =====
-- Close closes the pool's channel once.
use agile_pool.Prelude.{
  ℕ, ◌+◌, ◌≤◌, ◌<◌, ◌≡◌, refl, ap, Bool, true, false, Bool-cases, inl, inr, arith, ◌==◌,
}
use agile_pool.Prelude.Threads.{
  total, total-update, total-spawn, weight-le-total, weight-two, total-zero,
}
use agile_pool.Pool.State.{Settings, Shared, Pc, System, Worker}
use agile_pool.Pool.State.{idle, close_buffer, close_channel, scan}
use agile_pool.Pool.Moves.{
  Move, Spawn, Step, act, go, init, Reach, start, next, submit, close, shut_buffer, shut_channel,
  cold, reuse, fresh,
}

-- A Close that has won the compare-and-swap and is still to close the channel.
abbrev closes : Pc → ℕ
closes close_buffer = 1
closes close_channel = 1
closes p = 0

abbrev bit : Bool → ℕ
bit true = 1
bit false = 0

-- At most one goroutine is on its way to close the channel, and none after it is closed.
abbrev Once : ℕ → System → Type 0
Once n s = total closes n s.pc + bit s.shared.close_pool_cn ≤ bit s.shared.closed

Move-closes :
    (c : Settings) {m m' : Shared} {p p' : Pc}
    → Move c m p m' p'
    → closes p + bit m.close_pool_cn ≤ bit m.closed
    → closes p' + bit m'.close_pool_cn + bit m.closed
      ≤ closes p + bit m.close_pool_cn + bit m'.closed
Move-closes c (submit t) h = omega arith
Move-closes c (close e) h = ground (arith, e)
Move-closes c shut_buffer h = omega arith
Move-closes c {m} shut_channel h = shut m.close_pool_cn m.closed h
  where
    shut : (b d : Bool) → 1 + bit b ≤ bit d → 0 + 1 + bit d ≤ 1 + bit b + bit d
    shut b d h = omega arith
Move-closes c mv h = omega arith

Spawn-closes :
    (c : Settings) {m m' : Shared} {p p' : Pc} {w : Worker}
    → Spawn c m p m' p' w
    → (closes p' ≡ closes p) × (m'.close_pool_cn ≡ m.close_pool_cn) × (m'.closed ≡ m.closed)
Spawn-closes c cold = (refl, refl, refl)
Spawn-closes c (reuse i e) = (refl, refl, refl)
Spawn-closes c (fresh e) = (refl, refl, refl)

Step-Once : {c : Settings} {n : ℕ} {s t : System} → Step c n s t → Once n s → Once n t
Step-Once {c} {n} {s} (act i {m} {p} lt mv) h = omega (
  arith,
  total-update closes n i s.pc p lt,
  Move-closes c mv (omega (arith, h, weight-le-total closes n i s.pc lt)),
)
Step-Once {c} {n} {s} (go i j {m} {p} {w} lt lt' ne e sp) h =
    let (same, cn, closed) = Spawn-closes c sp in
    omega (
      arith,
      total-spawn closes n i j s.pc p (scan w 0) lt lt' ne e,
      same,
      ap bit cn,
      ap bit closed,
    )

no_room : (b d : Bool) → 1 + bit b ≤ bit d → b ≡ false
no_room false d h = refl
no_room true true h = absurd (omega (arith, h))
no_room true false h = absurd (omega (arith, h))

too_many : (d : Bool) → 2 ≤ bit d → ⊥
too_many true h = omega (arith, h)
too_many false h = omega (arith, h)

Reach-Once : {c : Settings} {n : ℕ} {s : System} → Reach c n s → Once n s
Reach-Once {c} {n} start = omega (arith, total-zero closes n (init c).pc (λ i. elsewhere i))
  where
    elsewhere : (i : ℕ) → closes ((init c).pc i) ≡ 0
    elsewhere i = elim (Bool-cases (0 == i)) [ inl e ↦ rw e refl | inr e ↦ rw e refl ]
Reach-Once (next r st) = Step-Once st (Reach-Once r)

-- However many goroutines call Close, the channel closePoolCn is open when one is about to close it,
-- and no other is about to: `close` never panics.
pub closes_once :
    {c : Settings} {n : ℕ} {s : System} (i j : ℕ)
    → Reach c n s
    → i < n
    → j < n
    → s.pc i ≡ close_channel
    → (s.shared.close_pool_cn ≡ false) × (s.pc j ≡ close_channel → i ≡ j)
closes_once {c} {n} {s} i j r lt lt' e =
    let once = Reach-Once r in
    let here : closes (s.pc i) ≡ 1 = ap closes e in
    (
      no_room s.shared.close_pool_cn s.shared.closed
          (omega (arith, once, here, weight-le-total closes n i s.pc lt)),
      λ f. elim (Bool-cases (i == j)) [
        | inl same ↦ ground arith
        | inr other ↦ absurd (
            too_many s.shared.closed (
              omega (
                arith,
                once,
                here,
                ap closes f,
                weight-two closes n i j s.pc idle refl lt lt' (ground (arith, other)),
              )))
      ],
    )
