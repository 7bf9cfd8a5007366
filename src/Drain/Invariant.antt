-- ===== src/Drain/Invariant.antt =====
-- What holds between the goroutines in `addPending`, `done` and `Wait`.
use agile_pool.Prelude.{
  ℕ, ◌+◌, ◌≤◌, ◌<◌, ◌≡◌, refl, ◌≢◌, ◌⊎◌, inl, inr, Bool, true, false, Option, none, some, arith,
  sym, subst, if◌then◌else◌, ◌==◌, Bool-cases,
}
use agile_pool.Prelude.Update.{update}
use agile_pool.Prelude.Threads.{total, total-update, weight-le-total, total-zero}
use agile_pool.Drain.{
  Shared, Pc, idle, owing, done_lock, done_check, done_close, done_unlock, wait_check, wait_leave,
  wait_publish, wait_unlock, wait_receive, woken, Move, add_pending, finish, finish_last, lock_done,
  signal, skip, close, lock_wait, nothing_pending, busy, make_channel, join_channel, unlock_wait,
  receive, System, run, init, Reach, start, next,
}

-- Tasks that a goroutine has registered and not reported done.
abbrev pub owes : Pc → ℕ
owes owing = 1
owes _ = 0

-- It has taken `pendingTasks` to 0 and has not looked at the channel yet.
abbrev pub signals : Pc → ℕ
signals done_lock = 1
signals done_check = 1
signals done_close = 1
signals _ = 0

-- It holds `drainMu`.
abbrev pub inside : Pc → Bool
inside done_check = true
inside done_close = true
inside done_unlock = true
inside wait_check = true
inside wait_leave = true
inside (wait_publish _) = true
inside (wait_unlock _ _) = true
inside _ = false

-- The channel that a waiter has taken, and its `z`.
abbrev pub awaits : Pc → Option (ℕ × ℕ)
awaits (wait_unlock c z) = some (c, z)
awaits (wait_receive c z) = some (c, z)
awaits _ = none

-- What a goroutine knows of the shared memory; `k` is the number of goroutines about to signal.
abbrev pub Knows : Shared → ℕ → Pc → Type 0
Knows m k done_close = m.drain_ch ≢ none
Knows m k (wait_publish z) = (z ≤ m.zeros) × (m.pending ≡ 0 → z < m.zeros) × (m.pending ≡ 0 → 0 < k)
Knows m k (wait_unlock c z) =
    (c < m.channels)
    × (z ≤ m.zeros)
    × (m.pending ≡ 0 → z < m.zeros)
    × ((m.is_closed c ≡ false → m.drain_ch ≡ some c))
    × (m.is_closed c ≡ true → z < m.zeros)
Knows m k (wait_receive c z) =
    (c < m.channels)
    × (z ≤ m.zeros)
    × (m.pending ≡ 0 → z < m.zeros)
    × ((m.is_closed c ≡ false → m.drain_ch ≡ some c))
    × (m.is_closed c ≡ true → z < m.zeros)
Knows m k (woken z) = z < m.zeros
Knows m k _ = Unit

pub record Inv (n : ℕ) (m : Shared) (pc : ℕ → Pc) : Type 0 where
  pub counted : m.pending ≡ total owes n pc
  pub held : (i : ℕ) → inside (pc i) ≡ true → m.locked ≡ true
  pub unique : (i j : ℕ) → inside (pc i) ≡ true → inside (pc j) ≡ true → i ≡ j
  pub unmade : (c : ℕ) → m.channels ≤ c → m.is_closed c ≡ false
  pub current : (c : ℕ) → m.drain_ch ≡ some c → (c < m.channels) × (m.is_closed c ≡ false)
  pub signalled : (c : ℕ) → m.drain_ch ≡ some c → m.pending ≡ 0 → 0 < total signals n pc
  pub knows : (i : ℕ) → Knows m (total signals n pc) (pc i)
  pub closing : (i j c z : ℕ) → pc i ≡ done_close → awaits (pc j) ≡ some (c, z) → z < m.zeros

module _ {n : ℕ} {m : Shared} {pc : ℕ → Pc} (inv : Inv n m pc) (i : ℕ) where
  open inv use {counted, held, unique, unmade, current, signalled, knows, closing}

  -- Goroutine `i` goes from `p` to `p'`.
  record Mover (p p' : Pc) : Type 0 where
    here : pc i ≡ p
    own : Knows m (total signals n pc) p
    owed : owes p + total owes n (update pc i p') ≡ owes p' + total owes n pc
    signallers : signals p + total signals n (update pc i p') ≡ signals p' + total signals n pc
    present : (owes p ≤ total owes n pc) × (signals p ≤ total signals n pc)

  mover : i < n → (p' : Pc) → Mover (pc i) p'
  mover lt p' = record {
    here = refl;
    own = knows i;
    owed = total-update owes n i pc p' lt;
    signallers = total-update signals n i pc p' lt;
    present = (weight-le-total owes n i pc lt, weight-le-total signals n i pc lt);
  }

  abbrev Guard : {m m' : Shared} {p p' : Pc} → Move m p m' p' → Type 0
  Guard {m} (finish _) = m.pending ≢ 1
  Guard {m} (finish_last _) = m.pending ≡ 1
  Guard {m} (lock_done _) = m.locked ≡ false
  Guard {m} (signal {c} _ _) = (m.pending ≡ 0) × (m.drain_ch ≡ some c)
  Guard {m} (skip _) = (m.pending ≢ 0) ⊎ (m.drain_ch ≡ none)
  Guard {m} (close {c} _) = m.drain_ch ≡ some c
  Guard {m} (lock_wait _) = m.locked ≡ false
  Guard {m} (nothing_pending _) = m.pending ≡ 0
  Guard {m} (busy _) = m.pending ≢ 0
  Guard {m} (make_channel _) = m.drain_ch ≡ none
  Guard {m} (join_channel {c} _) = m.drain_ch ≡ some c
  Guard {m} (receive {c} _) = m.is_closed c ≡ true
  Guard _ = Unit

  -- The premises of a move, for the catch-all clauses below.
  guard : {m m' : Shared} {p p' : Pc} (mv : Move m p m' p') → Guard mv
  guard (finish g) = g
  guard (finish_last g) = g
  guard (lock_done g) = g
  guard (signal g h) = (g, h)
  guard (skip g) = g
  guard (close g) = g
  guard (lock_wait g) = g
  guard (nothing_pending g) = g
  guard (busy g) = g
  guard (make_channel g) = g
  guard (join_channel g) = g
  guard (receive g) = g
  guard _ = tt

  Move-counted :
      {p p' : Pc} {m' : Shared}
      → Move m p m' p'
      → Mover p p'
      → m'.pending ≡ total owes n (update pc i p')
  Move-counted add_pending f = omega arith
  Move-counted mv f = ground (arith, guard mv)

  Move-held :
      {p p' : Pc} {m' : Shared}
      → Move m p m' p'
      → pc i ≡ p
      → (j : ℕ) → inside (update pc i p' j) ≡ true
      → m'.locked ≡ true
  Move-held add_pending e j h = ground (arith, held j)
  Move-held mv e j h = ground (arith, guard mv, held j, held i, unique i j)

  Move-unique :
      {p p' : Pc} {m' : Shared}
      → Move m p m' p'
      → pc i ≡ p
      → (a b : ℕ) → inside (update pc i p' a) ≡ true
      → inside (update pc i p' b) ≡ true
      → a ≡ b
  Move-unique add_pending e a b ha hb = ground (arith, unique a b)
  Move-unique mv e a b ha hb =
      ground (arith, guard mv, held a, held b, unique a b, unique i a, unique i b)

  Move-channels :
      {p p' : Pc} {m' : Shared}
      → Move m p m' p'
      → (c : ℕ)
      → (m'.channels ≤ c → m'.is_closed c ≡ false)
        × (m'.drain_ch ≡ some c → (c < m'.channels) × (m'.is_closed c ≡ false))
  Move-channels add_pending c = (unmade c, current c)
  Move-channels (close {c = d} g) c = (λ h. ground (arith, unmade c, current d g), λ h. cc)
  Move-channels (make_channel g) c = (λ h. unmade c (omega arith), λ h. ground (arith, unmade c))
  Move-channels mv c = (unmade c, current c)

  Move-signalled :
      {p p' : Pc} {m' : Shared}
      → Move m p m' p'
      → Mover p p'
      → (c : ℕ) → m'.drain_ch ≡ some c
      → m'.pending ≡ 0
      → 0 < total signals n (update pc i p')
  Move-signalled add_pending f c h z = omega arith
  Move-signalled mv f c h z = ground (arith, guard mv, signalled c)

  -- What the mover knows after its move.
  Move-own :
      {p p' : Pc} {m' : Shared}
      → Move m p m' p'
      → Mover p p'
      → Knows m' (total signals n (update pc i p')) p'
  Move-own (signal g h) f = ground arith
  Move-own (busy g) f = ground arith
  Move-own (make_channel {z} g) f = ground (arith, unmade m.channels)
  Move-own (join_channel {c} g) f = ground (arith, current c)
  Move-own (unlock_wait) f = f.own
  Move-own (receive g) f = ground arith
  Move-own add_pending f = tt
  Move-own mv f = tt

  -- A move of `i` leaves what another goroutine knows.
  Move-other :
      {p p' : Pc} {m' : Shared}
      → Move m p m' p'
      → Mover p p'
      → (j : ℕ) (q : Pc) → pc j ≡ q
      → i ≢ j
      → Knows m (total signals n pc) q
      → Knows m' (total signals n (update pc i p')) q
  Move-other add_pending f j done_close e ne k = k
  Move-other mv f j done_close e ne k = ground (arith, guard mv, unique i j)
  Move-other add_pending f j (wait_publish z) e ne k = ground arith
  Move-other mv f j (wait_publish z) e ne k = ground (arith, guard mv, unique i j)
  Move-other add_pending f j (wait_unlock c z) e ne k = ground arith
  Move-other mv f j (wait_unlock c z) e ne k =
      ground (arith, guard mv, unique i j, closing i j c z, unmade c)
  Move-other add_pending f j (wait_receive c z) e ne k = ground arith
  Move-other mv f j (wait_receive c z) e ne k = ground (arith, guard mv, closing i j c z, unmade c)
  Move-other add_pending f j (woken z) e ne k = k
  Move-other mv f j (woken z) e ne k = ground (arith, guard mv)
  Move-other mv f j idle e ne k = tt
  Move-other mv f j q e ne k = tt

  Move-Knows :
      {p p' : Pc} {m' : Shared}
      → Move m p m' p'
      → Mover p p'
      → (j : ℕ) → Knows m' (total signals n (update pc i p')) (update pc i p' j)
  Move-Knows {p' = p'} {m' = m'} mv f j = elim (Bool-cases (i == j)) [
    | inl same ↦
        subst (λ b. Knows m' (total signals n (update pc i p')) (if b then p' else pc j)) (sym same)
          (Move-own mv f)
    | inr other ↦
        subst (λ b. Knows m' (total signals n (update pc i p')) (if b then p' else pc j))
          (sym other) (Move-other mv f j (pc j) refl (ground arith) (knows j))
  ]

  Move-closing :
      {p p' : Pc} {m' : Shared}
      → Move m p m' p'
      → pc i ≡ p
      → (a b c z : ℕ) → update pc i p' a ≡ done_close
      → awaits (update pc i p' b) ≡ some (c, z)
      → z < m'.zeros
  Move-closing add_pending e a b c z ha hb = ground (arith, closing a b c z)
  Move-closing mv e a b c z ha hb = ground (arith, guard mv, closing a b c z, unique i a, knows b)

  pub Move-Inv : {p' : Pc} {m' : Shared} → i < n → Move m (pc i) m' p' → Inv n m' (update pc i p')
  Move-Inv {p'} lt mv = record {
    counted = Move-counted mv f;
    held = Move-held mv refl;
    unique = Move-unique mv refl;
    unmade = λ c. (Move-channels mv c).0;
    current = λ c. (Move-channels mv c).1;
    signalled = Move-signalled mv f;
    knows = Move-Knows mv f;
    closing = Move-closing mv refl;
  }
    where
      f : Mover (pc i) p'
      f = mover lt p'

init-Inv : (n : ℕ) → Inv n init.shared init.pc
init-Inv n = record {
  counted = sym (total-zero owes n (λ _. idle) (λ _. refl));
  held = λ i h. cc;
  unique = λ i j h. cc;
  unmade = λ c h. refl;
  current = λ c h. cc;
  signalled = λ c h. cc;
  knows = λ i. tt;
  closing = λ i j c z h. cc;
}

-- Every reachable state satisfies the invariant.
pub Reach-Inv : {n : ℕ} {s : System} → Reach n s → Inv n s.shared s.pc
Reach-Inv {n} start = init-Inv n
Reach-Inv (next r (run i lt mv)) = Move-Inv (Reach-Inv r) i lt mv
