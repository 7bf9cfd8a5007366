-- ===== src/Pool/Shutdown.antt =====
-- When the scaler stops.
use agile_pool.Prelude.{
  ℕ, ◌+◌, ◌≤◌, ◌<◌, ◌≡◌, refl, ap, ◌∙◌, ◌≢◌, inl, inr, true, arith, sym, subst, ◌==◌, if◌then◌else◌,
  Bool-cases, length,
}
use agile_pool.Prelude.Update.{update}
use agile_pool.Prelude.Threads.{total, total-update, total-spawn, weight-le-total, total_mono}
use agile_pool.Pool.State.{Settings, Worker, Shared, Pc, System}
use agile_pool.Pool.State.{
  idle, load_closed, add_submit, load_running, cas_running, cold_start, pick_shard, select_shard,
  push_buffer, pick_again, blocked, scan, run_task, process, report_done, decide, scaler_pending,
  scaler_stopped,
}
use agile_pool.Pool.Channels.{next_shard, mass, mass-take-drop, mass-send, mass-receive}
use agile_pool.Pool.Overflow.{enqueue-mass}
use agile_pool.Pool.Moves.{
  batch_size, shard_of, Move, Spawn, Step, act, go, init, Reach, start, next, submit, send_now,
  push_accepted, send_late, receive_task, take_batch, see_open, drained, now_closed, cold, reuse,
  fresh,
}
use agile_pool.Pool.Account.{
  held, queued, one, OnShard, shard_of-lt, Account, init-Account, Step-Account,
}

-- Tasks in the hands of a goroutine that are past the check of `closed`.
abbrev pub commits : Pc → ℕ
commits (load_closed t) = 0
commits (add_submit t) = 1
commits (load_running t) = 1
commits (cas_running t) = 1
commits (cold_start t) = 1
commits (pick_shard t) = 1
commits (select_shard t q) = 1
commits (push_buffer t) = 1
commits (pick_again t) = 1
commits (blocked t q) = 1
commits (run_task w t rest) = 1 + mass one rest
commits (process w t rest) = 1 + mass one rest
commits (report_done w rest) = mass one rest
commits _ = 0

commits-le-held : (p : Pc) → commits p ≤ held one p
commits-le-held (load_closed t) = omega arith
commits-le-held idle = omega arith
commits-le-held p = omega arith

abbrev pub Sure : Shared → Pc → Type 0
Sure m scaler_pending = m.closed ≡ true
Sure m scaler_stopped = m.closed ≡ true
Sure m _ = Unit

module _ (c : Settings) {m : Shared} where
  Move-closed : {p p' : Pc} {m' : Shared} → Move c m p m' p' → m.closed ≡ true → m'.closed ≡ true
  Move-closed (submit t) h = h
  Move-closed mv h = ground arith

  Move-Sure : {p p' : Pc} {m' : Shared} → Move c m p m' p' → Sure m p → Sure m' p'
  Move-Sure (submit t) h = tt
  Move-Sure (now_closed g) h = g
  Move-Sure (drained g) h = h
  Move-Sure mv h = tt

  -- In a closed pool no goroutine commits to another task.
  Move-commits :
      {p p' : Pc} {m' : Shared}
      → 0 < c.shard_count
      → length m.channels.queues ≡ c.shard_count
      → Move c m p m' p'
      → OnShard c p
      → m.closed ≡ true
      → commits p' + queued one m' ≤ commits p + queued one m
  unfolding next_shard mass
  Move-commits some_shard shape (submit t) o h = omega arith
  Move-commits some_shard shape (see_open g) o h = ground arith
  Move-commits some_shard shape (send_now {t} {q} g) o h =
      omega (arith, mass-send one m.channels q t)
  Move-commits some_shard shape (push_accepted {t} g) o h =
      omega (arith, enqueue-mass one c m.channels some_shard shape t m.buffer g)
  Move-commits some_shard shape (send_late {t} {q} g) o h =
      omega (arith, mass-send one m.channels q t)
  Move-commits some_shard shape (receive_task {w} {i} {t} {rest} g e) o h = omega (
    arith,
    mass-receive one m.channels (shard_of c w i) t rest
        (omega (arith, shard_of-lt c w i some_shard)) e,
  )
  Move-commits some_shard shape (take_batch {w} {t} {rest} e) o h =
      omega (arith, mass-take-drop one batch_size m.buffer.tasks, ap (mass one) e)
  Move-commits some_shard shape mv o h = omega arith

  Move-stop :
      {p p' : Pc} {m' : Shared}
      → Move c m p m' p'
      → p' ≡ scaler_stopped
      → (m.pending ≡ 0) × (queued one m' ≡ queued one m) × (commits p ≡ commits p')
  Move-stop (submit t) e = cc
  Move-stop (drained g) e = (g, refl, refl)
  Move-stop mv e = cc

  Spawn-commits :
      {p p' : Pc} {m' : Shared} {w : Worker}
      → Spawn c m p m' p' w
      → (commits p ≡ commits p')
        × (queued one m' ≡ queued one m)
        × (m'.closed ≡ m.closed)
        × (p' ≢ scaler_stopped)
        × Sure m' p'
  Spawn-commits cold = (refl, refl, refl, λ e. cc, tt)
  Spawn-commits (reuse i e) = (refl, refl, refl, λ h. cc, tt)
  Spawn-commits (fresh e) = (refl, refl, refl, λ h. cc, tt)

-- Once the scaler has stopped the pool is closed, and no task is queued or on its way to a queue.
pub record Ended (c : Settings) (n : ℕ) (s : System) : Type 0 where
  pub account : Account c n s
  pub sure : (i : ℕ) → Sure s.shared (s.pc i)
  pub empty : (i : ℕ) → s.pc i ≡ scaler_stopped → total commits n s.pc + queued one s.shared ≡ 0

Sure-stable : (m m' : Shared) (q : Pc) → (m.closed ≡ true → m'.closed ≡ true) → Sure m q → Sure m' q
Sure-stable m m' scaler_pending h k = h k
Sure-stable m m' scaler_stopped h k = h k
Sure-stable m m' q h k = tt

Sure-update :
    (m : Shared) (pc : ℕ → Pc) (i : ℕ) (p : Pc)
    → Sure m p
    → ((j : ℕ) → Sure m (pc j))
    → (j : ℕ) → Sure m (update pc i p j)
Sure-update m pc i p h k j = elim (Bool-cases (i == j)) [
  | inl same ↦ subst (λ b. Sure m (if b then p else pc j)) (sym same) h
  | inr other ↦ subst (λ b. Sure m (if b then p else pc j)) (sym other) (k j)
]

pub Sure-stopped : (m : Shared) (q : Pc) → q ≡ scaler_stopped → Sure m q → m.closed ≡ true
Sure-stopped m q e h = subst (Sure m) e h

Step-Ended : {c : Settings} {n : ℕ} {s t : System} → Step c n s t → Ended c n s → Ended c n t
Step-Ended {c} {n} {s} (act i {m} {p} lt mv) e = record {
  account = Step-Account (act i lt mv) a;
  sure =
      Sure-update m s.pc i p (Move-Sure c mv (e.sure i))
        (λ j. Sure-stable s.shared m (s.pc j) (Move-closed c mv) (e.sure j));
  empty = λ j h. elim (Bool-cases (i == j)) [
    | inl same ↦
        let stop =
          Move-stop c mv (subst (λ b. (if b then p else s.pc j) ≡ scaler_stopped) same h) in
        omega (
          arith,
          stop,
          a.counted,
          total_mono commits (held one) n s.pc commits-le-held,
          total-update commits n i s.pc p lt,
        )
    | inr other ↦
        let was = subst (λ b. (if b then p else s.pc j) ≡ scaler_stopped) other h in
        omega (
          arith,
          e.empty j was,
          total-update commits n i s.pc p lt,
          weight-le-total commits n i s.pc lt,
          Move-commits c a.some_shard a.shape mv (a.on_shard i)
              (Sure-stopped s.shared (s.pc j) was (e.sure j)),
        )
  ];
}
  where
    a : Account c n s
    a = e.account
Step-Ended {c} {n} {s} (go i j {m} {p} {w} lt lt' ne idle_j sp) e = record {
  account = Step-Account (go i j lt lt' ne idle_j sp) e.account;
  sure = Sure-update m _ j (scan w 0) tt (
      Sure-update m s.pc i p (Spawn-commits c sp).4
        (λ l. Sure-stable s.shared m (s.pc l) (λ h. (Spawn-commits c sp).2 ∙ h) (e.sure l)));
  empty = λ l h. omega (
    arith,
    e.empty l (was l h),
    Spawn-commits c sp,
    total-spawn commits n i j s.pc p (scan w 0) lt lt' ne idle_j,
  );
}
  where
    moved : p ≢ scaler_stopped
    moved = (Spawn-commits c sp).3

    was :
        (l : ℕ) → update (update s.pc i p) j (scan w 0) l ≡ scaler_stopped → s.pc l ≡ scaler_stopped
    was l h = ground (arith, moved)

pub Reach-Ended :
    {c : Settings} {n : ℕ} {s : System} → 0 < c.shard_count → Reach c n s → Ended c n s
Reach-Ended {c} {n} h start = record {
  account = init-Account c n h;
  sure = Sure-update (init c).shared (λ _. idle) 0 decide tt (λ _. tt);
  empty = λ i e. absurd (ground arith);
}
Reach-Ended h (next r st) = Step-Ended st (Reach-Ended h r)
