-- ===== src/Drain.antt =====
-- pool.go: `addPending`, `done` and `Wait`. Goroutines interleave at every access of shared
-- memory; the atomics are sequentially consistent, and `drainMu` is a lock that is taken and given
-- back in steps of their own.
pub mod Invariant
pub mod Safety
mod Tests
use agile_pool.Prelude.{ℕ, suc, ◌-◌, ◌<◌, ◌≡◌, ◌≢◌, ◌⊎◌, Bool, true, false, Option, none, some}
use agile_pool.Prelude.Update.{update}

-- `drain_ch` is the channel of the current generation, by its number; `channels` have been made.
-- `zeros` counts the times that `pendingTasks` has fallen to 0: only the statements read it.
pub record Shared : Type 0 where
  pub pending : ℕ
  pub locked : Bool
  pub drain_ch : Option ℕ
  pub channels : ℕ
  pub is_closed : ℕ → Bool
  pub zeros : ℕ

-- Where a goroutine stands. `z` is the value of `zeros` when `Wait` read `pendingTasks`.
pub data Pc : Type 0 where
  idle : Pc
  owing : Pc  -- between `addPending` and `done`
  done_lock : Pc  -- has taken `pendingTasks` to 0
  done_check : Pc
  done_close : Pc
  done_unlock : Pc
  wait_lock : Pc  -- start of `Wait`
  wait_check : Pc
  wait_leave : Pc
  wait_publish : (z : ℕ) → Pc
  wait_unlock : (c z : ℕ) → Pc
  wait_receive : (c z : ℕ) → Pc  -- at `<-ch`
  woken : (z : ℕ) → Pc  -- past `<-ch`
  left : Pc  -- returned at once

pub data Move (m : Shared) : Pc → Shared → Pc → Type 0 where
  add_pending : Move m idle (record m { pending = suc m.pending }) owing
  finish : m.pending ≢ 1 → Move m owing (record m { pending = m.pending - 1 }) idle
  finish_last :
      m.pending ≡ 1
      → Move m owing (record m { pending = m.pending - 1; zeros = suc m.zeros }) done_lock
  lock_done : m.locked ≡ false → Move m done_lock (record m { locked = true }) done_check
  signal : {c : ℕ} → m.pending ≡ 0 → m.drain_ch ≡ some c → Move m done_check m done_close
  skip : (m.pending ≢ 0) ⊎ (m.drain_ch ≡ none) → Move m done_check m done_unlock
  close :
      {c : ℕ}
      → m.drain_ch ≡ some c
      → Move m done_close
          (record m { drain_ch = none; is_closed = update m.is_closed c true })
          done_unlock
  unlock_done : Move m done_unlock (record m { locked = false }) idle
  call_wait : Move m idle m wait_lock
  lock_wait : m.locked ≡ false → Move m wait_lock (record m { locked = true }) wait_check
  nothing_pending : m.pending ≡ 0 → Move m wait_check m wait_leave
  leave : Move m wait_leave (record m { locked = false }) left
  busy : m.pending ≢ 0 → Move m wait_check m (wait_publish m.zeros)
  make_channel :
      {z : ℕ}
      → m.drain_ch ≡ none
      → Move m
          (wait_publish z)
          (record m { drain_ch = some m.channels; channels = suc m.channels })
          (wait_unlock m.channels z)
  join_channel : {c z : ℕ} → m.drain_ch ≡ some c → Move m (wait_publish z) m (wait_unlock c z)
  unlock_wait :
      {c z : ℕ} → Move m (wait_unlock c z) (record m { locked = false }) (wait_receive c z)
  receive : {c z : ℕ} → m.is_closed c ≡ true → Move m (wait_receive c z) m (woken z)

pub record System : Type 0 where
  pub shared : Shared
  pub pc : ℕ → Pc

-- Goroutines are numbered below `n`; those that have not begun are idle.
pub data Step (n : ℕ) (s : System) : System → Type 0 where
  run :
      (i : ℕ) {m : Shared} {p : Pc}
      → i < n
      → Move s.shared (s.pc i) m p
      → Step n s (record { shared = m; pc = update s.pc i p })

abbrev pub init : System
init = record {
  shared = record {
    pending = 0;
    locked = false;
    drain_ch = none;
    channels = 0;
    is_closed = λ _. false;
    zeros = 0;
  };
  pc = λ _. idle;
}

pub data Reach (n : ℕ) : System → Type 0 where
  start : Reach n init
  next : {s t : System} → Reach n s → Step n s t → Reach n t
