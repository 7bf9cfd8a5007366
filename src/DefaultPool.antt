-- ===== src/DefaultPool.antt =====
-- pool.go: the pointer defaultPool, which NewPool stores, Close clears and GetDefaultPool reads. Pools
-- are numbered in the order in which NewPool stores them.
pub mod Safety
mod Tests
use agile_pool.Prelude.{ℕ, suc, ◌<◌, ◌≡◌, ◌≢◌, Bool, true, false, Option, none, some}
use agile_pool.Prelude.Update.{update}

pub record Shared : Type 0 where
  pub default_pool : Option ℕ
  pub closed : ℕ → Bool
  pub next_pool : ℕ

pub data Pc : Type 0 where
  idle : Pc
  clearing : ℕ → Pc  -- Close, after its compare-and-swap of `closed`
  loaded : Option ℕ → Pc  -- GetDefaultPool, before it looks at `closed`
  returned : Option ℕ → Pc

pub data Move (m : Shared) : Pc → Shared → Pc → Type 0 where
  publish :
      Move m idle (record m { default_pool = some m.next_pool; next_pool = suc m.next_pool }) idle
  close_first :
      {k : ℕ}
      → k < m.next_pool
      → m.closed k ≡ false
      → Move m idle (record m { closed = update m.closed k true }) (clearing k)
  close_again : {k : ℕ} → k < m.next_pool → m.closed k ≡ true → Move m idle m idle
  swap_nil :
      {k : ℕ}
      → m.default_pool ≡ some k
      → Move m (clearing k) (record m { default_pool = none }) idle
  swap_fails : {k : ℕ} → m.default_pool ≢ some k → Move m (clearing k) m idle
  load : Move m idle m (loaded m.default_pool)
  see_nil : Move m (loaded none) m (returned none)
  see_closed : {k : ℕ} → m.closed k ≡ true → Move m (loaded (some k)) m (returned none)
  see_open : {k : ℕ} → m.closed k ≡ false → Move m (loaded (some k)) m (returned (some k))
  leave : {o : Option ℕ} → Move m (returned o) m idle

pub record System : Type 0 where
  pub shared : Shared
  pub pc : ℕ → Pc

-- Goroutines are numbered below `n`.
pub data Step (n : ℕ) (s : System) : System → Type 0 where
  act :
      (i : ℕ) {m : Shared} {p : Pc}
      → i < n
      → Move s.shared (s.pc i) m p
      → Step n s (record { shared = m; pc = update s.pc i p })

abbrev pub init : System
init = record {
  shared = record { default_pool = none; closed = λ _. false; next_pool = 0 };
  pc = λ _. idle;
}

pub data Reach (n : ℕ) : System → Type 0 where
  start : Reach n init
  next : {s t : System} → Reach n s → Step n s t → Reach n t
