-- ===== src/Idle.antt =====
-- internal/idle/idle.go: what an idle container does, and what it promises. Times are nanoseconds
-- since a fixed instant, and a nil element is none.
pub mod Queue
pub mod Sorted
pub mod Compact
pub mod Survivors
pub mod Slice
pub mod RingQueue
pub mod Treap
pub mod MinHeap
pub mod LinkedList
pub mod Replies
mod Tests
use agile_pool.Prelude.{ℕ, ◌+◌, Bool, Option, List, leb, not, length, keep}

pub record IdleContainer {ℓ} (A : Type ℓ) : Type (ℓ + 1) where
  pub State : Type ℓ
  pub new : State
  pub add : A → State → State
  pub pop : State → Option A × State
  pub remove_expired : (now expiry : ℕ) → State → ℕ × State
  pub len : State → ℕ

-- An element stays while `DatedTime + expiry` is after `now`.
abbrev pub stays {ℓ} : {A : Type ℓ} → (A → ℕ) → (now expiry : ℕ) → A → Bool
stays date now expiry a = not (leb (date a + expiry) now)
