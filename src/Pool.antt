-- ===== src/Pool.antt =====
-- pool.go and worker.go: submission, the workers, the scaler's spawning and `Close`, interleaved at
-- every access of shared memory. The overflow buffer is taken at its specification; a section
-- under a mutex is one step. Floats, time and hooks do not show here: how many workers the scaler
-- wants, when a context ends and what `process` does are left open.
pub mod State
pub mod Channels
pub mod Spread
pub mod Moves
pub mod Overflow
pub mod Account
pub mod Workers
pub mod Capacity
pub mod Shutdown
pub mod Safety
pub mod Getters
pub mod Drift
pub mod Watching
pub mod Occupancy
pub mod Closing
mod Tests
