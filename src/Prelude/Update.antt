-- ===== src/Prelude/Update.antt =====
-- Families `ℕ → A`: a write at one index.
use agile_pool.Prelude.{ℕ, ◌==◌, if◌then◌else◌}

abbrev pub update {ℓ} : {A : Type ℓ} → (ℕ → A) → ℕ → A → ℕ → A
update f i a j = if i == j then a else f j
