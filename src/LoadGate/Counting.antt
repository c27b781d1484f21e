-- ===== src/LoadGate/Counting.antt =====
-- Who holds the mutex: the tasks between `lock` and the drop of the guard.
use super_engine.Prelude.{ℕ, ◌≡◌, Bool, true, false, count, if◌then◌else◌}
use super_engine.LoadGate.{Phase, locked, loading, System}

abbrev pub is_loading : Phase → Bool
is_loading loading = true
is_loading _ = false

abbrev pub is_holding : Phase → Bool
is_holding locked = true
is_holding loading = true
is_holding _ = false

abbrev pub holders : System → ℕ
holders s = count (λ t. is_holding t.phase) s.tasks

abbrev pub loaders : System → ℕ
loaders s = count (λ t. is_loading t.phase) s.tasks

-- The mutex is held by exactly one task, or free and held by none.
abbrev pub GateAgrees : System → Type 0
GateAgrees s = holders s ≡ (if s.gate.gate then 1 else 0)
