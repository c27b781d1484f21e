-- ===== src/LoadGate/Exclusion.antt =====
-- load_gate.rs: the mutex and the loads that run under it.
use super_engine.Prelude.{
  ℕ, ◌+◌, ◌≤◌, ◌≡◌, refl, ◌%◌, some, List, [], ◌∷◌, count, count-set, count-append, get_elem?, set,
  arith, if◌then◌else◌, Option-cases, inl, inr,
}
use super_engine.LoadGate.{
  Phase, waiting, locked, loading, superseded, done, Task, System, Event, arrive, acquire, check,
  finish, u64_mod, step, Reach, start, next,
}
use super_engine.LoadGate.Counting.{is_loading, is_holding, holders, loaders, GateAgrees}

-- What one move of a task does to the number of holders.
module _ (s : System) (i : ℕ) (t : Task) (here : get_elem? s.tasks i ≡ some t) where
  abbrev moved : Phase → ℕ
  moved p = count (λ u. is_holding u.phase) (set s.tasks i (record t { phase = p }))

  holders_moved :
      (p : Phase)
      → moved p + (if is_holding t.phase then 1 else 0)
        ≡ holders s + (if is_holding p then 1 else 0)
  holders_moved p = count-set (λ u. is_holding u.phase) s.tasks i t (record t { phase = p }) here

step-GateAgrees : (e : Event) (s u : System) → step e s ≡ some u → GateAgrees s → GateAgrees u
unfolding step
step-GateAgrees arrive s u h v = ground (
  arith,
  count-append (λ t. is_holding t.phase) s.tasks
      (record { ticket = (s.gate.newest + 1) % u64_mod; phase = waiting } ∷ []),
)
step-GateAgrees (acquire i) s u h v = elim (Option-cases (get_elem? s.tasks i)) [
  | inl e ↦ ground arith
  | inr (t, e) ↦ ground (arith, holders_moved s i t e locked)
]
step-GateAgrees (check i) s u h v = elim (Option-cases (get_elem? s.tasks i)) [
  | inl e ↦ ground arith
  | inr (t, e) ↦ ground (arith, holders_moved s i t e loading, holders_moved s i t e superseded)
]
step-GateAgrees (finish i) s u h v = elim (Option-cases (get_elem? s.tasks i)) [
  | inl e ↦ ground arith
  | inr (t, e) ↦ ground (arith, holders_moved s i t e done)
]

Reach-GateAgrees : {s : System} → Reach s → GateAgrees s
Reach-GateAgrees start = refl
Reach-GateAgrees (next {s} {u} e r h) = step-GateAgrees e s u h (Reach-GateAgrees r)

loading-le-holding :
    (ts : List Task) → count (λ t. is_loading t.phase) ts ≤ count (λ t. is_holding t.phase) ts
loading-le-holding [] = omega arith
loading-le-holding (t ∷ ts) = ground (arith, loading-le-holding ts)

-- In every state that any interleaving of requests can reach, the mutex is held by exactly one task
-- or is free and held by none, and the tasks that load are among its holders. So at most one load
-- runs at a time.
pub Reach-one_load :
    (s : System) → Reach s → (loaders s ≤ holders s) × (holders s ≡ (if s.gate.gate then 1 else 0))
Reach-one_load s r = (loading-le-holding s.tasks, Reach-GateAgrees r)
