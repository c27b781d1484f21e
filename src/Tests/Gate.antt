-- ===== src/Tests/Gate.antt =====
-- Two load requests: the second arrives while the first waits.
use super_engine.Prelude.{◌≤◌, ◌≡◌, refl, true, false, some, [], ◌∷◌, arith}
use super_engine.LoadGate.{
  waiting, locked, superseded, System, arrive, acquire, check, step, Reach, start, next,
}
use super_engine.LoadGate.Counting.{loaders, holders}
use super_engine.LoadGate.Exclusion.{Reach-one_load}
use super_engine.LoadGate.Newest.{check-loads_iff_newest}

abbrev two_waiting : System
two_waiting = record {
  gate = record { gate = false; newest = 2 };
  tasks = record { ticket = 1; phase = waiting } ∷ record { ticket = 2; phase = waiting } ∷ [];
}

abbrev one_locked : System
one_locked = record {
  gate = record { gate = true; newest = 2 };
  tasks = record { ticket = 1; phase = locked } ∷ record { ticket = 2; phase = waiting } ∷ [];
}

Reach-two_waiting : Reach two_waiting
unfolding step
Reach-two_waiting = next arrive (next arrive start refl) refl

Reach-one_locked : Reach one_locked
unfolding step
Reach-one_locked = next (acquire 0) Reach-two_waiting refl

Reach-one_load_example : (loaders one_locked ≤ holders one_locked) × (holders one_locked ≡ 1)
Reach-one_load_example = Reach-one_load one_locked Reach-one_locked

check-loads_iff_newest_example :
    step (check 0) one_locked
    ≡ some (record {
      gate = record { gate = false; newest = 2 };
      tasks =
          record { ticket = 1; phase = superseded } ∷ record { ticket = 2; phase = waiting } ∷ [];
    })
check-loads_iff_newest_example =
    check-loads_iff_newest one_locked 0 (record { ticket = 1; phase = locked }) Reach-one_locked
      (omega arith) refl refl
