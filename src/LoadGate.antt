-- ===== src/LoadGate.antt =====
-- super-engine-daemon/src/load_gate.rs: the ticket, the gate, and the requests that use them.
-- A request is a task that takes its ticket, waits for the mutex, reads `newest` under it, and
-- keeps the guard for the whole load. Each atomic action of a task is an event; any interleaving
-- is a sequence of events.
pub mod Counting
pub mod Exclusion
pub mod Newest
use super_engine.Prelude.{
  ℕ, ◌+◌, ◌%◌, ◌^◌, ◌≡◌, Bool, true, false, Option, none, some, List, [], ◌∷◌, ◌++◌, get_elem?, set,
  ◌==◌, nat_eq, if◌then◌else◌,
}

-- `gate` is true while the mutex is held.
pub record LoadGate : Type 0 where
  pub gate : Bool
  pub newest : ℕ

abbrev pub u64_mod : ℕ
u64_mod = 2 ^ 64

-- `fetch_add` wraps and returns the old value; `wrapping_add` gives the new one.
unfoldable pub ticket : LoadGate → LoadGate × ℕ
ticket g = (record g { newest = (g.newest + 1) % u64_mod }, (g.newest + 1) % u64_mod)

-- `self.gate.lock().await`: only a free mutex is handed out.
unfoldable pub lock : LoadGate → Option LoadGate
lock g = if g.gate then none else some (record g { gate = true })

unfoldable pub unlock : LoadGate → LoadGate
unlock g = record g { gate = false }

-- The rest of `enter`, with the guard in hand: `true` is `Some(guard)`, and on `None` the guard is
-- dropped, which frees the mutex.
unfoldable pub enter_locked : LoadGate → ℕ → LoadGate × Bool
unfolding unlock
enter_locked g t = if g.newest == t then (g, true) else (unlock g, false)

pub data Phase : Type 0 where
  waiting locked loading superseded done : Phase

pub record Task : Type 0 where
  pub ticket : ℕ
  pub phase : Phase

pub record System : Type 0 where
  pub gate : LoadGate
  pub tasks : List Task

abbrev pub init : System
init = record { gate = record { gate = false; newest = 0 }; tasks = [] }

pub data Event : Type 0 where
  arrive : Event
  acquire check finish : ℕ → Event

abbrev move : System → ℕ → Task → LoadGate → Phase → System
move s i t g p = record { gate = g; tasks = set s.tasks i (record t { phase = p }) }

acquire_task : System → ℕ → Task → Phase → Option System
unfolding lock
acquire_task s i t waiting = elim (lock s.gate) [
  | none ↦ none
  | some g ↦ some (move s i t g locked)
]
acquire_task s i t _ = none

check_task : System → ℕ → Task → Phase → Option System
unfolding enter_locked
check_task s i t locked =
    let (g, entered) = enter_locked s.gate t.ticket in
    some (move s i t g (if entered then loading else superseded))
check_task s i t _ = none

-- The caller's scope ends, by return or by cancellation, and the guard is dropped.
finish_task : System → ℕ → Task → Phase → Option System
unfolding unlock
finish_task s i t loading = some (move s i t (unlock s.gate) done)
finish_task s i t _ = none

abbrev at_task : System → ℕ → (Task → Option System) → Option System
at_task s i k = elim (get_elem? s.tasks i) [ none ↦ none | some t ↦ k t ]

-- `none` means that the event cannot happen in this state.
unfoldable pub step : Event → System → Option System
unfolding acquire_task check_task finish_task ticket
step arrive s =
    let (g, t) = ticket s.gate in
    some (record { gate = g; tasks = s.tasks ++ record { ticket = t; phase = waiting } ∷ [] })
step (acquire i) s = at_task s i (λ t. acquire_task s i t t.phase)
step (check i) s = at_task s i (λ t. check_task s i t t.phase)
step (finish i) s = at_task s i (λ t. finish_task s i t t.phase)

pub data Reach : System → Type 0 where
  start : Reach init
  next : {s u : System} (e : Event) → Reach s → step e s ≡ some u → Reach u
