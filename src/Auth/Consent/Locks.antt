-- ===== src/Auth/Consent/Locks.antt =====
-- auth/consent.rs and auth/routes.rs: the consent requests in flight, and how they take, hold and
-- give back the lock of their key. A request is dropped where it waits when its caller goes away.
pub mod Guarded
pub mod Exclusion
use super_engine.Prelude.{
  ℕ, ◌≡◌, Bool, true, false, Option, none, some, List, [], ◌∷◌, ◌++◌, ◌==◌, nat_eq, ◌&&◌, count,
  get_elem?, set,
}
use super_engine.Auth.Consent.{ConsentKey, ConsentLocks, lock_for, release, drop_lock}

-- A request waits for its lock, asks the user while it holds it, has given the mutex back, has
-- released the entry of its key, and is gone.
pub data Phase : Type 0 where
  waiting asking asked released gone : Phase

pub record Request : Type 0 where
  pub key : ConsentKey
  pub lock : ℕ
  pub phase : Phase

pub record Flows : Type 0 where
  pub locks : ConsentLocks
  pub requests : List Request

abbrev pub is_asking : Phase → Bool
is_asking asking = true
is_asking _ = false

-- Requests that use the mutex of a lock, or will.
abbrev pub is_live : Phase → Bool
is_live waiting = true
is_live asking = true
is_live asked = true
is_live _ = false

abbrev pub is_here : Phase → Bool
is_here gone = false
is_here _ = true

abbrev pub askers : Flows → ℕ → ℕ
askers f lock = count (λ r. is_asking r.phase && r.lock == lock) f.requests

abbrev pub at_phase : Flows → ℕ → Request → Phase → List Request
at_phase f i r p = set f.requests i (record r { phase = p })

abbrev pub initial : Flows
initial = record { locks = record { locks = []; holders = []; fresh = 0 }; requests = [] }

abbrev pub arrived : Flows → ConsentKey → Flows
arrived f k =
    let (locks, lock) = lock_for f.locks k in
    record {
      locks = locks;
      requests = record { key = k; lock = lock; phase = waiting } ∷ f.requests;
    }

-- One atomic action of one request. The mutex of a lock is free where no request asks under it.
pub data Step : Flows → Flows → Type 0 where
  arrive : {f : Flows} (k : ConsentKey) → Step f (arrived f k)
  acquire :
      {f : Flows} (i : ℕ) (r : Request)
      → get_elem? f.requests i ≡ some r
      → r.phase ≡ waiting
      → askers f r.lock ≡ 0
      → Step f (record f { requests = at_phase f i r asking })
  answer :
      {f : Flows} (i : ℕ) (r : Request)
      → get_elem? f.requests i ≡ some r
      → r.phase ≡ asking
      → Step f (record f { requests = at_phase f i r asked })
  give_back :
      {f : Flows} (i : ℕ) (r : Request)
      → get_elem? f.requests i ≡ some r
      → r.phase ≡ asked
      → Step f (record { locks = release f.locks r.key r.lock; requests = at_phase f i r released })
  leave :
      {f : Flows} (i : ℕ) (r : Request)
      → get_elem? f.requests i ≡ some r
      → is_here r.phase ≡ true
      → Step f (record { locks = drop_lock f.locks r.lock; requests = at_phase f i r gone })

pub data Reach : Flows → Type 0 where
  start : Reach initial
  next : {f g : Flows} → Reach f → Step f g → Reach g
