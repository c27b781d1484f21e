-- ===== src/Auth/Tokens/Persisted.antt =====
-- auth/tokens.rs: the secrets file and the map in memory, when requests and the persist task interleave.
pub mod Steps
use super_engine.Prelude.{
  ℕ, ◌+◌, ◌≡◌, refl, sym, Bool, true, false, Option, none, some, List, [], ◌∷◌, ◌++◌, length,
  is_empty, ltb, bytes_eq, if◌then◌else◌, Text, lookup, insert, remove, retain, length-retain-le,
  arith, Option-cases, Bool-cases, inl, inr, ◌⊎◌, is_some, subst,
}
use super_engine.Auth.Peer.{PeerIdentity}
use super_engine.Auth.Tokens.{
  TokenMeta, Sessions, PersistMsg, wake, flush, TokenStore, submit, load_persisted, mint, validate,
  revoke, request_flush, drain, take, write, Action, minting, validating, revoking, flushing,
  draining, taking, writing_file, act, session_length, Phase, receiving, drained, writing, Reach,
  start, next,
}
use super_engine.Auth.Tokens.Persisted.Steps.{Synced, InSync, act-InSync}

retain-eq_of_length :
    (p : TokenMeta → Bool) (m : Sessions)
    → ltb (length (retain p m)) (length m) ≡ false
    → retain p m ≡ m
unfolding retain
retain-eq_of_length p [] h = refl
retain-eq_of_length p ((k, w) ∷ m) h = ground (arith, length-retain-le p m, retain-eq_of_length p m)

load-InSync :
    (loaded : Sessions) (saved : Bool) (now : ℕ)
    → (load_persisted loaded saved now).lost ≡ false
    → InSync (load_persisted loaded saved now)
unfolding load_persisted
load-InSync loaded saved now h =
    ground (arith, retain-eq_of_length (λ meta. ltb now meta.expires_at) loaded)

Reach-InSync : {s : TokenStore} → Reach s → s.lost ≡ false → InSync s
Reach-InSync (start loaded saved now) l = load-InSync loaded saved now l
Reach-InSync (next {s} {u} a r h) l = act-InSync s u a h l (Reach-InSync r)

-- In every interleaving of requests with the persist task in which no write of the file has failed:
-- once the task waits at an empty queue, the file holds exactly the map in memory.
pub quiet-file_eq_inner :
    (s : TokenStore)
    → Reach s
    → s.lost ≡ false
    → s.task ≡ receiving
    → s.queue ≡ []
    → s.file ≡ s.inner
quiet-file_eq_inner s r l t q = go s.pending s.task t (Reach-InSync r l)
  where
    go :
        (p : Option Sessions) (k : Phase)
        → k ≡ receiving
        → Synced p k s.queue s.inner s.file
        → s.file ≡ s.inner
    go none receiving e w = w
    go none drained e w = w
    go none (writing x) e w = absurd (cc e)
    go (some p) receiving e w = absurd (ground (arith, w.1))
    go (some p) drained e w = absurd (cc e)
    go (some p) (writing x) e w = absurd (cc e)

-- From any such state in which the task waits and its queue is not empty, the task alone reaches a
-- state in which the file holds the map: it drains the queue, takes what is pending, and writes it
-- if there is anything, with the map left as it is.
pub task_catches_up :
    (s : TokenStore)
    → Reach s
    → s.lost ≡ false
    → s.task ≡ receiving
    → is_empty s.queue ≡ false
    → (u v w : TokenStore) × (act s draining ≡ some u)
      × (act u taking ≡ some v)
      × ((v ≡ w) ⊎ (act v (writing_file true) ≡ some w))
      × (w.task ≡ receiving)
      × (w.queue ≡ [])
      × (w.inner ≡ s.inner)
      × (w.file ≡ s.inner)
unfolding act drain take write
task_catches_up s r l t q = go s.pending refl
  where
    known : (p : Option Sessions) → s.pending ≡ p → Synced p receiving s.queue s.inner s.file
    known p e =
        subst (λ o. Synced o receiving s.queue s.inner s.file) e
          (subst (λ k. Synced s.pending k s.queue s.inner s.file) t (Reach-InSync r l))

    go :
        (p : Option Sessions)
        → s.pending ≡ p
        → (u v w : TokenStore) × (act s draining ≡ some u)
          × (act u taking ≡ some v)
          × ((v ≡ w) ⊎ (act v (writing_file true) ≡ some w))
          × (w.task ≡ receiving)
          × (w.queue ≡ [])
          × (w.inner ≡ s.inner)
          × (w.file ≡ s.inner)
    go none e =
        let u : TokenStore = record s { queue = []; task = drained } in
        let v : TokenStore = record s { queue = []; task = receiving } in
        (u, v, v, ground arith, ground arith, inl refl, refl, refl, refl, known none e)
    go (some p) e =
        let u : TokenStore = record s { queue = []; task = drained } in
        let v : TokenStore = record s { queue = []; pending = none; task = writing p } in
        let w : TokenStore = record v { file = p; task = receiving } in
        (u, v, w, ground arith, ground arith, inr refl, refl, refl, refl, (known (some p) e).0)
