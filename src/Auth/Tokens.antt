-- ===== src/Auth/Tokens.antt =====
-- auth/tokens.rs: the session store, and the task that writes it to the secrets file.
-- Each lock-protected section is one action. The persist task drains its queue, takes the pending
-- snapshot and writes it, with other actions in between.
pub mod Sessions
pub mod Persisted
use super_engine.Prelude.{
  ℕ, ◌+◌, ◌*◌, ◌≡◌, Bool, true, false, not, Option, none, some, List, [], ◌∷◌, ◌++◌, length,
  is_some, is_empty, ltb, Eq, ◌==◌, bytes_eq, if◌then◌else◌, Text, Result, ok, err, lookup, insert,
  remove, retain,
}
use super_engine.Auth.Peer.{PeerIdentity, identity_eq}

pub record TokenMeta : Type 0 where
  pub app_name : Text
  pub scopes : List Text
  pub grantee : PeerIdentity
  pub issued_at : ℕ
  pub expires_at : ℕ

abbrev pub matches : TokenMeta → PeerIdentity → Bool
matches meta identity = meta.grantee == identity

abbrev pub Sessions : Type 0
Sessions = List (Text × TokenMeta)

pub data PersistMsg : Type 0 where
  wake flush : PersistMsg

-- Where `persist_loop` stands: at `recv`, past draining the queue, or at the write of a snapshot.
pub data Phase : Type 0 where
  receiving : Phase
  drained : Phase
  writing : Sessions → Phase

-- `inner` is the map that `TokenStore` guards; `pending` and `queue` are the persister's; `file` is
-- what the secrets file holds, and `lost` is true once a write of it has failed.
pub record TokenStore : Type 0 where
  pub inner : Sessions
  pub pending : Option Sessions
  pub queue : List PersistMsg
  pub task : Phase
  pub file : Sessions
  pub lost : Bool

unfoldable pub submit : TokenStore → Sessions → TokenStore
submit s snapshot = record s {
  pending = some snapshot;
  queue = if is_some s.pending then s.queue else s.queue ++ wake ∷ [];
}

-- The file of the sessions at startup; `saved` tells whether writing the pruned set worked.
unfoldable pub load_persisted : Sessions → Bool → ℕ → TokenStore
load_persisted loaded saved now =
    let live = retain (λ meta. ltb now meta.expires_at) loaded in
    let pruned = ltb (length live) (length loaded) in
    record {
      inner = live;
      pending = none;
      queue = [];
      task = receiving;
      file = if pruned then (if saved then live else loaded) else loaded;
      lost = if pruned then not saved else false;
    }

-- 30 days in nanoseconds.
abbrev pub session_length : ℕ
session_length = 30 * 24 * 3600 * 1000000000

-- `token` is the fresh random text of `generate_token`.
unfoldable pub mint :
    TokenStore
    → (token app_name : Text) → List Text
    → PeerIdentity
    → (now : ℕ) → TokenStore × Text × ℕ
unfolding submit
mint s token app_name scopes identity now =
    let expires_at = now + session_length in
    let meta : TokenMeta = record {
      app_name = app_name;
      scopes = scopes;
      grantee = identity;
      issued_at = now;
      expires_at = expires_at;
    } in
    let tokens = insert token meta s.inner in
    (submit (record s { inner = tokens }) tokens, token, expires_at)

pub data Invalid : Type 0 where
  unknown expired : Invalid

unfoldable pub validate : TokenStore → Text → ℕ → TokenStore × Result TokenMeta Invalid
unfolding submit
validate s token now = elim (lookup token s.inner) [
  | none ↦ (s, err unknown)
  | some meta ↦
      if ltb meta.expires_at now
      then (let tokens = remove token s.inner in
          (submit (record s { inner = tokens }) tokens, err expired))
      else (s, ok meta)
]

unfoldable pub revoke : TokenStore → Text → TokenStore
unfolding submit
revoke s token = elim (lookup token s.inner) [
  | none ↦ s
  | some meta ↦ let tokens = remove token s.inner in submit (record s { inner = tokens }) tokens
]

-- `flush_persisted_sessions` sends a message that the loop acknowledges after its next write.
unfoldable pub request_flush : TokenStore → TokenStore
request_flush s = record s { queue = s.queue ++ flush ∷ [] }

-- `rx.recv().await`, then `try_recv` until the queue is empty.
unfoldable pub drain : TokenStore → Option TokenStore
drain s = elim s.task [
  | receiving ↦ if is_empty s.queue then none else some (record s { queue = []; task = drained })
  | _ ↦ none
]

-- `pending.lock().unwrap().take()`
unfoldable pub take : TokenStore → Option TokenStore
take s = elim s.task [
  | drained ↦ some (elim s.pending [
    | none ↦ record s { task = receiving }
    | some snapshot ↦ record s { pending = none; task = writing snapshot }
  ])
  | _ ↦ none
]

-- `persist_snapshot`: a failed write is logged and the snapshot is dropped.
unfoldable pub write : TokenStore → Bool → Option TokenStore
write s works = elim s.task [
  | writing snapshot ↦ some (
      if works
      then record s { file = snapshot; task = receiving }
      else record s { lost = true; task = receiving })
  | _ ↦ none
]

pub data Action : Type 0 where
  minting : (token app_name : Text) → List Text → PeerIdentity → (now : ℕ) → Action
  validating : Text → (now : ℕ) → Action
  revoking : Text → Action
  flushing draining taking : Action
  writing_file : (works : Bool) → Action

unfoldable pub act : TokenStore → Action → Option TokenStore
act s (minting token app scopes identity now) = some (mint s token app scopes identity now).0
act s (validating token now) = some (validate s token now).0
act s (revoking token) = some (revoke s token)
act s flushing = some (request_flush s)
act s draining = drain s
act s taking = take s
act s (writing_file works) = write s works

-- The states that any interleaving of actions reaches from a start-up.
pub data Reach : TokenStore → Type 0 where
  start : (loaded : Sessions) (saved : Bool) (now : ℕ) → Reach (load_persisted loaded saved now)
  next : {s u : TokenStore} (a : Action) → Reach s → act s a ≡ some u → Reach u
