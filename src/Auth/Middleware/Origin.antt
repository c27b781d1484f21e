-- ===== src/Auth/Middleware/Origin.antt =====
-- auth/middleware.rs: the gate of the TCP listener, and the rate limiter behind it.
use super_engine.Prelude.{
  ℕ, ◌≡◌, Bool, true, false, Option, none, some, List, [], ◌∷◌, bytes_eq, Text, text, Member, is_ok,
  err, contains_key, lookup-insert, ◌⊎◌, arith,
}
use super_engine.Resources.{
  ResourceManager, resource_unavailable, register_connection, record_request, new_connection,
  add_request_and_check_limits,
}
use super_engine.Auth.Peer.{PeerInfo, client_id, is_origin_allowed}
use super_engine.Auth.State.{Auth, passed}
use super_engine.Auth.Middleware.{web_peer, require_allowed_origin}

-- A registered client is known afterwards.
register-known :
    (m : ResourceManager Text) (k : Text) (addr : Option _) (now : ℕ)
    → is_ok (register_connection m k addr now).1 ≡ true
    → contains_key k (register_connection m k addr now).0.connections ≡ true
unfolding register_connection
register-known m k addr now h =
    ground
      (arith, lookup-insert k k (new_connection k addr now) m.connections, bytes_eq.beq_iff k k)

allowed_cases :
    (allowed : List Text) (o : Text)
    → is_origin_allowed allowed o ≡ true
    → Member (text "*") allowed ⊎ Member o allowed
unfolding is_origin_allowed
allowed_cases [] o h = cc
allowed_cases (a ∷ rest) o h =
    ground (arith, bytes_eq.beq_iff a (text "*"), bytes_eq.beq_iff a o, allowed_cases rest o)

-- What a passage is worth.
pub record IsGated (auth : Auth) (origin : Option Text) (auth' : Auth) (p : PeerInfo) (o : Text)
    : Type 0 where
  pub sent : origin ≡ some o
  pub listed : Member (text "*") auth.allowed_origins ⊎ Member o auth.allowed_origins
  pub identity : p.web_origin ≡ some o
  pub known : contains_key (client_id p) auth'.resource_manager.connections ≡ true

-- For a peer with neither pid nor uid: whoever passes the gate with an origin as its identity sent
-- that origin, the user listed it, exactly or by the wildcard, and the rate limiter behind the gate
-- knows the client.
pub require_allowed_origin-IsGated :
    (auth : Auth) (peer p : PeerInfo) (origin : Option Text) (options private : Bool) (now : ℕ)
    (o : Text)
    → peer.pid ≡ none
    → peer.uid ≡ none
    → (require_allowed_origin auth (some peer) origin options private now).1 ≡ passed (web_peer p o)
    → IsGated auth origin (require_allowed_origin auth (some peer) origin options private now).0 p o
unfolding require_allowed_origin
require_allowed_origin-IsGated auth peer p none options private now o np nu h =
    absurd (ground arith)
require_allowed_origin-IsGated auth peer p (some sent) options private now o np nu h =
    let q : PeerInfo = record peer { web_origin = some sent } in
    let reg = register-known auth.resource_manager (client_id q) none now in
    record {
      sent = ground arith;
      listed = allowed_cases auth.allowed_origins o (ground arith);
      identity = ground arith;
      known = ground (arith, reg);
    }

-- The rate limiter passes a client on its limits alone, if it is registered.
pub require_rate_limit-unregistered :
    (auth : Auth) (peer : PeerInfo) (now : ℕ)
    → (record_request auth.resource_manager (client_id peer) now).1 ≡ err resource_unavailable
    → contains_key (client_id peer) auth.resource_manager.connections ≡ false
unfolding record_request add_request_and_check_limits
require_rate_limit-unregistered auth peer now h = ground arith
