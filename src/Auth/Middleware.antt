-- ===== src/Auth/Middleware.antt =====
-- auth/middleware.rs: the guards in front of the routes. Draining the body of a refused request
-- is not modelled: it changes neither the state nor the response.
pub mod Guards
pub mod Origin
use super_engine.Prelude.{
  ℕ, Bool, true, false, not, ◌&&◌, Option, none, some, List, [], ◌∷◌, ◌==◌, bytes_eq, if◌then◌else◌,
  Text, text, any, Result, ok, err, contains, strip_prefix, is_none,
}
use super_engine.Resources.{register_connection, record_request}
use super_engine.Auth.State.{
  Auth, Reason, unknown, expired, exe_changed, origin_not_allowed, too_many_clients, Response,
  error_response, passed, invalid_session, scope_denied, rate_limited, auth_err,
}
use super_engine.Auth.Peer.{
  PeerInfo, PeerIdentity, Os, client_id, tcp, resolve_peer_identity, is_origin_allowed, identity_eq,
}
use super_engine.Auth.Tokens.{TokenMeta, TokenStore, Invalid, matches, validate, revoke}
use super_engine.Auth.Consent.{ConsentKey, key_eq}

unfoldable pub deny_cache_contains : List ConsentKey → ConsentKey → Bool
deny_cache_contains cache key = contains cache key

-- A set: a key that is there is not added again.
unfoldable pub deny_cache_insert : List ConsentKey → ConsentKey → List ConsentKey
deny_cache_insert cache key = if contains cache key then cache else key ∷ cache

-- The value of the `authorization` header, where it is readable text.
unfoldable pub extract_bearer_token : Option Text → Option Text
extract_bearer_token none = none
extract_bearer_token (some value) = strip_prefix (text "Bearer ") value

pub record AuthContext : Type 0 where
  pub meta : TokenMeta
  pub token : Text

abbrev reason_of : Invalid → Reason
reason_of Invalid.unknown = unknown
reason_of Invalid.expired = expired

unfoldable pub verify_peer_binding :
    Os → TokenStore → Option PeerInfo → TokenMeta → Text → TokenStore × Result (Unit {0}) Reason
verify_peer_binding os tokens peer meta token = elim (resolve_peer_identity os peer) [
  | none ↦ (tokens, err unknown)
  | some identity ↦
      if matches meta identity then (tokens, ok tt) else (revoke tokens token, err exe_changed)
]

-- What both guards do with the result of the peer check: `next` is reached only past it.
abbrev bound :
    Auth
    → TokenMeta
    → Text
    → TokenStore × Result (Unit {0}) Reason
    → Response AuthContext
    → Auth × Response AuthContext
bound auth meta token (tokens, err reason) next =
    (record auth { tokens = tokens }, invalid_session reason)
bound auth meta token (tokens, ok _) next = (record auth { tokens = tokens }, next)

abbrev validated :
    Os
    → Option PeerInfo
    → Auth
    → Text
    → TokenStore × Result TokenMeta Invalid
    → (TokenMeta → Response AuthContext)
    → Auth × Response AuthContext
validated os peer auth token (tokens, err reason) next =
    (record auth { tokens = tokens }, invalid_session (reason_of reason))
validated os peer auth token (tokens, ok meta) next =
    bound auth meta token (verify_peer_binding os tokens peer meta token) (next meta)

-- `passed context` is where the handler behind the guard runs, with that context.
unfoldable pub require_scope :
    Os
    → (required : Text) → Auth
    → (authorization : Option Text) → Option PeerInfo
    → (now : ℕ) → Auth × Response AuthContext
unfolding verify_peer_binding
require_scope os required auth authorization peer now = elim (extract_bearer_token authorization) [
  | none ↦ (auth, invalid_session unknown)
  | some token ↦ validated os peer auth token (validate auth.tokens token now) (λ meta.
      if contains meta.scopes required
      then passed (record { meta = meta; token = token })
      else scope_denied)
]

unfoldable pub require_any_authenticated :
    Os
    → Auth
    → (authorization : Option Text) → Option PeerInfo
    → (now : ℕ) → Auth × Response AuthContext
unfolding verify_peer_binding
require_any_authenticated os auth authorization peer now =
    elim (extract_bearer_token authorization) [
      | none ↦ (auth, invalid_session unknown)
      | some token ↦
          validated os peer auth token (validate auth.tokens token now)
            (λ meta. passed (record { meta = meta; token = token }))
    ]

unfoldable pub require_rate_limit : Auth → PeerInfo → (now : ℕ) → Auth × Response (Unit {0})
require_rate_limit auth peer now =
    let (manager, verdict) = record_request auth.resource_manager (client_id peer) now in
    let auth' : Auth = record auth { resource_manager = manager } in
    elim verdict [ ok _ ↦ (auth', passed tt) | err e ↦ (auth', rate_limited) ]

-- What the origin gate lets through: the request as it came, one whose peer has the origin, or the
-- answer to a preflight, with or without the private-network header. The last two carry the
-- origin's CORS headers.
pub data Gated : Type 0 where
  unix_peer : Gated
  preflight : (origin : Text) (private_network : Bool) → Gated
  web_peer : PeerInfo → (origin : Text) → Gated

abbrev is_tcp : Option PeerInfo → Bool
is_tcp none = false
is_tcp (some p) = is_none p.pid && is_none p.uid

abbrev allowed_origin : List Text → Option Text → Option Text
allowed_origin allowed none = none
allowed_origin allowed (some origin) =
    if is_origin_allowed allowed origin then some origin else none

abbrev peer_or_tcp : Option PeerInfo → PeerInfo
peer_or_tcp none = tcp
peer_or_tcp (some p) = p

-- `origin` is the request's header, `options` whether the method is OPTIONS, `wants_private` the
-- test of the private-network header.
unfoldable pub require_allowed_origin :
    Auth
    → Option PeerInfo
    → (origin : Option Text) → (options wants_private : Bool) → (now : ℕ) → Auth × Response Gated
require_allowed_origin auth peer origin options wants_private now =
    if not (is_tcp peer)
    then (auth, passed unix_peer)
    else elim (allowed_origin auth.allowed_origins origin) [
      | none ↦ (auth, auth_err 403 origin_not_allowed)
      | some o ↦
          if options
          then (auth, passed (preflight o wants_private))
          else let p : PeerInfo = record (peer_or_tcp peer) { web_origin = some o } in
            let (manager, registered) =
              register_connection auth.resource_manager (client_id p) none now in
            elim registered [
              | err e ↦ (
                record auth { resource_manager = manager },
                error_response 503 (text "connection_rejected") too_many_clients,
              )
              | ok _ ↦ (record auth { resource_manager = manager }, passed (web_peer p o))
            ]
    ]
