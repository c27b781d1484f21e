-- ===== src/Auth/Routes.antt =====
-- auth/routes.rs: the consent handshake. The handler waits twice, for the key's lock and for the
-- user, and other requests run meanwhile; so it is three functions of the state: up to the lock,
-- the check under the lock, and the user's decision.
pub mod Consenting
use super_engine.Prelude.{
  ℕ, Bool, true, false, not, ◌&&◌, ◌||◌, Option, none, some, List, [], ◌∷◌, ◌==◌, nat_eq, bytes_eq,
  if◌then◌else◌, Text, all, is_empty, ◌>>=◌,
}
use super_engine.Auth.State.{
  Auth, Reason, unknown, invalid_body, invalid_scope, uid_mismatch, user_denied_cached, user_denied,
  user_dismissed, popup_failed, peer_unverifiable, Response, passed, auth_err, invalid_session,
}
use super_engine.Auth.Peer.{PeerInfo, PeerIdentity, Os, resolve_peer_identity}
use super_engine.Auth.Scopes.{is_known_scope}
use super_engine.Auth.Consent.{
  ConsentKey, normalize_scopes, lock_for, release, drop_lock, ConsentDecision, allow, deny,
  dismissed, Files, is_official_client,
}
use super_engine.Auth.Consent
use super_engine.Auth.Tokens.{mint}
use super_engine.Auth.Middleware.{AuthContext, deny_cache_contains, deny_cache_insert}

pub record AuthRequestBody : Type 0 where
  pub app_name : Text
  pub scopes : List Text
  pub version : Option Text

pub record AuthOk : Type 0 where
  pub session_token : Text
  pub scopes : List Text
  pub expires_at : ℕ

unfoldable pub cached_deny_response : Auth → ConsentKey → Option (Response AuthOk)
cached_deny_response auth key =
    if deny_cache_contains auth.deny_cache key then some (auth_err 403 user_denied_cached) else none

abbrev uid_of : Option PeerInfo → Option ℕ
uid_of none = none
uid_of (some p) = p.uid

abbrev is_web : Option PeerInfo → Bool
is_web none = false
is_web (some p) = elim p.web_origin [ none ↦ false | some o ↦ true ]

unfoldable pub reject_foreign_uid : (daemon_uid : ℕ) → Option PeerInfo → Option (Response AuthOk)
reject_foreign_uid daemon_uid peer = if is_web peer then none else elim (uid_of peer) [
  | some uid ↦ if uid == daemon_uid then none else some (auth_err 403 uid_mismatch)
  | none ↦ some (auth_err 403 uid_mismatch)
]

-- One request as it stands once its caller is known; `token` is the fresh random text that a grant
-- would mint.
pub record Asking : Type 0 where
  pub app_name : Text
  pub scopes : List Text
  pub identity : PeerIdentity
  pub token : Text

abbrev pub consent_key : Asking → ConsentKey
consent_key a = (a.identity, a.scopes)

unfoldable pub finalize_consent_decision :
    ConsentDecision → Auth → Asking → (now : ℕ) → Auth × Response AuthOk
finalize_consent_decision allow auth a now =
    let (tokens, token, expires_at) = mint auth.tokens a.token a.app_name a.scopes a.identity now in
    (
      record auth { tokens = tokens },
      passed (record { session_token = token; scopes = a.scopes; expires_at = expires_at }),
    )
finalize_consent_decision deny auth a now = (
  record auth { deny_cache = deny_cache_insert auth.deny_cache (consent_key a) },
  auth_err 403 user_denied,
)
finalize_consent_decision dismissed auth a now = (auth, auth_err 403 user_dismissed)
finalize_consent_decision Consent.popup_failed auth a now = (auth, auth_err 403 popup_failed)

-- What the daemon finds around it: the operating system and its files, and its own user.
pub record Host : Type 0 where
  pub os : Os
  pub files : Files
  pub uid : ℕ

-- Up to the lock: an answer, or the request and its lock.
pub data Begun : Type 0 where
  answered : Response AuthOk → Begun
  queued : Asking → (lock : ℕ) → Begun

enter : Host → Auth → Asking → (now : ℕ) → Auth × Begun
enter host auth a now =
    if is_official_client host.files auth.product a.identity
    then (let (auth', response) = finalize_consent_decision allow auth a now in
        (auth', answered response))
    else elim (cached_deny_response auth (consent_key a)) [
      | some response ↦ (auth, answered response)
      | none ↦
          let (locks, lock) = lock_for auth.consent_locks (consent_key a) in
          (record auth { consent_locks = locks }, queued a lock)
    ]

unfoldable pub begin :
    Host
    → Auth
    → Option PeerInfo
    → Option AuthRequestBody
    → (token : Text) → (now : ℕ) → Auth × Begun
unfolding enter
begin host auth peer none token now = (auth, answered (auth_err 400 invalid_body))
begin host auth peer (some body) token now =
    if is_empty body.scopes || not (all (is_known_scope auth.product) body.scopes)
    then (auth, answered (auth_err 400 invalid_scope))
    else elim (reject_foreign_uid host.uid peer) [
      | some rejection ↦ (auth, answered rejection)
      | none ↦ elim (resolve_peer_identity host.os peer) [
        | none ↦ (auth, answered (auth_err 403 peer_unverifiable))
        | some identity ↦
            enter host auth
              (record {
                app_name = body.app_name;
                scopes = normalize_scopes body.scopes;
                identity = identity;
                token = token;
              })
              now
      ]
    ]

-- Under the lock: the second look at the deny cache. `none` means that the user is asked.
unfoldable pub recheck : Auth → Asking → Option (Response AuthOk)
recheck auth a = cached_deny_response auth (consent_key a)

-- The lock goes back when the request has its answer.
unfoldable pub finish : Auth → Asking → (lock : ℕ) → Auth
finish auth a lock = record auth {
  consent_locks = drop_lock (release auth.consent_locks (consent_key a) lock) lock;
}

-- `auth_request` with nothing running in between: `decision` is what the user (or a debug build's
-- automatic approval) answers if asked.
unfoldable pub auth_request :
    Host
    → Auth
    → Option PeerInfo
    → Option AuthRequestBody
    → (token : Text) → ConsentDecision
    → (now : ℕ) → Auth × Response AuthOk
unfolding begin recheck finish
auth_request host auth peer body token decision now =
    let (auth1, begun) = begin host auth peer body token now in
    elim begun [
      | answered response ↦ (auth1, response)
      | queued a lock ↦ elim (recheck auth1 a) [
        | some response ↦ (finish auth1 a lock, response)
        | none ↦
            let (auth2, response) = finalize_consent_decision decision auth1 a now in
            (finish auth2 a lock, response)
      ]
    ]

pub record AuthStatusOk : Type 0 where
  pub scopes : List Text
  pub expires_at : ℕ

unfoldable pub auth_status : Option AuthContext → Response AuthStatusOk
auth_status none = invalid_session unknown
auth_status (some ctx) =
    passed (record { scopes = ctx.meta.scopes; expires_at = ctx.meta.expires_at })
