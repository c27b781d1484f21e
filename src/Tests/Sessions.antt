-- ===== src/Tests/Sessions.antt =====
-- A session's life in the store and at the guard.
use super_engine.Prelude.{
  ◌+◌, ◌≡◌, ◌↔◌, ◌⊎◌, refl, true, Option, none, some, List, [], ◌∷◌, Text, text, bytes_eq, nat_eq,
  strip_prefix, list_beq, retain,
}
use super_engine.Auth.Peer.{
  PeerInfo, PeerIdentity, web, tcp, Os, identity_eq, resolve_peer_identity,
}
use super_engine.Auth.State.{Auth, Response, passed, with_tokens, scope_denied}
use super_engine.Auth.Tokens.{
  TokenMeta, TokenStore, load_persisted, session_length, mint, act, minting, draining, taking,
  writing_file, Reach, start, next, receiving, drained, writing, drain, take, write,
}
use super_engine.Auth.Tokens.Persisted.{quiet-file_eq_inner, task_catches_up}
use super_engine.Auth.Middleware.{AuthContext, require_scope, extract_bearer_token}
use super_engine.Auth.Middleware.Guards.{require_scope_iff, require_scope-mint, IsAdmitted}
use super_engine.Resources.{with_limits, default}
use super_engine.Tests.Callers.{stt}

abbrev empty : TokenStore
empty = load_persisted [] true 0

abbrev page : PeerIdentity
page = web (text "https://a.example")

abbrev scopes : List Text
scopes = text "settings" ∷ []

abbrev one : TokenStore
one = (mint empty (text "t") (text "app") scopes page 5).0

abbrev meta : TokenMeta
meta = record {
  app_name = text "app";
  scopes = scopes;
  grantee = page;
  issued_at = 5;
  expires_at = 5 + session_length;
}

Reach-one : Reach one
unfolding act
Reach-one = next (minting (text "t") (text "app") scopes page 5) (start [] true 0) refl

abbrev written : TokenStore
written = record one { pending = none; queue = []; file = one.inner }

Reach-written : Reach written
unfolding act mint load_persisted retain drain take write
Reach-written =
    next (writing_file true)
      (next {u = record one { pending = none; queue = []; task = writing one.inner }} taking
        (next {u = record one { queue = []; task = drained }} draining Reach-one refl) refl)
      refl

quiet-file_eq_inner_example : written.file ≡ written.inner
unfolding mint load_persisted retain
quiet-file_eq_inner_example = quiet-file_eq_inner written Reach-written refl refl refl

task_catches_up_example :
    (u v w : TokenStore) × (act one draining ≡ some u)
    × (act u taking ≡ some v)
    × ((v ≡ w) ⊎ (act v (writing_file true) ≡ some w))
    × (w.task ≡ receiving)
    × (w.queue ≡ [])
    × (w.inner ≡ one.inner)
    × (w.file ≡ one.inner)
unfolding mint load_persisted retain
task_catches_up_example = task_catches_up one Reach-one refl refl refl

abbrev nothing : Os
nothing = record {
  exe = λ pid. none;
  root = λ pid. none;
  our_root = none;
  flatpak_info = λ pid. none;
}

abbrev caller : Text → Option PeerInfo
caller origin = some (record tcp { web_origin = some origin })

abbrev fresh : Auth
fresh = with_tokens stt (with_limits default) [] one

abbrev settings_request : Auth × Response AuthContext
settings_request =
    require_scope nothing (text "settings") fresh (some (text "Bearer t"))
      (caller (text "https://a.example")) 6

require_scope_iff_example :
    ((settings_request.1 ≡ passed (record { meta = meta; token = text "t" }))
      ↔ IsAdmitted nothing
          (text "settings")
          fresh
          (caller (text "https://a.example"))
          6
          (record { meta = meta; token = text "t" }))
    × (settings_request.1 ≡ passed (record { meta = meta; token = text "t" })
        → settings_request.0 ≡ fresh)
unfolding extract_bearer_token strip_prefix
require_scope_iff_example =
    require_scope_iff nothing (text "settings") fresh (some (text "Bearer t")) (text "t")
      (caller (text "https://a.example")) 6 refl meta

require_scope-mint_example :
    (require_scope nothing
      (text "secrets")
      (record fresh { tokens = (mint fresh.tokens (text "u") (text "app") scopes page 5).0 })
      (some (text "Bearer u"))
      (caller (text "https://a.example"))
      6).1
    ≡ scope_denied
unfolding resolve_peer_identity list_beq
require_scope-mint_example =
    require_scope-mint nothing fresh (text "u") (text "app") (text "secrets") scopes page 5 6
      (caller (text "https://a.example"))
