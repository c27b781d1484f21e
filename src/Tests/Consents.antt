-- ===== src/Tests/Consents.antt =====
-- A page asks for consent, and a page passes the origin gate.
use super_engine.Prelude.{
  ◌+◌, ◌≡◌, refl, true, false, none, some, [], ◌∷◌, text, bytes_eq, nat_eq, lookup, list_beq,
}
use super_engine.Auth.Peer.{PeerInfo, tcp, identity_eq, resolve_peer_identity, is_origin_allowed}
use super_engine.Auth.State.{
  Auth, Response, passed, with_tokens, auth_err, user_denied, user_denied_cached,
}
use super_engine.Auth.Tokens.{load_persisted, session_length, mint}
use super_engine.Auth.Scopes.{is_known_scope}
use super_engine.Auth.Consent.{
  allow, deny, normalize_scopes, dedup, sort, insert_sorted, is_official_client,
}
use super_engine.Auth.Middleware.{web_peer, require_allowed_origin, deny_cache_contains}
use super_engine.Auth.Middleware.Origin.{IsGated, require_allowed_origin-IsGated}
use super_engine.Auth.Routes.{
  AuthRequestBody, AuthOk, Host, auth_request, finalize_consent_decision, cached_deny_response,
  reject_foreign_uid,
}
use super_engine.Auth.Routes.Consenting.{
  IsEntitled, granted-IsEntitled, tokens-auth_request, denial_sticks, IsAccounted, Arrival,
  after_requests,
}
use super_engine.Resources.{with_limits, default, register_connection}
use super_engine.Tests.Callers.{stt, home}

abbrev host : Host
host = record {
  os = record {
    exe = λ pid. none;
    root = λ pid. none;
    our_root = none;
    flatpak_info = λ pid. none;
  };
  files = home;
  uid = 1000;
}

abbrev peer : PeerInfo
peer = record tcp { web_origin = some (text "https://a.example") }

abbrev idle : Auth
idle =
    with_tokens stt (with_limits default) (text "https://a.example" ∷ []) (load_persisted [] true 0)

abbrev asked : AuthRequestBody
asked = record { app_name = text "page"; scopes = text "settings" ∷ []; version = none }

abbrev granted : AuthOk
granted = record {
  session_token = text "t";
  scopes = text "settings" ∷ [];
  expires_at = 7 + session_length;
}

grants : (auth_request host idle (some peer) (some asked) (text "t") allow 7).1 ≡ passed granted
unfolding auth_request is_known_scope list_beq reject_foreign_uid resolve_peer_identity
    is_official_client cached_deny_response deny_cache_contains finalize_consent_decision mint
    normalize_scopes dedup sort insert_sorted
grants = refl

granted-IsEntitled_example : IsEntitled host idle (some peer) (some asked) (text "t") allow granted
granted-IsEntitled_example =
    granted-IsEntitled host idle (some peer) (text "t") allow 7 (some asked) granted grants

abbrev answer : Auth × Response AuthOk
answer = auth_request host idle (some peer) (some asked) (text "t") allow 7

tokens-auth_request_example :
    IsAccounted host idle (some peer) (text "t") allow 7 (some asked) answer
tokens-auth_request_example =
    tokens-auth_request host idle (some peer) (text "t") allow 7 (some asked)

denies :
    (auth_request host idle (some peer) (some asked) (text "t") deny 7).1 ≡ auth_err 403 user_denied
unfolding auth_request is_known_scope list_beq reject_foreign_uid resolve_peer_identity
    is_official_client cached_deny_response deny_cache_contains finalize_consent_decision
denies = refl

abbrev other : Arrival
other = record {
  peer = some peer;
  body = some (record { app_name = text "page"; scopes = text "secrets" ∷ []; version = none });
  token = text "u";
  decision = deny;
  now = 8;
}

abbrev denied_twice : Auth
denied_twice =
    after_requests host (other ∷ [])
      (auth_request host idle (some peer) (some asked) (text "t") deny 7).0

denial_sticks_example :
    auth_request host denied_twice (some peer) (some asked) (text "v") allow 9
    ≡ (denied_twice, auth_err 403 user_denied_cached)
denial_sticks_example =
    denial_sticks host idle (some peer) asked asked (text "t") (text "v") allow 7 9 (other ∷ [])
      denies (λ a. (λ m. m, λ m. m))

passes :
    (require_allowed_origin idle (some tcp) (some (text "https://a.example")) false false 7).1
    ≡ passed (web_peer peer (text "https://a.example"))
unfolding require_allowed_origin is_origin_allowed list_beq register_connection lookup
passes = refl

require_allowed_origin-IsGated_example :
    IsGated idle
      (some (text "https://a.example"))
      (require_allowed_origin idle (some tcp) (some (text "https://a.example")) false false 7).0
      peer
      (text "https://a.example")
require_allowed_origin-IsGated_example =
    require_allowed_origin-IsGated idle tcp peer (some (text "https://a.example")) false false 7
      (text "https://a.example") refl refl passes
