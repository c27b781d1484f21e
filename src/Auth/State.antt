-- ===== src/Auth/State.antt =====
-- auth/mod.rs: the state that the routes and guards share, and the responses of http/responses.rs.
use super_engine.Prelude.{ℕ, List, [], Text, text}
use super_engine.Auth.Scopes.{ProductSpec}
use super_engine.Auth.Consent.{ConsentKey, ConsentLocks}
use super_engine.Auth.Tokens.{TokenStore}
use super_engine.Resources.{ResourceManager}

pub record Auth : Type 0 where
  pub product : ProductSpec
  pub tokens : TokenStore
  pub consent_locks : ConsentLocks
  pub deny_cache : List ConsentKey
  pub resource_manager : ResourceManager Text
  pub allowed_origins : List Text

abbrev pub with_tokens :
    ProductSpec → ResourceManager Text → (allowed_origins : List Text) → TokenStore → Auth
with_tokens product manager allowed_origins tokens = record {
  product = product;
  tokens = tokens;
  consent_locks = record { locks = []; holders = []; fresh = 0 };
  deny_cache = [];
  resource_manager = manager;
  allowed_origins = allowed_origins;
}

-- The texts of `responses::reason`, and the two reasons that `validate` gives.
pub data Reason : Type 0 where
  unknown expired exe_changed invalid_body invalid_scope uid_mismatch : Reason
  user_denied_cached user_denied user_dismissed popup_failed : Reason
  peer_unverifiable origin_not_allowed too_many_clients : Reason

-- A response, by its status and body. `passed` stands for whatever the next handler answers.
pub data Response {ℓ} (A : Type ℓ) : Type ℓ where
  error_response : (status : ℕ) (message : Text) (reason : Reason) → Response A
  plain_error : (status : ℕ) (message : Text) → Response A
  passed : A → Response A

module _ {ℓ} {A : Type ℓ} where
  abbrev pub invalid_session : Reason → Response A
  invalid_session reason = error_response 401 (text "invalid_session") reason

  abbrev pub scope_denied : Response A
  scope_denied = plain_error 403 (text "scope_denied")

  abbrev pub rate_limited : Response A
  rate_limited = plain_error 429 (text "rate_limited")

  abbrev pub auth_err : ℕ → Reason → Response A
  auth_err status reason = error_response status (text "auth_denied") reason
