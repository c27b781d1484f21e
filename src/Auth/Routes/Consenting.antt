-- ===== src/Auth/Routes/Consenting.antt =====
-- auth/routes.rs: what a session token costs, and what a denial is worth.
use super_engine.Prelude.{
  ℕ, ◌+◌, ◌==◌, if◌then◌else◌, lookup, lookup-insert, ◌≡◌, ◌≢◌, ◌↔◌, ◌⊎◌, refl, subst, Bool, true,
  false, Option, none, some, List, [], ◌∷◌, nat_eq, bytes_eq, Text, all, is_empty, contains, Member,
  Option-cases, Bool-cases, inl, inr, arith,
}
use super_engine.Auth.State.{
  Auth, Response, passed, auth_err, user_denied, user_denied_cached, uid_mismatch,
}
use super_engine.Auth.Peer.{PeerInfo, PeerIdentity, resolve_peer_identity}
use super_engine.Auth.Scopes.{is_known_scope}
use super_engine.Auth.Consent.{
  ConsentKey, key_eq, normalize_scopes, ConsentDecision, allow, deny, is_official_client,
}
use super_engine.Auth.Consent.Scopes.{normalize_scopes_iff}
use super_engine.Auth.Tokens.{TokenMeta, session_length, mint}
use super_engine.Auth.Middleware.{deny_cache_contains, deny_cache_insert}
use super_engine.Auth.Routes.{
  AuthRequestBody, AuthOk, Host, cached_deny_response, reject_foreign_uid,
  finalize_consent_decision, enter, auth_request, is_web, uid_of,
}

-- What must hold for a grant.
pub record IsEntitled (host : Host) (auth : Auth) (peer : Option PeerInfo)
    (body : Option AuthRequestBody) (token : Text) (decision : ConsentDecision) (granted : AuthOk)
    : Type 0 where
  pub asked : AuthRequestBody
  pub identity : PeerIdentity
  pub has_body : body ≡ some asked
  pub some_scope : is_empty asked.scopes ≡ false
  pub known : all (is_known_scope auth.product) asked.scopes ≡ true
  pub local : (is_web peer ≡ true) ⊎ (uid_of peer ≡ some host.uid)
  pub identified : resolve_peer_identity host.os peer ≡ some identity
  pub consented :
      (is_official_client host.files auth.product identity ≡ true)
      ⊎ ((decision ≡ allow)
          × (contains auth.deny_cache (identity, normalize_scopes asked.scopes) ≡ false))
  pub fresh : granted.session_token ≡ token
  pub scopes : granted.scopes ≡ normalize_scopes asked.scopes

abbrev pub is_granted : Response AuthOk → Bool
is_granted (passed granted) = true
is_granted _ = false

module _ (host : Host) (auth : Auth) (peer : Option PeerInfo) (token : Text)
    (decision : ConsentDecision) (now : ℕ) where
  abbrev request : Option AuthRequestBody → Auth × Response AuthOk
  request body = auth_request host auth peer body token decision now

  granted_sound :
      (body : AuthRequestBody) (granted : AuthOk)
      → (request (some body)).1 ≡ passed granted
      → IsEntitled host auth peer (some body) token decision granted
  unfolding auth_request enter cached_deny_response reject_foreign_uid finalize_consent_decision
      deny_cache_contains mint
  granted_sound body granted h = elim (Option-cases (resolve_peer_identity host.os peer)) [
    | inl e ↦ absurd (ground arith)
    | inr (identity, e) ↦ record {
      asked = body;
      identity = identity;
      has_body = refl;
      some_scope = ground arith;
      known = ground arith;
      local = ground (arith);
      identified = e;
      consented = elim (Bool-cases (is_official_client host.files auth.product identity)) [
        | inl o ↦ inl o
        | inr o ↦ inr (ground arith, ground arith)
      ];
      fresh = ground arith;
      scopes = ground arith;
    }
  ]

  missing_body : (granted : AuthOk) → (request none).1 ≢ passed granted
  unfolding auth_request
  missing_body granted h = cc h

  -- A session token is granted only to a caller that sent a body naming at least one scope and
  -- only scopes that the product knows, that is a web page or runs as the daemon's own user, that
  -- the daemon could identify, and that is a first-party client or was allowed by the user with no
  -- earlier denial in force. The token is the fresh one, for the normalized scopes.
  pub granted-IsEntitled :
      (body : Option AuthRequestBody) (granted : AuthOk)
      → (request body).1 ≡ passed granted
      → IsEntitled host auth peer body token decision granted
  granted-IsEntitled none granted h = absurd (missing_body granted h)
  granted-IsEntitled (some body) granted h = granted_sound body granted h

  -- The session that a grant adds.
  abbrev pub session_for : AuthRequestBody → PeerIdentity → TokenMeta
  session_for body identity = record {
    app_name = body.app_name;
    scopes = normalize_scopes body.scopes;
    grantee = identity;
    issued_at = now;
    expires_at = now + session_length;
  }

  -- What a grant reports, and what the sessions are then.
  pub record IsAdded (body : AuthRequestBody) (after : Auth) (granted : AuthOk) : Type 0 where
    pub identity : PeerIdentity
    pub resolves : resolve_peer_identity host.os peer ≡ some identity
    pub reported : granted ≡ record {
      session_token = token;
      scopes = normalize_scopes body.scopes;
      expires_at = now + session_length;
    }
    pub added :
        (t : Text)
        → lookup t after.tokens.inner
          ≡ (if token == t then some (session_for body identity) else lookup t auth.tokens.inner)

  abbrev pub IsAccounted : Option AuthRequestBody → Auth × Response AuthOk → Type 0
  IsAccounted body (after, response) =
      ((is_granted response ≡ false) × (after.tokens ≡ auth.tokens))
      ⊎ ((asked : AuthRequestBody) × (granted : AuthOk) × (body ≡ some asked)
          × (response ≡ passed granted)
          × IsAdded asked after granted)

  request-IsAdded :
      (body : AuthRequestBody)
      → is_granted (request (some body)).1 ≡ true
      → (granted : AuthOk) × ((request (some body)).1 ≡ passed granted)
        × IsAdded body (request (some body)).0 granted
  unfolding auth_request enter cached_deny_response reject_foreign_uid finalize_consent_decision
      mint super_engine.Auth.Tokens.submit
  request-IsAdded body g = elim (Option-cases (resolve_peer_identity host.os peer)) [
    | inl e ↦ absurd (ground arith)
    | inr (identity, e) ↦ (
      record {
        session_token = token;
        scopes = normalize_scopes body.scopes;
        expires_at = now + session_length;
      },
      ground arith,
      record {
        identity = identity;
        resolves = e;
        reported = refl;
        added = λ t.
            ground (arith, lookup-insert token t (session_for body identity) auth.tokens.inner);
      },
    )
  ]

  unchanged_sessions :
      (body : AuthRequestBody)
      → is_granted (request (some body)).1 ≡ false
      → (request (some body)).0.tokens ≡ auth.tokens
  unfolding auth_request enter cached_deny_response reject_foreign_uid finalize_consent_decision
  unchanged_sessions body g = ground arith

  -- Every answer but a grant leaves the session store untouched. A grant reports the fresh token with
  -- the normalized scopes and its end after 30 days, and the sessions are then those from before and
  -- that token's, for the caller's identity as the daemon resolved it.
  pub tokens-auth_request : (body : Option AuthRequestBody) → IsAccounted body (request body)
  unfolding auth_request
  tokens-auth_request none = inl (refl, refl)
  tokens-auth_request (some body) = elim (Bool-cases (is_granted (request (some body)).1)) [
    | inl g ↦ let (granted, r, a) = request-IsAdded body g in inr (body, granted, refl, r, a)
    | inr g ↦ inl (g, unchanged_sessions body g)
  ]

-- The tests on the scopes see only the set of them.
all_of_members :
    (p : Text → Bool) (xs ys : List Text)
    → ((a : Text) → Member a ys → Member a xs)
    → all p xs ≡ true
    → all p ys ≡ true
all_of_members p xs [] f h = refl
all_of_members p xs (y ∷ ys) f h =
    ground (
      arith,
      member_passes p xs y h (f y (inl refl)),
      all_of_members p xs ys (λ a m. f a (inr m)) h,
    )
  where
    member_passes :
        (p : Text → Bool) (xs : List Text) (a : Text) → all p xs ≡ true → Member a xs → p a ≡ true
    member_passes p [] a h m = elim m [ ]
    member_passes p (x ∷ xs) a h (inl e) = subst (λ b. p b ≡ true) e (ground arith)
    member_passes p (x ∷ xs) a h (inr m) = member_passes p xs a (ground arith) m

not_empty_of_members :
    (xs ys : List Text)
    → ((a : Text) → Member a xs → Member a ys)
    → is_empty xs ≡ false
    → is_empty ys ≡ false
not_empty_of_members [] ys f h = cc
not_empty_of_members (x ∷ xs) [] f h = absurd (f x (inl refl))
not_empty_of_members (x ∷ xs) (y ∷ ys) f h = refl

-- A request with all that decides its answer.
pub record Arrival : Type 0 where
  pub peer : Option PeerInfo
  pub body : Option AuthRequestBody
  pub token : Text
  pub decision : ConsentDecision
  pub now : ℕ

-- Requests one after another, the newest first.
abbrev pub after_requests : Host → List Arrival → Auth → Auth
after_requests host [] auth = auth
after_requests host (r ∷ rs) auth =
    (auth_request host (after_requests host rs auth) r.peer r.body r.token r.decision r.now).0

-- A denial is in force at a product.
abbrev InForce : Auth → ConsentKey → Auth → Type 0
InForce before key auth = (contains auth.deny_cache key ≡ true) × (auth.product ≡ before.product)

auth_request-InForce :
    (host : Host) (before auth : Auth) (key : ConsentKey) (r : Arrival)
    → InForce before key auth
    → InForce before key (auth_request host auth r.peer r.body r.token r.decision r.now).0
unfolding auth_request enter cached_deny_response reject_foreign_uid finalize_consent_decision
    deny_cache_insert
auth_request-InForce host before auth key r h = kept r.body
  where
    kept :
        (body : Option AuthRequestBody)
        → InForce before key (auth_request host auth r.peer body r.token r.decision r.now).0
    kept none = h
    kept (some body) = elim (Option-cases (resolve_peer_identity host.os r.peer)) [
      | inl e ↦ (ground (arith, h.0), ground (arith, h.1))
      | inr (identity, e) ↦ (ground (arith, h.0), ground (arith, h.1))
    ]

after_requests-InForce :
    (host : Host) (before auth : Auth) (key : ConsentKey) (rs : List Arrival)
    → InForce before key auth
    → InForce before key (after_requests host rs auth)
after_requests-InForce host before auth key [] h = h
after_requests-InForce host before auth key (r ∷ rs) h =
    auth_request-InForce host before (after_requests host rs auth) key r
      (after_requests-InForce host before auth key rs h)

-- What a denial by the user says of the request, and puts in force.
pub record IsDenied (host : Host) (auth : Auth) (peer : Option PeerInfo) (body : AuthRequestBody)
    (after : Auth) : Type 0 where
  pub identity : PeerIdentity
  pub resolves : resolve_peer_identity host.os peer ≡ some identity
  pub local : reject_foreign_uid host.uid peer ≡ none
  pub some_scope : is_empty body.scopes ≡ false
  pub known : all (is_known_scope auth.product) body.scopes ≡ true
  pub ordinary : is_official_client host.files auth.product identity ≡ false
  pub in_force : InForce auth (identity, normalize_scopes body.scopes) after

rejection_lem :
    (uid : ℕ) (peer : Option PeerInfo) (r : Response AuthOk)
    → reject_foreign_uid uid peer ≡ some r
    → r ≡ auth_err 403 uid_mismatch
unfolding reject_foreign_uid
rejection_lem uid peer r e = ground arith

denial-IsDenied :
    (host : Host) (auth : Auth) (peer : Option PeerInfo) (body : AuthRequestBody) (token : Text)
    (now : ℕ)
    → (auth_request host auth peer (some body) token deny now).1 ≡ auth_err 403 user_denied
    → IsDenied host auth peer body (auth_request host auth peer (some body) token deny now).0
unfolding auth_request enter cached_deny_response finalize_consent_decision deny_cache_contains
    deny_cache_insert
denial-IsDenied host auth peer body token now h =
    elim (Option-cases (reject_foreign_uid host.uid peer)) [
      | inr (r, e) ↦ absurd (ground (arith, rejection_lem host.uid peer r e))
      | inl local ↦ elim (Option-cases (resolve_peer_identity host.os peer)) [
        | inl e ↦ absurd (ground arith)
        | inr (identity, e) ↦
            let k : ConsentKey = (identity, normalize_scopes body.scopes) in
            record {
              identity = identity;
              resolves = e;
              local = local;
              some_scope = ground arith;
              known = ground arith;
              ordinary = ground arith;
              in_force = (ground (arith, key_eq.beq_iff k k), ground arith);
            }
      ]
    ]

refused_at_once :
    (host : Host) (auth after now_auth : Auth) (peer : Option PeerInfo)
    (body again : AuthRequestBody) (token : Text) (decision : ConsentDecision) (later : ℕ)
    → (d : IsDenied host auth peer body after)
    → ((a : Text) → Member a body.scopes ↔ Member a again.scopes)
    → InForce auth (d.identity, normalize_scopes body.scopes) now_auth
    → auth_request host now_auth peer (some again) token decision later
      ≡ (now_auth, auth_err 403 user_denied_cached)
unfolding auth_request enter cached_deny_response deny_cache_contains
refused_at_once host auth after now_auth peer body again token decision later d same
      (there, product) =
    let key = (normalize_scopes_iff body.scopes again.scopes).1 same in
    let some_scope = not_empty_of_members body.scopes again.scopes (λ a. (same a).0) d.some_scope in
    let known =
      all_of_members (is_known_scope auth.product) body.scopes again.scopes (λ a. (same a).1)
        d.known in
    ground (arith, key, some_scope, known, product, there, d.local, d.resolves, d.ordinary)

-- A denial is sticky: once the user has denied a request, and after any requests of anyone since, any
-- request of the same caller for the same set of scopes, in whatever order it lists them and under
-- whatever name, is refused at once, and changes nothing. The requests are taken to run one after another.
pub denial_sticks :
    (host : Host) (auth : Auth) (peer : Option PeerInfo) (body again : AuthRequestBody)
    (token token' : Text) (decision : ConsentDecision) (now later : ℕ) (since : List Arrival)
    → (auth_request host auth peer (some body) token deny now).1 ≡ auth_err 403 user_denied
    → ((a : Text) → Member a body.scopes ↔ Member a again.scopes)
    → auth_request host
        (after_requests host since (auth_request host auth peer (some body) token deny now).0)
        peer
        (some again)
        token'
        decision
        later
      ≡ (
        after_requests host since (auth_request host auth peer (some body) token deny now).0,
        auth_err 403 user_denied_cached,
      )
denial_sticks host auth peer body again token token' decision now later since h same =
    let denied = (auth_request host auth peer (some body) token deny now).0 in
    let d = denial-IsDenied host auth peer body token now h in
    refused_at_once host auth denied (after_requests host since denied) peer body again token'
      decision later d same
      (after_requests-InForce host auth denied (d.identity, normalize_scopes body.scopes) since
        d.in_force)
