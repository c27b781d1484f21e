-- ===== src/Auth/Middleware/Guards.antt =====
-- auth/middleware.rs: the bearer-token guards, and the life of a token through them.
use super_engine.Prelude.{
  ℕ, ◌+◌, ◌≡◌, ◌↔◌, refl, ap, false, Option, none, some, List, [], ◌∷◌, ◌++◌, ◌==◌, nat_eq,
  bytes_eq, ltb, if◌then◌else◌, Text, text, contains, Member, contains_iff, lookup, strip_prefix,
  lookup-insert, Option-cases, inl, inr, arith, ok, err,
}
use super_engine.Auth.Peer.{PeerInfo, PeerIdentity, Os, resolve_peer_identity, identity_eq}
use super_engine.Auth.State.{
  Auth, passed, invalid_session, scope_denied, unknown, expired, exe_changed,
}
use super_engine.Auth.Tokens.{TokenMeta, session_length, Invalid, mint, validate, submit}
use super_engine.Auth.Tokens.Sessions.{validate-revoke}
use super_engine.Auth.Middleware.{extract_bearer_token, AuthContext, require_scope}

strip_prefix-append : (p s : Text) → strip_prefix p (p ++ s) ≡ some s
unfolding strip_prefix
strip_prefix-append [] s = refl
strip_prefix-append (c ∷ p) s = ground (arith, strip_prefix-append p s)

-- Why a request may pass: its token names a live session of the very caller, with the scope.
pub record IsAdmitted (os : Os) (required : Text) (auth : Auth) (peer : Option PeerInfo) (now : ℕ)
    (ctx : AuthContext) : Type 0 where
  pub issued : lookup ctx.token auth.tokens.inner ≡ some ctx.meta
  pub live : ltb ctx.meta.expires_at now ≡ false
  pub same_caller : resolve_peer_identity os peer ≡ some ctx.meta.grantee
  pub scope : Member required ctx.meta.scopes

module _ (os : Os) (required : Text) (auth : Auth) (authorization : Option Text) (token : Text)
    (peer : Option PeerInfo) (now : ℕ)
    (header : extract_bearer_token authorization ≡ some token) where
  passes_to :
      (meta : TokenMeta)
      → (require_scope os required auth authorization peer now).1
        ≡ passed (record { meta = meta; token = token })
      → IsAdmitted os required auth peer now (record { meta = meta; token = token })
  unfolding require_scope validate
  passes_to meta h = elim (Option-cases (lookup token auth.tokens.inner)) [
    | inl e ↦ absurd (ground (arith, header))
    | inr (m, e) ↦ elim (Option-cases (resolve_peer_identity os peer)) [
      | inl r ↦ absurd (ground (arith, header))
      | inr (who, r) ↦ record {
        issued = ground (arith, header);
        live = ground (arith, header);
        same_caller = ground (arith, header, identity_eq.beq_iff m.grantee who);
        scope = (contains_iff meta.scopes required).0 (ground (arith, header));
      }
    ]
  ]

  passes_from :
      (meta : TokenMeta)
      → IsAdmitted os required auth peer now (record { meta = meta; token = token })
      → require_scope os required auth authorization peer now
        ≡ (auth, passed (record { meta = meta; token = token }))
  unfolding require_scope validate
  passes_from meta a = ground (
    arith,
    header,
    a.issued,
    a.live,
    a.same_caller,
    identity_eq.beq_iff meta.grantee meta.grantee,
    (contains_iff meta.scopes required).1 a.scope,
  )

  -- With a bearer token, a request passes the scope guard exactly if the token names a session
  -- that has not expired, that was granted to the caller as the daemon identifies it now, and that
  -- holds the scope. A request that passes changes nothing.
  pub require_scope_iff :
      (meta : TokenMeta)
      → (((require_scope os required auth authorization peer now).1
            ≡ passed (record { meta = meta; token = token }))
          ↔ IsAdmitted os required auth peer now (record { meta = meta; token = token }))
        × ((require_scope os required auth authorization peer now).1
              ≡ passed (record { meta = meta; token = token })
            → (require_scope os required auth authorization peer now).0 ≡ auth)
  require_scope_iff meta = (
    (passes_to meta, λ a. ap (λ r. r.1) (passes_from meta a)),
    λ h. ap (λ r. r.0) (passes_from meta (passes_to meta h)),
  )

  -- A live token shown by another caller, one that the daemon can identify, is revoked on the spot:
  -- the answer is `exe_changed`, and from then on the token is unknown to everyone at any time.
  pub stolen_token_revoked :
      (meta : TokenMeta) (who : PeerIdentity) (later : ℕ)
      → lookup token auth.tokens.inner ≡ some meta
      → ltb meta.expires_at now ≡ false
      → resolve_peer_identity os peer ≡ some who
      → (meta.grantee == who) ≡ false
      → ((require_scope os required auth authorization peer now).1 ≡ invalid_session exe_changed)
        × ((validate (require_scope os required auth authorization peer now).0.tokens token later).1
            ≡ err Invalid.unknown)
  unfolding require_scope
  stolen_token_revoked meta who later issued live caller other =
      let v : validate auth.tokens token now ≡ (auth.tokens, ok meta) =
        unfold validate in ground arith in
      (
        ground (arith, header, v),
        ground (
          arith,
          header,
          v,
          validate-revoke auth.tokens token token later,
          bytes_eq.beq_iff token token,
        ),
      )

-- The first use of a token at the guard after its grant, with nothing in between, by any caller at
-- any time. The caller it was granted to passes for the granted scopes until 30 days have passed and
-- is refused other scopes; a caller that the daemon cannot identify is refused; any other one is
-- refused, whatever the scope; and after 30 days the answer is that the session has expired.
pub require_scope-mint :
    (os : Os) (auth : Auth) (token app required : Text) (scopes : List Text) (who : PeerIdentity)
    (now later : ℕ) (peer : Option PeerInfo)
    → (require_scope os required
        (record auth { tokens = (mint auth.tokens token app scopes who now).0 })
        (some (text "Bearer " ++ token))
        peer
        later).1
      ≡ (if ltb (now + session_length) later
          then invalid_session expired
          else (elim (resolve_peer_identity os peer) [
            | none ↦ invalid_session unknown
            | some caller ↦
                if who == caller
                then (if contains scopes required
                    then passed (record {
                      meta = record {
                        app_name = app;
                        scopes = scopes;
                        grantee = who;
                        issued_at = now;
                        expires_at = now + session_length;
                      };
                      token = token;
                    })
                    else scope_denied)
                else invalid_session exe_changed
          ]))
unfolding require_scope validate mint submit extract_bearer_token
require_scope-mint os auth token app required scopes who now later peer =
    let meta : TokenMeta = record {
      app_name = app;
      scopes = scopes;
      grantee = who;
      issued_at = now;
      expires_at = now + session_length;
    } in
    ground (
      arith,
      strip_prefix-append (text "Bearer ") token,
      lookup-insert token token meta auth.tokens.inner,
      bytes_eq.beq_iff token token,
    )
