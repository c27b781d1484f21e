-- ===== src/Auth/Tokens/Sessions.antt =====
-- auth/tokens.rs: which tokens the store accepts.
use super_engine.Prelude.{
  ℕ, ◌+◌, ◌≡◌, false, Option, none, some, List, [], ◌∷◌, ltb, ◌==◌, bytes_eq, if◌then◌else◌, Text,
  Result, ok, err, is_ok, lookup, lookup-insert, lookup-remove, All, arith, Option-cases, inl, inr,
  ◌>>=◌,
}
use super_engine.Auth.Peer.{PeerIdentity, identity_eq}
use super_engine.Auth.Tokens.{
  TokenMeta, TokenStore, submit, session_length, mint, Invalid, unknown, expired, validate, revoke,
  request_flush, drain, take, write, Action, minting, validating, revoking, act,
}

-- What `validate` answers, by the map alone.
abbrev pub answer : Option TokenMeta → ℕ → Result TokenMeta Invalid
answer none now = err unknown
answer (some meta) now = if ltb meta.expires_at now then err expired else ok meta

validate-eq-answer :
    (s : TokenStore) (t : Text) (now : ℕ) → (validate s t now).1 ≡ answer (lookup t s.inner) now
unfolding validate
validate-eq-answer s t now = ground arith

-- After a token is minted it is accepted, with exactly what the user granted, until 30 days have
-- passed, and every other token is answered as before.
pub validate-mint :
    (s : TokenStore) (token app : Text) (scopes : List Text) (who : PeerIdentity) (now : ℕ)
    (j : Text) (later : ℕ)
    → (validate (mint s token app scopes who now).0 j later).1 ≡ (
        if token == j
        then (if ltb (now + session_length) later
            then err expired
            else ok (record {
              app_name = app;
              scopes = scopes;
              grantee = who;
              issued_at = now;
              expires_at = now + session_length;
            }))
        else (validate s j later).1)
unfolding mint submit
validate-mint s token app scopes who now j later =
    let meta : TokenMeta = record {
      app_name = app;
      scopes = scopes;
      grantee = who;
      issued_at = now;
      expires_at = now + session_length;
    } in
    ground (
      arith,
      validate-eq-answer (mint s token app scopes who now).0 j later,
      validate-eq-answer s j later,
      lookup-insert token j meta s.inner,
    )

-- A revoked token is unknown from then on, and every other token is answered as before.
pub validate-revoke :
    (s : TokenStore) (token j : Text) (now : ℕ)
    → (validate (revoke s token) j now).1
      ≡ (if token == j then err unknown else (validate s j now).1)
unfolding revoke submit
validate-revoke s token j now = ground (
  arith,
  validate-eq-answer (revoke s token) j now,
  validate-eq-answer s j now,
  lookup-remove token j s.inner,
  bytes_eq.beq_iff token j,
)

-- A refused token leaves the map: the second answer is `unknown`, at any later time; an accepted
-- one is answered the same again at that time. The answers for other tokens do not change.
pub validate-validate :
    (s : TokenStore) (t j : Text) (now later : ℕ)
    → (validate (validate s t now).0 j later).1 ≡ (
        if t == j
        then (if is_ok (validate s t now).1 then (validate s t later).1 else err unknown)
        else (validate s j later).1)
unfolding validate
validate-validate s t j now later = elim (Option-cases (lookup t s.inner)) [
  | inl e ↦ ground (arith, bytes_eq.beq_iff t j)
  | inr (meta, e) ↦ ground (arith, bytes_eq.beq_iff t j, lookup-remove t j s.inner)
]

-- The actions that do not mint a given token.
abbrev pub DoesNotMint : Text → Action → Type 0
DoesNotMint t (minting token app scopes who now) = (token == t) ≡ false
DoesNotMint t _ = Unit

act-unknown :
    (s u : TokenStore) (a : Action) (t : Text)
    → act s a ≡ some u
    → DoesNotMint t a
    → lookup t s.inner ≡ none
    → lookup t u.inner ≡ none
unfolding act mint validate revoke request_flush drain take write
act-unknown s u (minting token app scopes who now) t h d n = ground (
  arith,
  lookup-insert token t
      (record {
        app_name = app;
        scopes = scopes;
        grantee = who;
        issued_at = now;
        expires_at = now + session_length;
      })
      s.inner,
)
act-unknown s u (validating j now) t h d n = ground (arith, lookup-remove j t s.inner)
act-unknown s u (revoking j) t h d n = ground (arith, lookup-remove j t s.inner)
act-unknown s u a t h d n = ground arith

-- Any number of actions, one after another; `none` where one of them cannot happen.
unfoldable pub acts : TokenStore → List Action → Option TokenStore
acts s [] = some s
acts s (a ∷ more) = act s a >>= λ u. acts u more

-- A token that is gone, revoked or evicted, is never accepted again, whatever happens in whatever
-- order, unless the very same token is minted anew.
pub gone_stays_gone :
    (s u : TokenStore) (actions : List Action) (t : Text) (now : ℕ)
    → acts s actions ≡ some u
    → All (DoesNotMint t) actions
    → lookup t s.inner ≡ none
    → (validate u t now).1 ≡ err unknown
unfolding acts
gone_stays_gone s u [] t now h d n =
    let e : s ≡ u = cc in ground (arith, validate-eq-answer u t now)
gone_stays_gone s u (a ∷ more) t now h (d, ds) n = elim (Option-cases (act s a)) [
  | inl e ↦ absurd (ground arith)
  | inr (v, e) ↦ gone_stays_gone v u more t now (rw e at h) ds (act-unknown s v a t e d n)
]
