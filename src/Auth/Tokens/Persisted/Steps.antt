-- ===== src/Auth/Tokens/Persisted/Steps.antt =====
-- auth/tokens.rs: the file and the map through one action of the store.
use super_engine.Prelude.{
  ℕ, ◌+◌, ◌≡◌, refl, sym, Bool, true, false, Option, none, some, List, [], ◌∷◌, ◌++◌, is_empty, ltb,
  bytes_eq, if◌then◌else◌, Text, lookup, insert, remove, arith, Option-cases, Bool-cases, inl, inr,
  is_some, subst,
}
use super_engine.Auth.Peer.{PeerIdentity}
use super_engine.Auth.Tokens.{
  Sessions, PersistMsg, wake, flush, TokenStore, submit, mint, validate, revoke, request_flush,
  drain, take, write, Action, minting, validating, revoking, flushing, draining, taking,
  writing_file, act, session_length, Phase, receiving, drained, writing,
}

-- What the file still lacks is pending or being written, and what is pending will be woken for.
abbrev pub Synced : Option Sessions → Phase → List PersistMsg → Sessions → Sessions → Type 0
Synced none (writing w) q inner file = w ≡ inner
Synced none _ q inner file = file ≡ inner
Synced (some p) drained q inner file = p ≡ inner
Synced (some p) _ q inner file = (p ≡ inner) × (is_empty q ≡ false)

abbrev pub InSync : TokenStore → Type 0
InSync s = Synced s.pending s.task s.queue s.inner s.file

is_empty-append_one : (q : List PersistMsg) (m : PersistMsg) → is_empty (q ++ m ∷ []) ≡ false
is_empty-append_one [] m = refl
is_empty-append_one (x ∷ q) m = refl

-- A new snapshot of the whole map replaces the pending one.
submit-InSync :
    (s : TokenStore) (t : Sessions) → InSync s → InSync (submit (record s { inner = t }) t)
unfolding submit
submit-InSync s t h = go s.pending s.task h
  where
    go :
        (p : Option Sessions) (k : Phase)
        → Synced p k s.queue s.inner s.file
        → Synced (some t) k (if is_some p then s.queue else s.queue ++ wake ∷ []) t s.file
    go none receiving v = (refl, is_empty-append_one s.queue wake)
    go none drained v = refl
    go none (writing w) v = (refl, is_empty-append_one s.queue wake)
    go (some p) receiving v = (refl, v.1)
    go (some p) drained v = refl
    go (some p) (writing w) v = (refl, v.1)

flush-InSync :
    (q : List PersistMsg) (i f : Sessions) (p : Option Sessions) (k : Phase)
    → Synced p k q i f
    → Synced p k (q ++ flush ∷ []) i f
flush-InSync q i f none receiving v = v
flush-InSync q i f none drained v = v
flush-InSync q i f none (writing w) v = v
flush-InSync q i f (some p) receiving v = (v.0, is_empty-append_one q flush)
flush-InSync q i f (some p) drained v = v
flush-InSync q i f (some p) (writing w) v = (v.0, is_empty-append_one q flush)

-- One action of the callers or of the persist task keeps the file in step, unless a write fails.
module _ (s u : TokenStore) (l : u.lost ≡ false) (v : s.lost ≡ false → InSync s) where
  submit_step : (t : Sessions) → submit (record s { inner = t }) t ≡ u → InSync u
  unfolding submit
  submit_step t e = subst InSync e (submit-InSync s t (v (ground arith)))

  same_step : s ≡ u → InSync u
  same_step e = subst InSync e (v (ground arith))

  minting_step :
      (token app : Text) (scopes : List Text) (who : PeerIdentity) (now : ℕ)
      → act s (minting token app scopes who now) ≡ some u
      → InSync u
  unfolding act mint submit
  minting_step token app scopes who now h =
      submit_step
        (insert token
          (record {
            app_name = app;
            scopes = scopes;
            grantee = who;
            issued_at = now;
            expires_at = now + session_length;
          })
          s.inner)
        (ground arith)

  validating_step : (t : Text) (now : ℕ) → act s (validating t now) ≡ some u → InSync u
  unfolding act validate submit
  validating_step t now h = elim (Option-cases (lookup t s.inner)) [
    | inl e ↦ same_step (ground arith)
    | inr (meta, e) ↦ elim (Bool-cases (ltb meta.expires_at now)) [
      | inl old ↦ submit_step (remove t s.inner) (ground arith)
      | inr fresh ↦ same_step (ground arith)
    ]
  ]

  revoking_step : (t : Text) → act s (revoking t) ≡ some u → InSync u
  unfolding act revoke submit
  revoking_step t h = elim (Option-cases (lookup t s.inner)) [
    | inl e ↦ same_step (ground arith)
    | inr (meta, e) ↦ submit_step (remove t s.inner) (ground arith)
  ]

  flushing_step : act s flushing ≡ some u → InSync u
  unfolding act request_flush
  flushing_step h =
      let e : record s { queue = s.queue ++ flush ∷ [] } ≡ u = cc h in
      subst InSync e (flush-InSync s.queue s.inner s.file s.pending s.task (v (ground arith)))

  draining_step : act s draining ≡ some u → InSync u
  unfolding act drain
  draining_step h = go s.pending s.task refl refl (v (ground arith))
    where
      go :
          (p : Option Sessions) (k : Phase)
          → s.pending ≡ p
          → s.task ≡ k
          → Synced p k s.queue s.inner s.file
          → InSync u
      go p receiving ep ek w =
          let e : record s { queue = []; task = drained } ≡ u = ground arith in
          subst InSync e (subst (λ o. Synced o drained [] s.inner s.file) (sym ep) (now p w))
        where
          now :
              (p : Option Sessions)
              → Synced p receiving s.queue s.inner s.file
              → Synced p drained [] s.inner s.file
          now none w = w
          now (some p) w = w.0
      go p drained ep ek w = absurd (ground arith)
      go p (writing x) ep ek w = absurd (ground arith)

  taking_step : act s taking ≡ some u → InSync u
  unfolding act take
  taking_step h = go s.pending s.task refl refl (v (ground arith))
    where
      go :
          (p : Option Sessions) (k : Phase)
          → s.pending ≡ p
          → s.task ≡ k
          → Synced p k s.queue s.inner s.file
          → InSync u
      go none drained ep ek w =
          let e : record s { task = receiving } ≡ u = ground arith in
          subst InSync e (subst (λ o. Synced o receiving s.queue s.inner s.file) (sym ep) w)
      go (some p) drained ep ek w =
          let e : record s { pending = none; task = writing p } ≡ u = ground arith in
          subst InSync e w
      go p receiving ep ek w = absurd (ground arith)
      go p (writing x) ep ek w = absurd (ground arith)

  writing_step : (works : Bool) → act s (writing_file works) ≡ some u → InSync u
  unfolding act write
  writing_step false h = absurd (ground arith)
  writing_step true h = go s.pending s.task refl refl (v (ground arith))
    where
      go :
          (p : Option Sessions) (k : Phase)
          → s.pending ≡ p
          → s.task ≡ k
          → Synced p k s.queue s.inner s.file
          → InSync u
      go none (writing x) ep ek w =
          let e : record s { file = x; task = receiving } ≡ u = ground arith in
          subst InSync e (subst (λ o. Synced o receiving s.queue s.inner x) (sym ep) w)
      go (some p) (writing x) ep ek w =
          let e : record s { file = x; task = receiving } ≡ u = ground arith in
          subst InSync e (subst (λ o. Synced o receiving s.queue s.inner x) (sym ep) w)
      go p receiving ep ek w = absurd (ground arith)
      go p drained ep ek w = absurd (ground arith)

pub act-InSync :
    (s u : TokenStore) (a : Action)
    → act s a ≡ some u
    → u.lost ≡ false
    → (s.lost ≡ false → InSync s)
    → InSync u
act-InSync s u (minting token app scopes who now) h l v =
    minting_step s u l v token app scopes who now h
act-InSync s u (validating t now) h l v = validating_step s u l v t now h
act-InSync s u (revoking t) h l v = revoking_step s u l v t h
act-InSync s u flushing h l v = flushing_step s u l v h
act-InSync s u draining h l v = draining_step s u l v h
act-InSync s u taking h l v = taking_step s u l v h
act-InSync s u (writing_file works) h l v = writing_step s u l v works h

-- Pruning that drops nothing changes nothing.
