-- ===== src/Auth/Consent/Locks/Exclusion.antt =====
-- auth/consent.rs: one request at a time asks the user about a key.
use super_engine.Prelude.{
  ℕ, ◌≤◌, ◌≡◌, refl, sym, ap, ◌∙◌, Bool, true, none, some, List, [], ◌∷◌, ◌==◌, nat_eq, ◌&&◌, count,
  if◌then◌else◌, All, lookup, Option-cases, Bool-cases, inl, inr, arith,
}
use super_engine.Auth.Consent.{ConsentKey, key_eq}
use super_engine.Auth.Consent.Locks.{
  Phase, waiting, asking, asked, released, gone, Request, Flows, is_asking, is_live, Reach,
}
use super_engine.Auth.Consent.Locks.Guarded.{HasEntry, asking_at, Reach-IsGuarded}

-- The requests that ask the user about a key.
abbrev pub asking_for : ConsentKey → Request → Bool
asking_for k r = is_asking r.phase && r.key == k

asking_live : (p : Phase) → is_asking p ≡ true → is_live p ≡ true
asking_live asking h = refl
asking_live waiting h = cc
asking_live asked h = cc
asking_live released h = cc
asking_live gone h = cc

-- What the map has for the key that a request asks about.
asking_entry :
    (table : List (ConsentKey × ℕ)) (k : ConsentKey) (r : Request)
    → HasEntry table r
    → asking_for k r ≡ true
    → lookup k table ≡ some r.lock
asking_entry table k r h a =
    let same : (r.key == k) ≡ true = ground (arith, a) in
    sym (ap (λ j. lookup j table) ((key_eq.beq_iff r.key k).0 same))
    ∙ h (asking_live r.phase (ground (arith, a)))

asking-le-askers :
    (table : List (ConsentKey × ℕ)) (k : ConsentKey) (l : ℕ) (rs : List Request)
    → lookup k table ≡ some l
    → All (HasEntry table) rs
    → count (asking_for k) rs ≤ count (asking_at l) rs
asking-le-askers table k l [] e h = omega arith
asking-le-askers table k l (r ∷ rs) e (h, hs) =
    let rest = asking-le-askers table k l rs e hs in
    elim (Bool-cases (asking_for k r)) [
      | inr idle ↦ omega (arith, rest, ap {B = ℕ} (λ b. if b then 1 else 0) idle)
      | inl asks ↦
          let same = sym (asking_entry table k r h asks) ∙ e in
          ground (arith, rest, asks, same, nat_eq.beq_iff r.lock l)
    ]

asking-none :
    (table : List (ConsentKey × ℕ)) (k : ConsentKey) (rs : List Request)
    → lookup k table ≡ none
    → All (HasEntry table) rs
    → count (asking_for k) rs ≡ 0
asking-none table k [] e h = refl
asking-none table k (r ∷ rs) e (h, hs) = elim (Bool-cases (asking_for k r)) [
  | inr idle ↦ omega (arith, asking-none table k rs e hs, ap {B = ℕ} (λ b. if b then 1 else 0) idle)
  | inl asks ↦ absurd (ground (arith, sym (asking_entry table k r h asks) ∙ e))
]

-- In every state that any interleaving of consent requests can reach, requests whose caller goes away
-- included, at most one request at a time asks the user about a key.
pub Reach-one_asker : (f : Flows) → Reach f → (k : ConsentKey) → count (asking_for k) f.requests ≤ 1
Reach-one_asker f reach k =
    let (entries, held, one) = Reach-IsGuarded reach in
    elim (Option-cases (lookup k f.locks.locks)) [
      | inl e ↦ omega (arith, asking-none f.locks.locks k f.requests e entries)
      | inr (l, e) ↦ omega (arith, asking-le-askers f.locks.locks k l f.requests e entries, one l)
    ]
