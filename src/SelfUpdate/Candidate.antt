-- ===== src/SelfUpdate/Candidate.antt =====
-- self_update.rs: the candidate of a check is the newest release of its channel.
use super_engine.Prelude.{
  ◌≡◌, ◌⊎◌, refl, sym, ap, subst, ◌∙◌, Bool, true, Option, none, some, List, [], ◌∷◌, Bool-cases,
  Option-cases, inl, inr, arith, Member,
}
use super_engine.Forge.{Release}
use super_engine.Spec.Version.{Semver, IsOrdered, parse_version}
use super_engine.SelfUpdate.{is_eligible, best_of, release_of, select_candidate}

module _ {V : Type 0} (sv : Semver V) (ordered : IsOrdered sv) (include : Bool) where
  -- A release that the channel admits, at its version.
  abbrev pub Counts : Release → V → Type 0
  Counts r v = (is_eligible include r.kind ≡ true) × (parse_version sv r.tag ≡ some v)

  -- No release of the channel in a list is newer than a version.
  abbrev pub IsNewest : V → List Release → Type 0
  IsNewest v rs = (r : Release) (w : V) → Member r rs → Counts r w → sv.le w v ≡ true

  IsNewest-cons :
      (v : V) (r : Release) (rs : List Release)
      → ((w : V) → Counts r w → sv.le w v ≡ true)
      → IsNewest v rs
      → IsNewest v (r ∷ rs)
  IsNewest-cons v r rs h newest q w (inl e) c = h w (subst (λ x. Counts x w) (sym e) c)
  IsNewest-cons v r rs h newest q w (inr m) c = newest q w m c

  -- What the fold comes to from a best release: that one or one of the list, and none is newer.
  abbrev Found : V × Release → List Release → Option (V × Release) → Type 0
  Found best rs out =
      (p : V × Release) × (out ≡ some p)
      × (sv.le best.0 p.0 ≡ true)
      × IsNewest p.0 rs
      × ((best ≡ p) ⊎ (Member p.1 rs × Counts p.1 p.0))

  -- A release that the fold passes over.
  Found-skip :
      (best : V × Release) (r : Release) (rs : List Release) (out : Option (V × Release))
      → ((w : V) → Counts r w → sv.le w best.0 ≡ true)
      → Found best rs out
      → Found best (r ∷ rs) out
  Found-skip best r rs out h (p, e, le, newest, from) = (
    p,
    e,
    le,
    IsNewest-cons p.0 r rs (λ w c. ordered.trans w best.0 p.0 (h w c) le) newest,
    elim from [ inl same ↦ inl same | inr (m, c) ↦ inr (inr m, c) ],
  )

  -- A release that is the best from then on.
  Found-take :
      (best : V × Release) (r : Release) (v : V) (rs : List Release) (out : Option (V × Release))
      → Counts r v
      → sv.le best.0 v ≡ true
      → Found (v, r) rs out
      → Found best (r ∷ rs) out
  Found-take best r v rs out c up (p, e, le, newest, from) = (
    p,
    e,
    ordered.trans best.0 v p.0 up le,
    IsNewest-cons p.0 r rs
        (λ w d. subst (λ x. sv.le x p.0 ≡ true) (ground (arith, sym c.1 ∙ d.1)) le) newest,
    elim from [
      | inl same ↦ inr (inl (ap (λ q. q.1) same), subst (λ q. Counts q.1 q.0) same c)
      | inr (m, d) ↦ inr (inr m, d)
    ],
  )

  best_of-Found :
      (best : V × Release) (rs : List Release) → Found best rs (best_of sv include (some best) rs)
  best_of-Found best [] = (best, refl, ordered.self best.0, (λ q w m c. absurd m), inl refl)
  best_of-Found best (r ∷ rs) = elim (Bool-cases (is_eligible include r.kind)) [
    | inr barred ↦
        subst (λ b. Found best (r ∷ rs) (best_of sv include b rs)) (rw barred)
          (Found-skip best r rs (best_of sv include (some best) rs)
            (λ w c. absurd (ground (arith, barred, c.0))) (best_of-Found best rs))
    | inl admitted ↦ elim (Option-cases (parse_version sv r.tag)) [
      | inl unread ↦
          subst (λ b. Found best (r ∷ rs) (best_of sv include b rs)) (rw (admitted, unread))
            (Found-skip best r rs (best_of sv include (some best) rs)
              (λ w c. absurd (ground (arith, unread, c.1))) (best_of-Found best rs))
      | inr (v, parsed) ↦ elim (Bool-cases (sv.le best.0 v)) [
        | inl up ↦
            subst (λ b. Found best (r ∷ rs) (best_of sv include b rs)) (rw (admitted, parsed, up))
              (Found-take best r v rs (best_of sv include (some (v, r)) rs) (admitted, parsed) up
                (best_of-Found (v, r) rs))
        | inr down ↦
            subst (λ b. Found best (r ∷ rs) (best_of sv include b rs)) (rw (admitted, parsed, down))
              (Found-skip best r rs (best_of sv include (some best) rs)
                (λ w c.
                  subst (λ x. sv.le x best.0 ≡ true) (ground (arith, sym parsed ∙ c.1))
                    (ordered.total best.0 v down))
                (best_of-Found best rs))
      ]
    ]
  ]

  -- Before any release is found, the fold finds the newest, or there is none.
  abbrev Searched : List Release → Option (V × Release) → Type 0
  Searched rs none = (r : Release) (w : V) → Member r rs → Counts r w → ⊥
  Searched rs (some p) = IsNewest p.0 rs × Member p.1 rs × Counts p.1 p.0

  Found-Searched :
      (r : Release) (v : V) (rs : List Release) (out : Option (V × Release))
      → Counts r v
      → Found (v, r) rs out
      → Searched (r ∷ rs) out
  Found-Searched r v rs out c (p, e, le, newest, from) = subst (Searched (r ∷ rs)) (sym e) (
    IsNewest-cons p.0 r rs
        (λ w d. subst (λ x. sv.le x p.0 ≡ true) (ground (arith, sym c.1 ∙ d.1)) le) newest,
    elim from [ inl same ↦ inl (ap (λ q. q.1) same) | inr (m, d) ↦ inr m ],
    elim from [ inl same ↦ subst (λ q. Counts q.1 q.0) same c | inr (m, d) ↦ d ],
  )

  Searched-skip :
      (r : Release) (rs : List Release) (out : Option (V × Release))
      → ((w : V) → Counts r w → ⊥)
      → Searched rs out
      → Searched (r ∷ rs) out
  Searched-skip r rs none h searched = λ q w m c. elim m [
    | inl e ↦ h w (subst (λ x. Counts x w) (sym e) c)
    | inr n ↦ searched q w n c
  ]
  Searched-skip r rs (some p) h (newest, m, c) =
      (IsNewest-cons p.0 r rs (λ w d. absurd (h w d)) newest, inr m, c)

  best_of-Searched : (rs : List Release) → Searched rs (best_of sv include none rs)
  best_of-Searched [] = λ r w m c. m
  best_of-Searched (r ∷ rs) = elim (Bool-cases (is_eligible include r.kind)) [
    | inr barred ↦
        subst (λ b. Searched (r ∷ rs) (best_of sv include b rs)) (rw barred)
          (Searched-skip r rs (best_of sv include none rs)
            (λ w c. absurd (ground (arith, barred, c.0))) (best_of-Searched rs))
    | inl admitted ↦ elim (Option-cases (parse_version sv r.tag)) [
      | inl unread ↦
          subst (λ b. Searched (r ∷ rs) (best_of sv include b rs)) (rw (admitted, unread))
            (Searched-skip r rs (best_of sv include none rs)
              (λ w c. absurd (ground (arith, unread, c.1))) (best_of-Searched rs))
      | inr (v, parsed) ↦
          subst (λ b. Searched (r ∷ rs) (best_of sv include b rs)) (rw (admitted, parsed))
            (Found-Searched r v rs (best_of sv include (some (v, r)) rs) (admitted, parsed)
              (best_of-Found (v, r) rs))
    ]
  ]

  abbrev pub IsCandidate : List Release → Option Release → Type 0
  IsCandidate rs none = (r : Release) (w : V) → Member r rs → Counts r w → ⊥
  IsCandidate rs (some r) = Member r rs × ((v : V) × Counts r v × IsNewest v rs)

  -- The candidate of a check is a release of the listing that the channel admits, with a version that
  -- reads, and no such release is newer; there is none only where the listing has no such release. The
  -- order of versions is total.
  pub select_candidate-IsCandidate :
      (rs : List Release) → IsCandidate rs (select_candidate sv rs include)
  unfolding select_candidate
  select_candidate-IsCandidate rs = candidate (best_of sv include none rs) (best_of-Searched rs)
    where
      candidate : (out : Option (V × Release)) → Searched rs out → IsCandidate rs (release_of out)
      candidate none h = h
      candidate (some (v, r)) (newest, m, c) = (m, (v, c, newest))
