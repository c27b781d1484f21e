-- ===== src/Registry/Ranking.antt =====
-- registry/compat.rs: the `filter_map` and `reduce` that both selections share, and first maxima.
use super_engine.Prelude.{
  ℕ, ◌≡◌, refl, subst, sym, ap, ◌∙◌, Member, Bool, true, false, not, Option, none, some, List, [],
  ◌∷◌, nat_eq, ltb, if◌then◌else◌, Bool-cases, Option-cases, inl, inr, ◌⊎◌, All, arith,
}

-- The tuple of `score`, with the order of tuples.
pub record Score : Type 0 where
  pub rank : ℕ
  pub major : ℕ
  pub exact : ℕ
  pub extra : ℕ

unfoldable pub beats : Score → Score → Bool
beats s t =
    if ltb t.rank s.rank
    then true
    else if ltb s.rank t.rank
    then false
    else if ltb t.major s.major
    then true
    else if ltb s.major t.major
    then false
    else if ltb t.exact s.exact
    then true
    else if ltb s.exact t.exact
    then false
    else ltb t.extra s.extra

module _ {A : Type 0} where
  abbrev pub better : Score × A → Score × A → Score × A
  better best next = if beats next.0 best.0 then next else best

  unfoldable pub reduce_from : Score × A → List (Score × A) → Score × A
  reduce_from best [] = best
  reduce_from best (next ∷ more) = reduce_from (better best next) more

  abbrev pub reduce : List (Score × A) → Option (Score × A)
  reduce [] = none
  reduce (x ∷ xs) = some (reduce_from x xs)

  -- Where the first maximum stands: nothing before it is as good, nothing after it is better.
  IsFirstBest : Score × A → List (Score × A) → Type 0
  IsFirstBest r [] = ⊥
  IsFirstBest r (x ∷ xs) =
      ((x ≡ r) × All (λ y. beats y.0 r.0 ≡ false) xs) ⊎ ((beats r.0 x.0 ≡ true) × IsFirstBest r xs)

beats_trans : (s t u : Score) → beats s t ≡ true → beats t u ≡ true → beats s u ≡ true
unfolding beats
beats_trans s t u h k = ground arith

pub beats_irrefl : (s : Score) → beats s s ≡ false
unfolding beats
beats_irrefl s = ground arith

beats-after : (s t u : Score) → beats s t ≡ true → beats u t ≡ false → beats s u ≡ true
unfolding beats
beats-after s t u h k = ground arith

beats-before : (s t u : Score) → beats s t ≡ false → beats u t ≡ true → beats s u ≡ false
unfolding beats
beats-before s t u h k = ground arith

module _ {A : Type 0} where
  first-as-good :
      (r x : Score × A) (xs : List (Score × A))
      → IsFirstBest r (x ∷ xs)
      → (x ≡ r) ⊎ (beats r.0 x.0 ≡ true)
  unfolding IsFirstBest
  first-as-good r x xs (inl h) = inl h.0
  first-as-good r x xs (inr h) = inr h.0

  extend-lost :
      (r best next : Score × A) (xs : List (Score × A))
      → beats next.0 best.0 ≡ true
      → IsFirstBest r (next ∷ xs)
      → IsFirstBest r (best ∷ next ∷ xs)
  unfolding IsFirstBest
  extend-lost r best next xs lost h = inr (
    elim (first-as-good r next xs h) [
      | inl e ↦ subst (λ y. beats y.0 best.0 ≡ true) e lost
      | inr more ↦ beats_trans r.0 next.0 best.0 more lost
    ],
    h,
  )

  extend-kept :
      (r best next : Score × A) (xs : List (Score × A))
      → beats next.0 best.0 ≡ false
      → IsFirstBest r (best ∷ xs)
      → IsFirstBest r (best ∷ next ∷ xs)
  unfolding IsFirstBest
  extend-kept r best next xs kept (inl (e, all)) =
      inl (e, (subst (λ y. beats next.0 y.0 ≡ false) e kept, all))
  extend-kept r best next xs kept (inr (m, h)) =
      inr (m, inr (beats-after r.0 best.0 next.0 m kept, h))

  split_first :
      (r x : Score × A) (xs : List (Score × A))
      → IsFirstBest r (x ∷ xs)
      → ((x ≡ r) × All (λ y. beats y.0 r.0 ≡ false) xs)
        ⊎ ((beats r.0 x.0 ≡ true) × IsFirstBest r xs)
  unfolding IsFirstBest
  split_first r x xs h = h

  alone-IsFirstBest : (best : Score × A) → IsFirstBest best (best ∷ [])
  unfolding IsFirstBest
  alone-IsFirstBest best = inl (refl, tt)

  reduce_from-IsFirstBest :
      (best : Score × A) (xs : List (Score × A)) → IsFirstBest (reduce_from best xs) (best ∷ xs)
  unfolding reduce_from
  reduce_from-IsFirstBest best [] = alone-IsFirstBest best
  reduce_from-IsFirstBest best (next ∷ xs) = elim (Bool-cases (beats next.0 best.0)) [
    | inl e ↦
        subst (λ b. IsFirstBest (reduce_from b xs) (best ∷ next ∷ xs)) (sym (rw e refl))
          (extend-lost (reduce_from next xs) best next xs e (reduce_from-IsFirstBest next xs))
    | inr e ↦
        subst (λ b. IsFirstBest (reduce_from b xs) (best ∷ next ∷ xs)) (sym (rw e refl))
          (extend-kept (reduce_from best xs) best next xs e (reduce_from-IsFirstBest best xs))
  ]

abbrev pub is_better : Option Score → Score → Bool
is_better none s = false
is_better (some t) s = beats t s

abbrev pub is_as_good : Option Score → Score → Bool
is_as_good none s = false
is_as_good (some t) s = not (beats s t)

module _ {A : Type 0} (key : A → Option Score) where
  -- `filter_map`
  unfoldable pub scored : List A → List (Score × A)
  scored [] = []
  scored (x ∷ xs) = let rest = scored xs in elim (key x) [ none ↦ rest | some s ↦ (s, x) ∷ rest ]

  -- `filter_map` and `reduce`.
  abbrev pub best_of : List A → Option (Score × A)
  best_of xs = reduce (scored xs)

  -- The first maximum of a list by a key that not all have.
  abbrev pub FirstBest : Score → A → List A → Type 0
  FirstBest s a [] = ⊥
  FirstBest s a (x ∷ xs) =
      ((x ≡ a) × (key x ≡ some s) × All (λ y. is_better (key y) s ≡ false) xs)
      ⊎ ((is_as_good (key x) s ≡ false) × FirstBest s a xs)

  scored-none : (x : A) (xs : List A) → key x ≡ none → scored (x ∷ xs) ≡ scored xs
  unfolding scored
  scored-none x xs e = ground arith

  scored-some :
      (x : A) (xs : List A) (t : Score) → key x ≡ some t → scored (x ∷ xs) ≡ (t, x) ∷ scored xs
  unfolding scored
  scored-some x xs t e = ground arith

  scored-All :
      (s : Score) (xs : List A)
      → All (λ y. beats y.0 s ≡ false) (scored xs)
      → All (λ y. is_better (key y) s ≡ false) xs
  scored-All s [] h = tt
  scored-All s (x ∷ xs) h = elim (Option-cases (key x)) [
    | inl e ↦
        (rw e refl, scored-All s xs (subst (All (λ y. beats y.0 s ≡ false)) (scored-none x xs e) h))
    | inr (t, e) ↦
        let (now, later) = subst (All (λ y. beats y.0 s ≡ false)) (scored-some x xs t e) h in
        (rw e now, scored-All s xs later)
  ]

  scored-FirstBest :
      (s : Score) (a : A) (xs : List A) → IsFirstBest (s, a) (scored xs) → FirstBest s a xs
  scored-FirstBest s a [] h = unfold IsFirstBest scored in h
  scored-FirstBest s a (x ∷ xs) h = elim (Option-cases (key x)) [
    | inl e ↦
        inr (rw e refl, scored-FirstBest s a xs (subst (IsFirstBest (s, a)) (scored-none x xs e) h))
    | inr (t, e) ↦
        elim (split_first (s, a) (t, x) (scored xs)
          (subst (IsFirstBest (s, a)) (scored-some x xs t e) h)) [
            | inl (p, q) ↦ inl (ap (λ r. r.1) p, e ∙ ap (λ r. some r.0) p, scored-All s xs q)
            | inr (p, q) ↦ inr (rw (e, p) refl, scored-FirstBest s a xs q)
          ]
  ]

  -- What `filter_map` and `reduce` give is the first maximum.
  pub best_of-FirstBest :
      (xs : List A) (s : Score) (a : A) → best_of xs ≡ some (s, a) → FirstBest s a xs
  best_of-FirstBest xs s a h = scored-FirstBest s a xs (go (scored xs) h)
    where
      go : (l : List (Score × A)) → reduce l ≡ some (s, a) → IsFirstBest (s, a) l
      go [] e = absurd (cc)
      go (x ∷ l) e =
          let same : reduce_from x l ≡ (s, a) = cc in
          subst (λ r. IsFirstBest r (x ∷ l)) same (reduce_from-IsFirstBest x l)

  -- They give one exactly if some element has a key.
  pub best_of-some :
      (xs : List A) (a : A) (t : Score)
      → Member a xs
      → key a ≡ some t
      → (r : Score × A) × (best_of xs ≡ some r)
  best_of-some [] a t m e = elim m [ ]
  best_of-some (x ∷ xs) a t m e = elim (Option-cases (key x)) [
    | inr (u, k) ↦ (reduce_from (u, x) (scored xs), ap reduce (scored-some x xs u k))
    | inl k ↦ elim m [
      | inl same ↦ absurd (ground arith)
      | inr later ↦
          let (r, p) = best_of-some xs a t later e in (r, ap reduce (scored-none x xs k) ∙ p)
    ]
  ]

  -- What all elements have, the first maximum has.
  FirstBest-All :
      (P : A → Type 0) (s : Score) (a : A) (xs : List A) → FirstBest s a xs → All P xs → P a
  FirstBest-All P s a [] h all = elim h [ ]
  FirstBest-All P s a (x ∷ xs) (inl h) (p, all) = subst P h.0 p
  FirstBest-All P s a (x ∷ xs) (inr h) (p, all) = FirstBest-All P s a xs h.1 all

  pub best_of-All :
      (P : A → Type 0) (xs : List A) (s : Score) (a : A) → All P xs → best_of xs ≡ some (s, a) → P a
  best_of-All P xs s a all e = FirstBest-All P s a xs (best_of-FirstBest xs s a e) all
