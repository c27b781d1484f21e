-- ===== src/Auth/Consent/Scopes.antt =====
-- auth/consent.rs: `normalize_scopes` and the set of scopes that it stands for.
pub mod Sorting
use super_engine.Prelude.{
  ◌≡◌, ◌≢◌, ◌↔◌, refl, sym, ◌∙◌, ap₂, subst, Bool, true, false, List, [], ◌∷◌, ◌==◌, nat_eq,
  bytes_eq, if◌then◌else◌, Text, arith, Member, Bool-cases, inl, inr, ◌⊎◌, All, All-Member,
}
use super_engine.Auth.Consent.{text_leb, insert_sorted, sort, dedup, normalize_scopes}
use super_engine.Auth.Consent.Scopes.Sorting.{
  text_leb_refl, text_leb_antisym, Below, Ascending, Strictly, sort-Ascending, Member-sort,
}

abbrev heads : Text → List Text → Bool
heads x [] = false
heads x (y ∷ ys) = y == x

dedup_cons :
    (x : Text) (xs : List Text)
    → dedup (x ∷ xs) ≡ (if heads x (dedup xs) then dedup xs else x ∷ dedup xs)
unfolding dedup
dedup_cons x xs = ground arith

heads-Member : (x : Text) (ys : List Text) → heads x ys ≡ true → Member x ys
heads-Member x [] h = cc
heads-Member x (y ∷ ys) h = inl ((bytes_eq.beq_iff y x).0 h)

module _ (P : Text → Type 0) where
  All-dedup : (xs : List Text) → All P xs → All P (dedup xs)
  All-dedup [] h = unfold dedup in tt
  All-dedup (x ∷ xs) (p, h) = rw (dedup_cons x xs) (elim (Bool-cases (heads x (dedup xs))) [
    | inl e ↦ rw e (All-dedup xs h)
    | inr e ↦ rw e (p, All-dedup xs h)
  ])

Member-dedup_to : (a : Text) (xs : List Text) → Member a (dedup xs) → Member a xs
Member-dedup_to a [] m = unfold dedup in m
Member-dedup_to a (x ∷ xs) m = elim (Bool-cases (heads x (dedup xs))) [
  | inl e ↦ inr (Member-dedup_to a xs (rw (dedup_cons x xs, e) at m))
  | inr e ↦ step (rw (dedup_cons x xs, e) at m) (Member-dedup_to a xs)
]
  where
    step : Member a (x ∷ dedup xs) → (Member a (dedup xs) → Member a xs) → Member a (x ∷ xs)
    step (inl p) f = inl p
    step (inr q) f = inr (f q)

Member-dedup_from : (a : Text) (xs : List Text) → Member a xs → Member a (dedup xs)
Member-dedup_from a [] m = elim m [ ]
Member-dedup_from a (x ∷ xs) m = rw (dedup_cons x xs) (elim (Bool-cases (heads x (dedup xs))) [
  | inl e ↦ rw e (absorbed e m (Member-dedup_from a xs))
  | inr e ↦ rw e (kept m (Member-dedup_from a xs))
])
  where
    absorbed :
        heads x (dedup xs) ≡ true
        → Member a (x ∷ xs)
        → (Member a xs → Member a (dedup xs))
        → Member a (dedup xs)
    absorbed e (inl p) f = subst (λ b. Member b (dedup xs)) p (heads-Member x (dedup xs) e)
    absorbed e (inr q) f = f q

    kept : Member a (x ∷ xs) → (Member a xs → Member a (dedup xs)) → Member a (x ∷ dedup xs)
    kept (inl p) f = inl p
    kept (inr q) f = inr (f q)

Strictly-above :
    (x : Text) (ys : List Text)
    → heads x ys ≡ false
    → Below x ys
    → Strictly ys
    → All (λ y. (text_leb x y ≡ true) × (x ≢ y)) ys
Strictly-above x [] h b s = tt
Strictly-above x (y ∷ ys) h (p, b) (above, s) =
    let apart : x ≢ y = λ e. ground (arith, bytes_eq.beq_iff y x) in ((p, apart), later ys b above)
  where
    later :
        (zs : List Text)
        → Below x zs
        → All (λ z. (text_leb y z ≡ true) × (y ≢ z)) zs
        → All (λ z. (text_leb x z ≡ true) × (x ≢ z)) zs
    later [] b a = tt
    later (z ∷ zs) (q, b) ((r, n), a) = (
      (q, λ e. n (text_leb_antisym y x (subst (λ t. text_leb y t ≡ true) (sym e) r) p ∙ e)),
      later zs b a,
    )

dedup-Strictly : (xs : List Text) → Ascending xs → Strictly (dedup xs)
dedup-Strictly [] h = unfold dedup in tt
dedup-Strictly (x ∷ xs) (b, h) = rw (dedup_cons x xs) (elim (Bool-cases (heads x (dedup xs))) [
  | inl e ↦ rw e (dedup-Strictly xs h)
  | inr e ↦ rw e (
    Strictly-above x (dedup xs) e (All-dedup (λ y. text_leb x y ≡ true) xs b) (dedup-Strictly xs h),
    dedup-Strictly xs h,
  )
])

-- Two strictly ascending lists with the same members are one list.
above-All :
    (x a : Text) (xs : List Text)
    → All (λ y. (text_leb x y ≡ true) × (x ≢ y)) xs
    → Member a xs
    → (text_leb x a ≡ true) × (x ≢ a)
above-All x a xs h m = All-Member (λ y. (text_leb x y ≡ true) × (x ≢ y)) xs a h m

first_leb :
    (x y : Text) (xs : List Text)
    → All (λ z. (text_leb x z ≡ true) × (x ≢ z)) xs
    → Member y (x ∷ xs)
    → text_leb x y ≡ true
first_leb x y xs h (inl e) = subst (λ t. text_leb x t ≡ true) e (text_leb_refl x)
first_leb x y xs h (inr m) = (above-All x y xs h m).0

not_first :
    (x a : Text) (xs ys : List Text)
    → All (λ z. (text_leb x z ≡ true) × (x ≢ z)) xs
    → Member a xs
    → Member a (x ∷ ys)
    → Member a ys
not_first x a xs ys h m (inl e) = absurd ((above-All x a xs h m).1 e)
not_first x a xs ys h m (inr k) = k

Strictly-unique :
    (xs ys : List Text)
    → Strictly xs
    → Strictly ys
    → ((a : Text) → Member a xs → Member a ys)
    → ((a : Text) → Member a ys → Member a xs)
    → xs ≡ ys
Strictly-unique [] [] s t f g = refl
Strictly-unique [] (y ∷ ys) s t f g = absurd (g y (inl refl))
Strictly-unique (x ∷ xs) [] s t f g = absurd (f x (inl refl))
Strictly-unique (x ∷ xs) (y ∷ ys) (ax, s) (ay, t) f g =
    let e : x ≡ y =
      text_leb_antisym x y (first_leb x y xs ax (g y (inl refl)))
        (first_leb y x ys ay (f x (inl refl))) in
    ap₂ ◌∷◌ e (
      Strictly-unique xs ys s t
        (λ a m. not_first x a xs ys ax m (subst (λ b. Member a (b ∷ ys)) (sym e) (f a (inr m))))
        (λ a m. not_first y a ys xs ay m (subst (λ b. Member a (b ∷ xs)) e (g a (inr m)))))

Member-normalize_scopes : (a : Text) (xs : List Text) → Member a (normalize_scopes xs) ↔ Member a xs
unfolding normalize_scopes
Member-normalize_scopes a xs = (
  λ m. (Member-sort a xs).0 (Member-dedup_to a (sort xs) m),
  λ m. Member-dedup_from a (sort xs) ((Member-sort a xs).1 m),
)

normalize_scopes-Strictly : (xs : List Text) → Strictly (normalize_scopes xs)
unfolding normalize_scopes
normalize_scopes-Strictly xs = dedup-Strictly (sort xs) (sort-Ascending xs)

-- Two requests have the same normalized scopes exactly if they name the same set of scopes, in
-- whatever order and however often.
pub normalize_scopes_iff :
    (xs ys : List Text)
    → (normalize_scopes xs ≡ normalize_scopes ys) ↔ ((a : Text) → Member a xs ↔ Member a ys)
normalize_scopes_iff xs ys = (
  λ e a. (
    λ m. (Member-normalize_scopes a ys).0 (subst (Member a) e ((Member-normalize_scopes a xs).1 m)),
    λ m.
        (Member-normalize_scopes a xs).0
          (subst (Member a) (sym e) ((Member-normalize_scopes a ys).1 m)),
  ),
  λ h.
      Strictly-unique (normalize_scopes xs) (normalize_scopes ys) (normalize_scopes-Strictly xs)
        (normalize_scopes-Strictly ys)
        (λ a m. (Member-normalize_scopes a ys).1 ((h a).0 ((Member-normalize_scopes a xs).0 m)))
        (λ a m. (Member-normalize_scopes a xs).1 ((h a).1 ((Member-normalize_scopes a ys).0 m))),
)
