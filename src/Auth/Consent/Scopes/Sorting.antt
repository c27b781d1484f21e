-- ===== src/Auth/Consent/Scopes/Sorting.antt =====
-- auth/consent.rs: the order of scope names, and sorting by it.
use super_engine.Prelude.{
  ◌≡◌, ◌≢◌, ◌↔◌, refl, true, false, List, [], ◌∷◌, nat_eq, bytes_eq, Text, arith, Member,
  Bool-cases, inl, inr, ◌⊎◌, All,
}
use super_engine.Auth.Consent.{text_leb, insert_sorted, sort}

pub text_leb_refl : (s : Text) → text_leb s s ≡ true
unfolding text_leb
text_leb_refl [] = refl
text_leb_refl (c ∷ s) = ground (arith, text_leb_refl s)

text_leb_total : (s t : Text) → text_leb s t ≡ false → text_leb t s ≡ true
unfolding text_leb
text_leb_total [] t h = cc
text_leb_total (c ∷ s) [] h = refl
text_leb_total (c ∷ s) (d ∷ t) h = ground (arith, text_leb_total s t)

text_leb_trans : (s t u : Text) → text_leb s t ≡ true → text_leb t u ≡ true → text_leb s u ≡ true
unfolding text_leb
text_leb_trans [] t u h k = refl
text_leb_trans (c ∷ s) [] u h k = cc
text_leb_trans (c ∷ s) (d ∷ t) [] h k = cc
text_leb_trans (c ∷ s) (d ∷ t) (e ∷ u) h k = ground (arith, text_leb_trans s t u)

pub text_leb_antisym : (s t : Text) → text_leb s t ≡ true → text_leb t s ≡ true → s ≡ t
unfolding text_leb
text_leb_antisym [] [] h k = refl
text_leb_antisym [] (d ∷ t) h k = cc
text_leb_antisym (c ∷ s) [] h k = cc
text_leb_antisym (c ∷ s) (d ∷ t) h k = ground (arith, text_leb_antisym s t)

-- In ascending order; strictly, if nothing is there twice.
abbrev pub Below : Text → List Text → Type 0
Below x ys = All (λ y. text_leb x y ≡ true) ys

abbrev pub Ascending : List Text → Type 0
Ascending [] = Unit
Ascending (x ∷ xs) = Below x xs × Ascending xs

abbrev pub Strictly : List Text → Type 0
Strictly [] = Unit
Strictly (x ∷ xs) = All (λ y. (text_leb x y ≡ true) × (x ≢ y)) xs × Strictly xs

Below-trans : (x y : Text) (zs : List Text) → text_leb x y ≡ true → Below y zs → Below x zs
Below-trans x y [] h b = tt
Below-trans x y (z ∷ zs) h (p, b) = (text_leb_trans x y z h p, Below-trans x y zs h b)

Below-insert_sorted :
    (z x : Text) (ys : List Text) → text_leb z x ≡ true → Below z ys → Below z (insert_sorted x ys)
unfolding insert_sorted
Below-insert_sorted z x [] h b = (h, tt)
Below-insert_sorted z x (y ∷ ys) h (p, b) = elim (Bool-cases (text_leb x y)) [
  | inl e ↦ rw e (h, (p, b))
  | inr e ↦ rw e (p, Below-insert_sorted z x ys h b)
]

insert_sorted-Ascending :
    (x : Text) (ys : List Text) → Ascending ys → Ascending (insert_sorted x ys)
unfolding insert_sorted
insert_sorted-Ascending x [] h = (tt, tt)
insert_sorted-Ascending x (y ∷ ys) (b, h) = elim (Bool-cases (text_leb x y)) [
  | inl e ↦ rw e ((e, Below-trans x y ys e b), (b, h))
  | inr e ↦
      rw e (Below-insert_sorted y x ys (text_leb_total x y e) b, insert_sorted-Ascending x ys h)
]

pub sort-Ascending : (xs : List Text) → Ascending (sort xs)
unfolding sort
sort-Ascending [] = tt
sort-Ascending (x ∷ xs) = insert_sorted-Ascending x (sort xs) (sort-Ascending xs)

Member-insert_sorted :
    (a x : Text) (ys : List Text) → Member a (insert_sorted x ys) ↔ ((x ≡ a) ⊎ Member a ys)
unfolding insert_sorted
Member-insert_sorted a x [] = (λ h. h, λ h. h)
Member-insert_sorted a x (y ∷ ys) = ground (arith, Member-insert_sorted a x ys)

pub Member-sort : (a : Text) (xs : List Text) → Member a (sort xs) ↔ Member a xs
unfolding sort
Member-sort a [] = (λ h. h, λ h. h)
Member-sort a (x ∷ xs) = ground (arith, Member-insert_sorted a x (sort xs), Member-sort a xs)
