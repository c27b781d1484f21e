-- ===== src/Prelude/Lists.antt =====
-- Lists: length and indexing over the native numbers, Boolean tests, and predicates by recursion.
use Prim.Native.Nat.{ℕ, zero, suc, ◌+◌, ◌≤◌}
use mathlib.Core.Path.{◌≡◌, refl, subst}
use mathlib.Core.Logic.{◌↔◌, ◌⊎◌, inl, inr}
use mathlib.Core.Bool.{Bool, true, false, ◌&&◌, ◌||◌}
use mathlib.Core.Option.{Option, none, some}
use mathlib.Core.List.{List, [], ◌∷◌, ◌++◌}
use native.Mathlib.Omega.{arith}
use super_engine.Prelude.Tests.{Bool-cases, if◌then◌else◌}
use super_engine.Prelude.Equality.{Eq, ◌==◌}

module _ {ℓ} {A : Type ℓ} where
  abbrev pub length : List A → ℕ
  length [] = 0
  length (x ∷ xs) = suc (length xs)

  abbrev pub get_elem? : List A → ℕ → Option A
  get_elem? [] i = none
  get_elem? (x ∷ xs) zero = some x
  get_elem? (x ∷ xs) (suc i) = get_elem? xs i

  abbrev pub set : List A → ℕ → A → List A
  set [] i v = []
  set (x ∷ xs) zero v = v ∷ xs
  set (x ∷ xs) (suc i) v = x ∷ set xs i v

  abbrev pub is_empty : List A → Bool
  is_empty [] = true
  is_empty (x ∷ xs) = false

  abbrev pub any : (A → Bool) → List A → Bool
  any p [] = false
  any p (x ∷ xs) = p x || any p xs

  abbrev pub all : (A → Bool) → List A → Bool
  all p [] = true
  all p (x ∷ xs) = p x && all p xs

  -- `Iterator::filter` and `Vec::retain`.
  abbrev pub keep : (A → Bool) → List A → List A
  keep p [] = []
  keep p (x ∷ xs) = let rest = keep p xs in if p x then x ∷ rest else rest

  -- `Iterator::find`.
  abbrev pub find : (A → Bool) → List A → Option A
  find p [] = none
  find p (x ∷ xs) = if p x then some x else find p xs

  -- How many elements pass a test.
  abbrev pub count : (A → Bool) → List A → ℕ
  count p [] = 0
  count p (x ∷ xs) = (if p x then 1 else 0) + count p xs

  pub length-append : (xs ys : List A) → length (xs ++ ys) ≡ length xs + length ys
  length-append [] ys = omega arith
  length-append (x ∷ xs) ys = omega (arith, length-append xs ys)

  pub count-append : (p : A → Bool) (xs ys : List A) → count p (xs ++ ys) ≡ count p xs + count p ys
  count-append p [] ys = omega arith
  count-append p (x ∷ xs) ys = omega (arith, count-append p xs ys)

  pub count-le-length : (p : A → Bool) (xs : List A) → count p xs ≤ length xs
  count-le-length p [] = omega arith
  count-le-length p (x ∷ xs) = ground (arith, count-le-length p xs)

  pub length-keep : (p : A → Bool) (xs : List A) → length (keep p xs) ≡ count p xs
  length-keep p [] = refl
  length-keep p (x ∷ xs) = ground (arith, length-keep p xs)

  pub count-set :
      (p : A → Bool) (xs : List A) (i : ℕ) (x v : A)
      → get_elem? xs i ≡ some x
      → count p (set xs i v) + (if p x then 1 else 0) ≡ count p xs + (if p v then 1 else 0)
  count-set p [] i x v h = cc
  count-set p (y ∷ xs) zero x v h = ground arith
  count-set p (y ∷ xs) (suc i) x v h = omega (arith, count-set p xs i x v h)

module _ {ℓ κ} {A : Type ℓ} (P : A → Type κ) where
  abbrev pub All : List A → Type κ
  All [] = Unit
  All (x ∷ xs) = P x × All xs

  pub All-append : (xs ys : List A) → All xs → All ys → All (xs ++ ys)
  All-append [] ys h k = k
  All-append (x ∷ xs) ys (p, h) k = (p, All-append xs ys h k)

  pub All-set : (xs : List A) (i : ℕ) (v : A) → All xs → P v → All (set xs i v)
  All-set [] i v h p = h
  All-set (x ∷ xs) zero v (q, h) p = (p, h)
  All-set (x ∷ xs) (suc i) v (q, h) p = (q, All-set xs i v h p)

  pub All-get_elem? : (xs : List A) (i : ℕ) (x : A) → All xs → get_elem? xs i ≡ some x → P x
  All-get_elem? [] i x h e = cc
  All-get_elem? (y ∷ xs) zero x (p, h) e = ground arith
  All-get_elem? (y ∷ xs) (suc i) x (p, h) e = All-get_elem? xs i x h e

pub find-none :
    {A : Type 0} (p : A → Bool) (xs : List A) → find p xs ≡ none → All (λ x. p x ≡ false) xs
find-none p [] h = tt
find-none p (x ∷ xs) h = (ground arith, find-none p xs (ground arith))

-- Membership by recursion.
module _ {A : Type 0} where
  abbrev pub Member : A → List A → Type 0
  Member a [] = ⊥
  Member a (x ∷ xs) = (x ≡ a) ⊎ Member a xs

  pub All-Member : (P : A → Type 0) (xs : List A) (a : A) → All P xs → Member a xs → P a
  All-Member P [] a h m = elim m [ ]
  All-Member P (x ∷ xs) a (p, h) (inl e) = subst P e p
  All-Member P (x ∷ xs) a (p, h) (inr m) = All-Member P xs a h m

module _ {A : Type 0} ⦃e : Eq A⦄ where
  abbrev pub contains : List A → A → Bool
  contains xs a = any (λ x. x == a) xs

  pub contains_iff : (xs : List A) (a : A) → (contains xs a ≡ true) ↔ Member a xs
  contains_iff [] a = (λ h. cc, λ h. elim h [ ])
  contains_iff (x ∷ xs) a = ground (arith, e.beq_iff x a, contains_iff xs a)

pub find-some :
    {A : Type 0} (p : A → Bool) (xs : List A) (x : A)
    → find p xs ≡ some x
    → Member x xs × (p x ≡ true)
find-some p [] x h = cc
find-some p (y ∷ xs) x h = elim (Bool-cases (p y)) [
  | inl yes_p ↦ let e : y ≡ x = ground (arith, h, yes_p) in (inl e, subst (λ z. p z ≡ true) e yes_p)
  | inr not_p ↦ let (m, q) = find-some p xs x (ground (arith, h, not_p)) in (inr m, q)
]
