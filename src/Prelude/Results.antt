-- ===== src/Prelude/Results.antt =====
-- Rust's `Result`.
use mathlib.Core.Path.{◌≡◌, refl}
use mathlib.Core.Logic.{◌⊎◌, inl, inr}
use mathlib.Core.Bool.{Bool, true, false}

pub data Result (A E : Type 0) : Type 0 where
  ok : A → Result A E
  err : E → Result A E

abbrev pub is_ok : {A E : Type 0} → Result A E → Bool
is_ok (ok a) = true
is_ok (err e) = false

-- `?` on a result.
abbrev pub and_then : {A B E : Type 0} → Result A E → (A → Result B E) → Result B E
and_then (ok a) k = k a
and_then (err e) k = err e

pub Result-cases :
    {A E : Type 0} (r : Result A E) → ((a : A) × (r ≡ ok a)) ⊎ ((e : E) × (r ≡ err e))
Result-cases (ok a) = inl (a, refl)
Result-cases (err e) = inr (e, refl)
