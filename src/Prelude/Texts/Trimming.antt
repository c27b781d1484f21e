-- ===== src/Prelude/Texts/Trimming.antt =====
-- `str::trim` of a text without white space.
use mathlib.Core.Path.{◌≡◌, refl, sym, subst}
use mathlib.Core.Bool.{true, false}
use mathlib.Core.List.{[], ◌∷◌, reverse, reverse-cons, reverse-reverse}
use Prim.Native.Nat.{ℕ}
use native.Mathlib.Omega.{arith}
use super_engine.Prelude.Lists.{All, All-append}
use super_engine.Prelude.Texts.{
  Text, is_whitespace, trim_start, trim, is_digit, decimal, decimal-digits,
}

abbrev IsSolid : Text → Type 0
IsSolid s = All (λ c. is_whitespace c ≡ false) s

trim_start-IsSolid : (s : Text) → IsSolid s → trim_start s ≡ s
unfolding trim_start
trim_start-IsSolid [] h = refl
trim_start-IsSolid (c ∷ s) (p, h) = rw p refl

reverse-IsSolid : (s : Text) → IsSolid s → IsSolid (reverse s)
reverse-IsSolid [] h = tt
reverse-IsSolid (c ∷ s) (p, h) =
    subst IsSolid (sym (reverse-cons c s))
      (All-append (λ d. is_whitespace d ≡ false) (reverse s) (c ∷ []) (reverse-IsSolid s h) (p, tt))

pub trim-IsSolid : (s : Text) → IsSolid s → trim s ≡ s
unfolding trim
trim-IsSolid s h =
    rw
      (
        trim_start-IsSolid s h,
        trim_start-IsSolid (reverse s) (reverse-IsSolid s h),
        reverse-reverse s,
      )
      refl

digits-IsSolid : (s : Text) → All (λ c. is_digit c ≡ true) s → IsSolid s
unfolding is_whitespace
digits-IsSolid [] h = tt
digits-IsSolid (c ∷ s) (p, h) = (ground arith, digits-IsSolid s h)

pub trim-decimal : (n : ℕ) → trim (decimal n) ≡ decimal n
trim-decimal n = trim-IsSolid (decimal n) (digits-IsSolid (decimal n) (decimal-digits n))

pub decimal-IsSolid : (n : ℕ) → IsSolid (decimal n)
decimal-IsSolid n = digits-IsSolid (decimal n) (decimal-digits n)
