-- ===== src/Prelude/Texts/Numbers.antt =====
-- `str::parse::<u32>`, and `decimal` read back by it.
use Prim.Native.Nat.{ℕ, zero, suc, ◌+◌, ◌*◌, ◌-◌, ◌/◌, ◌%◌, ◌^◌, ◌<◌}
use mathlib.Core.Path.{◌≡◌, refl}
use mathlib.Core.Logic.{inl, inr}
use mathlib.Core.Bool.{Bool, true, false, not, ◌||◌}
use mathlib.Core.Option.{Option, none, some}
use mathlib.Core.List.{[], ◌∷◌, ◌++◌}
use native.Mathlib.Omega.{arith}
use super_engine.Prelude.Tests.{if◌then◌else◌, ltb, leb, Bool-cases}
use super_engine.Prelude.Lists.{All, all, is_empty}
use super_engine.Prelude.Equality.{◌==◌, nat_eq}
use super_engine.Prelude.Texts.{Text, is_digit, decimal, decimal_from, decimal-digits}

-- `str::parse::<u32>`: an optional `+`, then decimal digits that make less than 2 ^ 32.
value_from : ℕ → Text → ℕ
value_from acc [] = acc
value_from acc (c ∷ s) = value_from (acc * 10 + (c - b'0')) s

abbrev unsigned : Text → Text
unsigned [] = []
unsigned (c ∷ s) = if c == b'+' then s else c ∷ s

abbrev not_number : Text → Bool
not_number d = is_empty d || not (all is_digit d)

unfoldable pub parse_u32 : Text → Option ℕ
unfolding value_from
parse_u32 s =
    if not_number (unsigned s) || leb (2 ^ 32) (value_from 0 (unsigned s))
    then none
    else some (value_from 0 (unsigned s))

-- The digits of an integer of any size.
unfoldable pub parse_digits : Text → Option ℕ
unfolding value_from
parse_digits s = if not_number s then none else some (value_from 0 s)

value_from-append :
    (acc : ℕ) (s t : Text) → value_from acc (s ++ t) ≡ value_from (value_from acc s) t
unfolding value_from
value_from-append acc [] t = refl
value_from-append acc (c ∷ s) t = value_from-append (acc * 10 + (c - b'0')) s t

value_from-decimal_from : (f n : ℕ) → n < f → value_from 0 (decimal_from f n) ≡ n
unfolding value_from decimal_from
value_from-decimal_from zero n l = absurd (omega arith)
value_from-decimal_from (suc f) n l = elim (Bool-cases (ltb n 10)) [
  | inl e ↦ rw e (omega arith)
  | inr e ↦
      rw
        (
          e,
          value_from-append 0 (decimal_from f (n / 10)) ((n % 10 + b'0') ∷ []),
          value_from-decimal_from f (n / 10) (ground arith),
        )
        (omega arith)
]

is_empty_snoc : (s : Text) (c : ℕ) → is_empty (s ++ c ∷ []) ≡ false
is_empty_snoc [] c = refl
is_empty_snoc (d ∷ s) c = refl

pub decimal-is_empty : (n : ℕ) → is_empty (decimal n) ≡ false
unfolding decimal decimal_from
decimal-is_empty n = elim (Bool-cases (ltb n 10)) [
  | inl e ↦ rw e refl
  | inr e ↦ rw e (is_empty_snoc (decimal_from n (n / 10)) (n % 10 + b'0'))
]

all_digits : (s : Text) → All (λ c. is_digit c ≡ true) s → all is_digit s ≡ true
all_digits [] h = refl
all_digits (c ∷ s) (d, h) = ground (arith, all_digits s h)

unsigned_digits : (s : Text) → All (λ c. is_digit c ≡ true) s → unsigned s ≡ s
unsigned_digits [] h = refl
unsigned_digits (c ∷ s) (d, h) = ground arith

value_from-decimal : (n : ℕ) → value_from 0 (decimal n) ≡ n
unfolding decimal
value_from-decimal n = value_from-decimal_from (suc n) n (omega arith)

-- A number below 2 ^ 32 is read back from its decimal digits.
pub parse_u32-decimal : (n : ℕ) → n < 2 ^ 32 → parse_u32 (decimal n) ≡ some n
unfolding parse_u32
parse_u32-decimal n l =
    rw
      (
        unsigned_digits (decimal n) (decimal-digits n),
        decimal-is_empty n,
        all_digits (decimal n) (decimal-digits n),
        value_from-decimal n,
      )
      (ground arith)

pub parse_digits-decimal : (n : ℕ) → parse_digits (decimal n) ≡ some n
unfolding parse_digits
parse_digits-decimal n =
    rw (decimal-is_empty n, all_digits (decimal n) (decimal-digits n), value_from-decimal n) refl
