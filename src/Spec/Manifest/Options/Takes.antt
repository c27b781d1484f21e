-- ===== src/Spec/Manifest/Options/Takes.antt =====
-- super-engine-spec/src/manifest.rs: what the checks of an option's value let through.
use super_engine.Prelude.{
  ℕ, suc, ◌*◌, ◌≤◌, ◌^◌, ◌<◌, ◌≡◌, refl, true, false, none, some, List, [], ◌∷◌, Text, is_ok, find,
  find-none, length, All, Option-cases, ◌-◌, is_empty, is_digit, decimal, trim, Member,
  is_whitespace, trim-IsSolid, trim-decimal, decimal-IsSolid, decimal-digits, decimal-is_empty,
  parse_digits-decimal, ap, ◌∙◌, any, bytes_eq, ◌==◌, inl, inr, arith,
}
use super_engine.Registry.Arch.{byte_len}
use super_engine.Spec.Manifest.{Opt, OptionDefault, ℤ, pos, negsuc, integer}
use super_engine.Spec.Manifest.Options.{
  Floats, accepts, permits_value, permits_shape, is_control, accepts_the_type, is_in_range,
  is_a_choice, parses_i64, display_i64, display_default, is_signed, unsigned_at_most, type_accepts,
  or_string,
}

-- A value is permitted exactly if the option accepts it, for every arithmetic of floats.
pub permits_value-accepts :
    {F64 : Type 0} (f : Floats F64) (o : Opt F64) (value : Text)
    → is_ok (permits_value f o value) ≡ accepts f o value
unfolding permits_value accepts
permits_value-accepts f o value = ground arith

byte_len-le : (s : Text) → byte_len s ≤ 4 * length s
unfolding byte_len
byte_len-le [] = omega arith
byte_len-le (c ∷ s) = ground (arith, byte_len-le s)

-- A value of a permitted shape takes at most 16 000 bytes of a header and has no control character.
pub permits_shape-bounds :
    (value : Text)
    → is_ok (permits_shape value) ≡ true
    → (byte_len value ≤ 16000) × All (λ c. is_control c ≡ false) value
unfolding permits_shape
permits_shape-bounds value h = elim (Option-cases (find is_control value)) [
  | inl fine ↦ (ground (arith, byte_len-le value), find-none is_control value fine)
  | inr (c, bad) ↦ absurd (ground (arith, bad))
]

-- An integer that 64 bits hold.
abbrev pub FitsI64 : ℤ → Type 0
FitsI64 (pos n) = n < 2 ^ 63
FitsI64 (negsuc n) = n < 2 ^ 63

first_digit :
    (s : Text)
    → All (λ c. is_digit c ≡ true) s
    → is_empty s ≡ false
    → is_signed s ≡ unsigned_at_most (2 ^ 63 - 1) s
first_digit [] h e = cc
first_digit (c ∷ s) (d, h) e = ground arith

unsigned_at_most-decimal : (top n : ℕ) → n ≤ top → unsigned_at_most top (decimal n) ≡ true
unsigned_at_most-decimal top n l = ground (arith, parse_digits-decimal n)

parses_i64-display_i64 : (i : ℤ) → FitsI64 i → parses_i64 (display_i64 i) ≡ true
unfolding parses_i64
parses_i64-display_i64 (pos n) l =
    first_digit (decimal n) (decimal-digits n) (decimal-is_empty n)
    ∙ unsigned_at_most-decimal (2 ^ 63 - 1) n (omega arith)
parses_i64-display_i64 (negsuc n) l = unsigned_at_most-decimal (2 ^ 63) (suc n) (omega arith)

trim-display_i64 : (i : ℤ) → trim (display_i64 i) ≡ display_i64 i
trim-display_i64 (pos n) = trim-decimal n
trim-display_i64 (negsuc n) =
    trim-IsSolid (b'-' ∷ decimal (suc n)) (unfold is_whitespace in refl, decimal-IsSolid (suc n))

integer_fits :
    {F64 : Type 0} (f : Floats F64) (i : ℤ)
    → FitsI64 i
    → type_accepts f integer (display_i64 i) ≡ true
unfolding type_accepts
integer_fits f i l = ap parses_i64 (trim-display_i64 i) ∙ parses_i64-display_i64 i l

Member-offered :
    {F64 : Type 0} (f : Floats F64) (choices : List (OptionDefault F64)) (i : ℤ)
    → Member (integer i) choices
    → any (λ c. display_default f c == display_i64 i) choices ≡ true
Member-offered f [] i m = elim m [ ]
Member-offered f (c ∷ choices) i (inl e) =
    ground (arith, ap (display_default f) e, bytes_eq.beq_iff (display_default f c) (display_i64 i))
Member-offered f (c ∷ choices) i (inr m) = ground (arith, Member-offered f choices i m)

-- An integer option without bounds accepts each integer that it offers, as `Display` writes it.
pub accepts-display_default :
    {F64 : Type 0} (f : Floats F64) (o : Opt F64) (i : ℤ)
    → FitsI64 i
    → o.type ≡ some integer
    → o.min ≡ none
    → o.max ≡ none
    → Member (integer i) o.choices
    → accepts f o (display_default f (integer i)) ≡ true
unfolding accepts
accepts-display_default f o i l t low high m =
    let typed : accepts_the_type f o (display_i64 i) ≡ true =
      ap (λ k. type_accepts f (or_string k) (display_i64 i)) t ∙ integer_fits f i l in
    let ranged : is_in_range f o (display_i64 i) ≡ true =
      unfold is_in_range in rw (low, high) refl in
    let offered : is_a_choice f o (display_i64 i) ≡ true =
      ground (arith, Member-offered f o.choices i m) in
    rw (typed, ranged, offered) refl
