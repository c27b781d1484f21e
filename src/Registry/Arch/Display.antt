-- ===== src/Registry/Arch/Display.antt =====
-- super-engine-spec/src/arch.rs: `Display` and `FromStr` of an AMD target.
use super_engine.Prelude.{
  ℕ, ◌+◌, ◌-◌, ◌<◌, ◌≤◌, ◌^◌, ◌≡◌, refl, ap, ◌∙◌, true, false, some, [], ◌∷◌, ◌++◌, nat_eq, length,
  Text, text, decimal, decimal-digits, decimal-is_empty, parse_u32, parse_u32-decimal, is_digit,
  is_empty, strip_prefix, All, ltb, arith,
}
use super_engine.Registry.Arch.{
  GfxSpec, hex_digit, to_digit_16, len_utf8, byte_len, split_at, target, from_parts, gfx_from_str,
  gfx_display,
}

abbrev IsAscii : Text → Type 0
IsAscii s = All (λ c. c < 128) s

byte_len-append : (s t : Text) → IsAscii s → byte_len (s ++ t) ≡ length s + byte_len t
unfolding byte_len
byte_len-append [] t h = omega arith
byte_len-append (c ∷ s) t (l, h) = ground (arith, byte_len-append s t h)

split_at-append : (s t : Text) → IsAscii s → split_at (length s) (s ++ t) ≡ some (s, t)
unfolding split_at
split_at-append [] t h = refl
split_at-append (c ∷ s) t (l, h) = ground (arith, split_at-append s t h)

digits-IsAscii : (s : Text) → All (λ c. is_digit c ≡ true) s → IsAscii s
digits-IsAscii [] h = tt
digits-IsAscii (c ∷ s) (d, h) = (ground arith, digits-IsAscii s h)

to_digit_16-hex_digit : (n : ℕ) → n < 16 → to_digit_16 (hex_digit n) ≡ some n
to_digit_16-hex_digit n l = ground arith

hex_digit-len : (n : ℕ) → n < 16 → len_utf8 (hex_digit n) ≡ 1
hex_digit-len n l = ground arith

length-positive : (s : Text) → is_empty s ≡ false → 1 ≤ length s
length-positive [] h = cc
length-positive (c ∷ s) h = omega arith

tail_len : (m s : ℕ) → m < 16 → s < 16 → byte_len (hex_digit m ∷ hex_digit s ∷ []) ≡ 2
unfolding byte_len
tail_len m s l k = rw (hex_digit-len m l, hex_digit-len s k) refl

not_short : (n : ℕ) → 3 ≤ n → ltb n 3 ≡ false
not_short n l = ground arith

from_parts-read :
    (major : Text) (m s n x y : ℕ)
    → to_digit_16 m ≡ some x
    → to_digit_16 s ≡ some y
    → parse_u32 major ≡ some n
    → from_parts major (m ∷ s ∷ []) ≡ target (record { major = n; minor = x; step = y })
from_parts-read major m s n x y p q r = ground (arith)

gfx_from_str-split :
    (digits major tail : Text)
    → ltb (byte_len digits) 3 ≡ false
    → split_at (byte_len digits - 2) digits ≡ some (major, tail)
    → gfx_from_str (text "gfx" ++ digits) ≡ from_parts major tail
unfolding gfx_from_str strip_prefix
gfx_from_str-split digits major tail long cut = rw (long, cut) refl

-- A target with a 32-bit major version and one hexadecimal digit each for minor version and
-- stepping is read back from what `Display` writes of it.
pub gfx_from_str-gfx_display :
    (g : GfxSpec)
    → g.major < 2 ^ 32
    → g.minor < 16
    → g.step < 16
    → gfx_from_str (gfx_display g) ≡ target g
unfolding gfx_display
gfx_from_str-gfx_display g a b c =
    let number = decimal g.major in
    let hex : Text = hex_digit g.minor ∷ hex_digit g.step ∷ [] in
    let ascii = digits-IsAscii number (decimal-digits g.major) in
    let len : byte_len (number ++ hex) ≡ length number + 2 =
      byte_len-append number hex ascii
      ∙ ap (λ n. length number + n) (tail_len g.minor g.step b c) in
    let some_digit = length-positive number (decimal-is_empty g.major) in
    let back : byte_len (number ++ hex) - 2 ≡ length number = omega (arith, len) in
    let cut = ap (λ n. split_at n (number ++ hex)) back ∙ split_at-append number hex ascii in
    gfx_from_str-split (number ++ hex) number hex
      (not_short (byte_len (number ++ hex)) (omega (arith, len, some_digit))) cut
    ∙ from_parts-read number (hex_digit g.minor) (hex_digit g.step) g.major g.minor g.step
        (to_digit_16-hex_digit g.minor b) (to_digit_16-hex_digit g.step c)
        (parse_u32-decimal g.major a)
