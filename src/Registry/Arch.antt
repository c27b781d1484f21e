-- ===== src/Registry/Arch.antt =====
-- super-engine-spec/src/arch.rs: the AMD targets and Vulkan versions that an asset declares.
pub mod Display
use super_engine.Prelude.{
  ℕ, suc, zero, ◌+◌, ◌*◌, ◌-◌, ◌<◌, ◌^◌, Bool, true, false, not, ◌&&◌, ◌||◌, Option, none, some,
  List, [], ◌∷◌, ◌++◌, ◌==◌, nat_eq, if◌then◌else◌, Text, text, parse_u32, decimal, trim,
  strip_prefix, is_digit, is_empty, all, ltb, leb, ◌>>=◌,
}

pub record GfxSpec : Type 0 where
  pub major : ℕ
  pub minor : ℕ
  pub step : ℕ

pub record VulkanApi : Type 0 where
  pub major : ℕ
  pub minor : ℕ

-- `{:x}` of a number below 16, and `char::to_digit(16)`.
abbrev pub hex_digit : ℕ → ℕ
hex_digit n = if ltb n 10 then n + b'0' else n + 87

abbrev pub to_digit_16 : ℕ → Option ℕ
to_digit_16 c =
    if leb b'0' c && leb c b'9'
    then some (c - b'0')
    else if leb b'a' c && leb c b'f'
    then some (c - 87)
    else if leb b'A' c && leb c b'F'
    then some (c - 55)
    else none

-- How many bytes a code point takes in UTF-8.
abbrev pub len_utf8 : ℕ → ℕ
len_utf8 c = if ltb c 0x80 then 1 else if ltb c 0x800 then 2 else if ltb c 0x10000 then 3 else 4

-- `str::len`
unfoldable pub byte_len : Text → ℕ
byte_len [] = 0
byte_len (c ∷ s) = len_utf8 c + byte_len s

-- `str::split_at` at a byte position; `none` is its panic inside a character or past the end.
unfoldable pub split_at : ℕ → Text → Option (Text × Text)
split_at zero s = some ([], s)
split_at (suc n) [] = none
split_at (suc n) (c ∷ s) =
    let rest = split_at (suc n - len_utf8 c) s in
    if ltb (suc n) (len_utf8 c)
    then none
    else elim rest [ none ↦ none | some (l, r) ↦ some (c ∷ l, r) ]

-- What `GfxSpec::from_str` does: a target, an error, or a panic.
pub data Parsed : Type 0 where
  target : GfxSpec → Parsed
  malformed panicked : Parsed

abbrev tail_digits : Text → Option (ℕ × ℕ)
tail_digits (m ∷ s ∷ _) = do minor ← to_digit_16 m; step ← to_digit_16 s; some (minor, step)
tail_digits _ = none

abbrev from_parts : Text → Text → Parsed
from_parts major tail = elim (tail_digits tail) [
  | none ↦ malformed
  | some (minor, step) ↦ elim (parse_u32 major) [
    | none ↦ malformed
    | some n ↦ target (record { major = n; minor = minor; step = step })
  ]
]

unfoldable pub gfx_from_str : Text → Parsed
unfolding byte_len split_at parse_u32 strip_prefix
gfx_from_str s = elim (strip_prefix (text "gfx") s) [
  | none ↦ malformed
  | some digits ↦
      if ltb (byte_len digits) 3 then malformed else elim (split_at (byte_len digits - 2) digits) [
        | none ↦ panicked
        | some (major, tail) ↦ from_parts major tail
      ]
]

-- `Display`
unfoldable pub gfx_display : GfxSpec → Text
gfx_display g = text "gfx" ++ (decimal g.major ++ (hex_digit g.minor ∷ hex_digit g.step ∷ []))

abbrev split_once : Text → Option (Text × Text)
split_once [] = none
split_once (c ∷ s) =
    let rest = split_once s in
    if c == b'.' then some ([], s) else elim rest [ none ↦ none | some (l, r) ↦ some (c ∷ l, r) ]

unfoldable pub vulkan_from_str : Text → Option VulkanApi
vulkan_from_str s = do
  (major, minor) ← split_once s
  major ← parse_u32 (trim major)
  minor ← parse_u32 (trim minor)
  some (record { major = major; minor = minor })
