-- ===== src/Spec/Checksums.antt =====
-- super-engine-spec/src/verify.rs: a `SHA256SUMS` listing.
pub mod Digests
use super_engine.Prelude.{
  ℕ, ◌≡◌, refl, Bool, true, false, not, ◌&&◌, ◌||◌, Option, none, some, List, [], ◌∷◌, ◌==◌, nat_eq,
  bytes_eq, if◌then◌else◌, Text, text, split, strip_prefix, trim, trim_start, is_whitespace,
  is_empty, is_digit, length, all, leb, map, All, find, Member, Option-cases, Bool-cases, inl, inr,
  arith,
}

-- `str::lines`: a line feed ends a line, and a carriage return before it is not part of it.
abbrev without_cr : Text → Text
without_cr [] = []
without_cr (c ∷ s) = let rest = without_cr s in if c == 13 && is_empty s then [] else c ∷ rest

abbrev ended : List Text → List Text
ended [] = []
ended (s ∷ []) = if is_empty s then [] else s ∷ []
ended (s ∷ t ∷ ts) = without_cr s ∷ ended (t ∷ ts)

abbrev pub lines : Text → List Text
lines s = ended (split 10 s)

-- `splitn(2, char::is_whitespace)`
abbrev pub split_once : Text → Text × Option Text
split_once [] = ([], none)
split_once (c ∷ s) =
    let (first, rest) = split_once s in if is_whitespace c then ([], some s) else (c ∷ first, rest)

abbrev pub is_hex : ℕ → Bool
is_hex c = is_digit c || ((leb b'a' c && leb c b'f') || (leb b'A' c && leb c b'F'))

abbrev pub is_digest : Text → Bool
is_digest hex = length hex == 64 && all is_hex hex

abbrev dropped : Text → Text → Text
dropped prefix s = elim (strip_prefix prefix s) [ none ↦ s | some rest ↦ rest ]

abbrev pub entry : Text × Option Text → Option (Text × Text)
entry (hex, none) = none
entry (hex, some rest) =
    if is_digest hex
    then some (hex, dropped (text "./") (dropped (text "*") (trim_start rest)))
    else none

abbrev pub kept : Option (Text × Text) → List (Text × Text) → List (Text × Text)
kept none rest = rest
kept (some e) rest = e ∷ rest

abbrev pub parse_lines : List Text → List (Text × Text)
parse_lines [] = []
parse_lines (line ∷ ls) = kept (entry (split_once (trim line))) (parse_lines ls)

unfoldable pub parse_sha256sums : Text → List (Text × Text)
unfolding split trim trim_start is_whitespace strip_prefix
parse_sha256sums s = parse_lines (lines s)

-- The digest that a listing has for a file: that of the first line that names it.
unfoldable pub listed : Text → List (Text × Text) → Option Text
listed name [] = none
listed name ((hex, file) ∷ sums) = if file == name then some hex else listed name sums
