-- ===== src/Spec/Checksums/Digests.antt =====
-- verify.rs: what a listing yields has the shape of a digest.
use super_engine.Prelude.{
  ◌≡◌, subst, true, Option, none, some, List, [], ◌∷◌, ◌==◌, bytes_eq, Text, All, trim, Bool-cases,
  inl, inr, arith,
}
use super_engine.Spec.Checksums.{
  split_once, is_digest, entry, kept, parse_lines, lines, parse_sha256sums, listed,
}

abbrev IsEntry : Text × Text → Type 0
IsEntry (hex, name) = is_digest hex ≡ true

abbrev IsKept : Option (Text × Text) → Type 0
IsKept none = Unit
IsKept (some e) = IsEntry e

entry-IsKept : (parts : Text × Option Text) → IsKept (entry parts)
entry-IsKept (hex, none) = tt
entry-IsKept (hex, some rest) = elim (Bool-cases (is_digest hex)) [
  | inl shaped ↦ rw shaped shaped
  | inr other ↦ rw other tt
]

kept-IsEntry :
    (e : Option (Text × Text)) (rest : List (Text × Text))
    → IsKept e
    → All IsEntry rest
    → All IsEntry (kept e rest)
kept-IsEntry none rest k h = h
kept-IsEntry (some e) rest k h = (k, h)

parse_lines-IsEntry : (ls : List Text) → All IsEntry (parse_lines ls)
parse_lines-IsEntry [] = tt
parse_lines-IsEntry (line ∷ ls) =
    kept-IsEntry (entry (split_once (trim line))) (parse_lines ls)
      (entry-IsKept (split_once (trim line))) (parse_lines-IsEntry ls)

listed-IsEntry :
    (name hex : Text) (sums : List (Text × Text))
    → All IsEntry sums
    → listed name sums ≡ some hex
    → is_digest hex ≡ true
unfolding listed
listed-IsEntry name hex [] h e = cc
listed-IsEntry name hex ((digest, file) ∷ sums) (shaped, h) e = elim (Bool-cases (file == name)) [
  | inl same ↦
      let is : digest ≡ hex = ground (arith, e, same) in subst (λ d. is_digest d ≡ true) is shaped
  | inr other ↦ listed-IsEntry name hex sums h (ground (arith, e, other))
]

-- The digest that a listing has for a file is 64 hexadecimal digits.
pub listed-parse_sha256sums :
    (name hex s : Text) → listed name (parse_sha256sums s) ≡ some hex → is_digest hex ≡ true
unfolding parse_sha256sums
listed-parse_sha256sums name hex s =
    listed-IsEntry name hex (parse_lines (lines s)) (parse_lines-IsEntry (lines s))
