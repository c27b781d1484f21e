-- ===== src/Spec/BackendId.antt =====
-- super-engine-spec/src/backend_id.rs: the reverse-DNS identifier that names an install directory.
use super_engine.Prelude.{
  ℕ, ◌≡◌, refl, ap, Bool, true, false, not, ◌&&◌, ◌||◌, List, [], ◌∷◌, ◌==◌, nat_eq, bytes_eq,
  if◌then◌else◌, Text, text, split, is_empty, all, contains, length, ltb, is_digit, is_lower, arith,
  Bool-cases, inl, inr,
}
use super_engine.Registry.Arch.{byte_len}
use super_engine.Spec.Paths.{is_safe_component, split-cons}

abbrev pub max_len : ℕ
max_len = 255

abbrev pub starts_with_lower : Text → Bool
starts_with_lower [] = false
starts_with_lower (c ∷ s) = is_lower c

abbrev pub ends_with : ℕ → Text → Bool
ends_with x [] = false
ends_with x (c ∷ []) = c == x
ends_with x (c ∷ d ∷ s) = ends_with x (d ∷ s)

abbrev pub is_id_char : ℕ → Bool
is_id_char c = is_lower c || is_digit c || c == b'-'

abbrev pub is_segment : Text → Bool
is_segment seg = starts_with_lower seg && not (ends_with b'-' seg) && all is_id_char seg

unfoldable pub is_valid : Text → Bool
unfolding split byte_len
is_valid s =
    if is_empty s || ltb max_len (byte_len s)
    then false
    else if ltb (length (split b'.' s)) 3
    then false
    else all is_segment (split b'.' s)

-- The characters of a text are those of its parts and the separator.
contains-split :
    (s : Text) (x : ℕ)
    → all (all is_id_char) (split b'.' s) ≡ true
    → is_id_char x ≡ false
    → (x == b'.') ≡ false
    → contains s x ≡ false
unfolding split
contains-split [] x h n d = refl
contains-split (c ∷ s) x h n d =
    let (part, parts, e) = split-cons b'.' s in
    let more = contains-split s x in
    elim (Bool-cases (c == b'.')) [
      | inl dot ↦
          ground
            (arith, nat_eq.beq_iff c b'.', nat_eq.beq_iff c x, nat_eq.beq_iff x b'.', more, dot)
      | inr other ↦ ground (arith, nat_eq.beq_iff c x, more, other, e)
    ]

dots : (is_valid (text ".") ≡ false) × (is_valid (text "..") ≡ false)
unfolding is_valid split byte_len
dots = (refl, refl)

is_other : (s t : Text) → is_valid s ≡ true → is_valid t ≡ false → (s == t) ≡ false
is_other s t h k = elim (Bool-cases (s == t)) [
  | inl e ↦ absurd (ground (arith, ap is_valid ((bytes_eq.beq_iff s t).0 e)))
  | inr e ↦ e
]

chars_of : (parts : List Text) → all is_segment parts ≡ true → all (all is_id_char) parts ≡ true
chars_of [] h = refl
chars_of (part ∷ parts) h = ground (arith, chars_of parts)

segments_of : (s : Text) → is_valid s ≡ true → all is_segment (split b'.' s) ≡ true
unfolding is_valid
segments_of s h = ground arith

-- A valid identifier is a single safe path component.
pub is_valid-is_safe_component : (s : Text) → is_valid s ≡ true → is_safe_component s ≡ true
unfolding is_safe_component
is_valid-is_safe_component [] h = absurd (unfold is_valid in ground arith)
is_valid-is_safe_component (c ∷ s) h =
    let (one, two) = dots in
    let is_one = is_other (c ∷ s) (text ".") h one in
    let is_two = is_other (c ∷ s) (text "..") h two in
    let chars = chars_of (split b'.' (c ∷ s)) (segments_of (c ∷ s) h) in
    let slash = contains-split (c ∷ s) b'/' chars refl refl in
    let backslash = contains-split (c ∷ s) b'\\' chars refl refl in
    let nul = contains-split (c ∷ s) 0 chars refl refl in
    rw (is_one, is_two, slash, backslash, nul) refl
