-- ===== src/Prelude/Texts/Utf8.antt =====
-- UTF-8: the bytes of a code point, as `String` keeps them.
use Prim.Native.Nat.{ℕ, ◌+◌, ◌/◌, ◌%◌}
use mathlib.Core.Path.{◌≡◌}
use mathlib.Core.Bool.{false}
use mathlib.Core.List.{List, [], ◌∷◌, ◌++◌}
use native.Mathlib.Omega.{arith}
use super_engine.Prelude.Tests.{if◌then◌else◌, ltb}
use super_engine.Prelude.Lists.{All, All-append}
use super_engine.Prelude.Equality.{◌==◌, nat_eq}
use super_engine.Prelude.Texts.{Text}

abbrev continuation : ℕ → ℕ
continuation n = 128 + n % 64

unfoldable pub utf8_of : ℕ → List ℕ
utf8_of c =
    if ltb c 0x80
    then c ∷ []
    else if ltb c 0x800
    then (192 + c / 64) ∷ continuation c ∷ []
    else if ltb c 0x10000
    then (224 + c / 4096) ∷ continuation (c / 64) ∷ continuation c ∷ []
    else (240 + c / 262144) ∷ continuation (c / 4096) ∷ continuation (c / 64) ∷ continuation c ∷ []

unfoldable pub utf8 : Text → List ℕ
unfolding utf8_of
utf8 [] = []
utf8 (c ∷ s) = utf8_of c ++ utf8 s

-- Neither a line feed nor a carriage return.
abbrev pub IsInline : ℕ → Type 0
IsInline c = ((c == 10) ≡ false) × ((c == 13) ≡ false)

utf8_of-IsInline : (c : ℕ) → IsInline c → All IsInline (utf8_of c)
unfolding utf8_of
utf8_of-IsInline c h = ground (arith, h)

-- The bytes of a line are those of a line.
pub utf8-IsInline : (s : Text) → All IsInline s → All IsInline (utf8 s)
unfolding utf8
utf8-IsInline [] h = tt
utf8-IsInline (c ∷ s) (inline, h) =
    All-append IsInline (utf8_of c) (utf8 s) (utf8_of-IsInline c inline) (utf8-IsInline s h)
