-- ===== src/Spec/Manifest/Options.antt =====
-- super-engine-spec/src/manifest.rs: the values that a backend's option takes. What the code does
-- with a floating-point number is a parameter.
pub mod Takes
use super_engine.Prelude.{
  ℕ, suc, zero, ◌+◌, ◌*◌, ◌-◌, ◌^◌, ◌≤◌, ◌≡◌, refl, Bool, true, false, not, ◌&&◌, ◌||◌, Option,
  none, some, List, [], ◌∷◌, ◌++◌, ◌==◌, nat_eq, bytes_eq, if◌then◌else◌, Text, text, trim, decimal,
  parse_digits, Result, ok, err, is_none, is_some, is_empty, any, find, length, ltb, leb, is_digit,
  all, map,
}
use super_engine.Spec.Manifest.{
  Opt, OptionType, OptionDefault, ℤ, pos, negsuc, string, integer, float, bool,
}

-- What the code asks of `f64`: `parse`, `is_finite`, `>=` and `{:?}`.
pub record Floats (F64 : Type 0) : Type 0 where
  pub parse : Text → Option F64
  pub is_finite : F64 → Bool
  pub ge : F64 → F64 → Bool
  pub debug : F64 → Text

abbrev pub as_str : OptionType → Text
as_str string = text "string"
as_str integer = text "integer"
as_str float = text "float"
as_str bool = text "bool"

-- `str::parse::<i64>().is_ok()`: digits after an optional sign, of a value that 64 bits hold.
abbrev pub unsigned_at_most : ℕ → Text → Bool
unsigned_at_most top s = elim (parse_digits s) [ none ↦ false | some n ↦ leb n top ]

abbrev pub is_signed : Text → Bool
is_signed [] = false
is_signed (c ∷ s) =
    if c == b'-'
    then unsigned_at_most (2 ^ 63) s
    else if c == b'+'
    then unsigned_at_most (2 ^ 63 - 1) s
    else unsigned_at_most (2 ^ 63 - 1) (c ∷ s)

unfoldable pub parses_i64 : Text → Bool
parses_i64 s = is_signed s

abbrev pub display_i64 : ℤ → Text
display_i64 (pos n) = decimal n
display_i64 (negsuc n) = b'-' ∷ decimal (suc n)

abbrev pub or_string : Option OptionType → OptionType
or_string none = string
or_string (some t) = t

abbrev is_numeric : OptionType → Bool
is_numeric integer = true
is_numeric float = true
is_numeric _ = false

-- Why a value is refused, in place of the sentence.
pub data Refused (F64 : Type 0) : Type 0 where
  wrong_type : (name : Text) (wanted : OptionType) → Refused F64
  out_of_range : (name : Text) (low high : Option F64) → Refused F64
  not_offered : (name : Text) (offered : List Text) → Refused F64

module _ {F64 : Type 0} where
  abbrev pub display_default : Floats F64 → OptionDefault F64 → Text
  display_default f (string s) = s
  display_default f (integer i) = display_i64 i
  display_default f (float x) = f.debug x
  display_default f (bool true) = text "true"
  display_default f (bool false) = text "false"

  abbrev finite : Floats F64 → Option F64 → Bool
  finite f none = false
  finite f (some x) = f.is_finite x

  -- `OptionType::accepts`
  unfoldable pub type_accepts : Floats F64 → OptionType → Text → Bool
  unfolding trim parses_i64
  type_accepts f string value = true
  type_accepts f integer value = parses_i64 (trim value)
  type_accepts f float value = finite f (f.parse (trim value))
  type_accepts f bool value = trim value == text "true" || trim value == text "false"

  abbrev pub declared_type : Opt F64 → OptionType
  declared_type o = or_string o.type

  abbrev pub accepts_the_type : Floats F64 → Opt F64 → Text → Bool
  accepts_the_type f o value = type_accepts f (declared_type o) value

  abbrev at_least : Floats F64 → Option F64 → F64 → Bool
  at_least f none x = true
  at_least f (some low) x = f.ge x low

  abbrev at_most : Floats F64 → Option F64 → F64 → Bool
  at_most f none x = true
  at_most f (some high) x = f.ge high x

  unfoldable pub is_in_range : Floats F64 → Opt F64 → Text → Bool
  unfolding trim
  is_in_range f o value =
      if is_none o.min && is_none o.max then true else elim (f.parse (trim value)) [
        | none ↦ true
        | some x ↦ at_least f o.min x && at_most f o.max x
      ]

  abbrev pub is_a_choice : Floats F64 → Opt F64 → Text → Bool
  is_a_choice f o value = is_empty o.choices || any (λ c. display_default f c == value) o.choices

  unfoldable pub accepts : Floats F64 → Opt F64 → Text → Bool
  unfolding type_accepts is_in_range
  accepts f o value = accepts_the_type f o value && is_in_range f o value && is_a_choice f o value

  abbrev pub is_slider : Opt F64 → Bool
  is_slider o = is_numeric (declared_type o) && is_some o.min && is_some o.max && is_some o.step

  unfoldable pub permits_value : Floats F64 → Opt F64 → Text → Result Unit (Refused F64)
  unfolding type_accepts is_in_range
  permits_value f o value =
      if not (accepts_the_type f o value)
      then err (wrong_type o.name (declared_type o))
      else if not (is_in_range f o value)
      then err (out_of_range o.name o.min o.max)
      else if is_a_choice f o value
      then ok tt
      else err (not_offered o.name (map (display_default f) o.choices))

abbrev pub max_option_chars : ℕ
max_option_chars = 4000

-- `char::is_control`: the code points of the general category Cc.
abbrev pub is_control : ℕ → Bool
is_control c = ltb c 32 || (leb 127 c && ltb c 160)

abbrev pub named : ℕ → Text
named c =
    if c == 10
    then text "a line break"
    else if c == 13
    then text "a carriage return"
    else if c == 9
    then text "a tab"
    else text "a control character"

pub data Unshaped : Type 0 where
  too_long : (count : ℕ) → Unshaped
  not_one_line : (named : Text) → Unshaped

unfoldable pub permits_shape : Text → Result Unit Unshaped
permits_shape value =
    if ltb max_option_chars (length value)
    then err (too_long (length value))
    else elim (find is_control value) [ none ↦ ok tt | some bad ↦ err (not_one_line (named bad)) ]
