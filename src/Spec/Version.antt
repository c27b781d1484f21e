-- ===== src/Spec/Version.antt =====
-- super-engine-spec/src/version.rs: versions and updates. The `semver` crate is a parameter.
use super_engine.Prelude.{◌≡◌, Bool, true, false, not, Option, none, some, Text, text, strip_prefix}

-- `Version::parse`, the order of versions, and whether `pre` is not empty.
pub record Semver (V : Type 0) : Type 0 where
  pub parse : Text → Option V
  pub le : V → V → Bool
  pub is_prerelease : V → Bool

-- Precedence of versions is a total order.
pub record IsOrdered {V : Type 0} (sv : Semver V) : Type 0 where
  pub total : (v w : V) → sv.le v w ≡ false → sv.le w v ≡ true
  pub trans : (u v w : V) → sv.le u v ≡ true → sv.le v w ≡ true → sv.le u w ≡ true
  pub self : (v : V) → sv.le v v ≡ true

abbrev unprefixed : Text → Option Text → Text
unprefixed s none = s
unprefixed s (some rest) = rest

module _ {V : Type 0} where
  unfoldable pub parse_version : Semver V → Text → Option V
  unfolding strip_prefix
  parse_version sv s = sv.parse (unprefixed s (strip_prefix (text "v") s))

  abbrev pub is_newer : Semver V → Option V → Option V → Bool
  is_newer sv (some have) (some want) = not (sv.le want have)
  is_newer sv _ _ = false

  unfoldable pub update_available : Semver V → Text → Text → Bool
  update_available sv installed candidate =
      is_newer sv (parse_version sv installed) (parse_version sv candidate)
