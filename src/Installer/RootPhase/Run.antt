-- ===== src/Installer/RootPhase/Run.antt =====
-- super-engine-installer/src/root_phase.rs: the root phase from the path of its manifest on. The JSON reader
-- is a parameter.
use super_engine.Prelude.{
  ℕ, ◌*◌, Bool, true, false, not, ◌||◌, Option, none, some, [], ◌∷◌, ◌==◌, nat_eq, if◌then◌else◌,
  Text, text, Result, ok, err, any, ltb,
}
use super_engine.Installer.RootPhase.{
  FilePath, is_absolute, located, parent_of, Manifest, Failure, no_parent, not_resolved, oversized,
  unreadable, unparsed, existed, measured, read, refreshed, Trace, Os, M, ◌>>=◌, ◌>>◌, fail, answer,
  require, ask, canonicalized, apply_manifest, allowed_roots,
}

abbrev pub max_manifest_bytes : ℕ
max_manifest_bytes = 256 * 1024

abbrev pub icon_cache : FilePath
icon_cache = text "usr" ∷ text "bin" ∷ text "gtk-update-icon-cache" ∷ []

-- `Path::parent`, which is empty for a name alone, and nothing resolves that.
abbrev pub dir_of : Text → Option (FilePath × Text)
dir_of path =
    if is_absolute path || any (λ c. c == b'/') path then parent_of (located path) else none

abbrev pub within_cap : Option ℕ → M (Unit {0})
within_cap none = fail unreadable
within_cap (some len) = require (not (ltb max_manifest_bytes len)) oversized

abbrev pub manifest_of : Option Manifest → M Manifest
manifest_of none = fail unparsed
manifest_of (some manifest) = answer manifest

abbrev pub parsed : (Text → Option Manifest) → Option Text → M Manifest
parsed from_json none = fail unreadable
parsed from_json (some content) = manifest_of (from_json content)

abbrev pub root_at : FilePath → Option FilePath → M FilePath
root_at parent none = fail (not_resolved parent)
root_at parent (some real) = answer real

module _ (os : Os) where
  unfoldable pub read_manifest : (Text → Option Manifest) → Text → M Manifest
  read_manifest from_json path =
      (ask (λ h. os.metadata_len h path) measured >>= within_cap)
      >> (ask (λ h. os.read_to_string h path) read >>= parsed from_json)

  abbrev pub root_below : Text → Option (FilePath × Text) → M FilePath
  root_below path none = fail (no_parent path)
  root_below path (some (parent, name)) = canonicalized os parent >>= root_at parent

  unfoldable pub staging_root_of : Text → M FilePath
  staging_root_of path = root_below path (dir_of path)

  abbrev pub refresh : Bool → Trace → Trace
  refresh false h = h
  refresh true h = refreshed ∷ h

  abbrev pub exit_code : Result (Unit {0}) Failure × Trace → ℕ × Trace
  exit_code (err e, h) = (3, h)
  exit_code (ok a, h) =
      (0, refresh (os.is_file h icon_cache) (existed icon_cache (os.is_file h icon_cache) ∷ h))

  unfoldable pub run : (pid : Text) → (Text → Option Manifest) → Text → Trace → ℕ × Trace
  unfolding read_manifest staging_root_of
  run pid from_json path h = exit_code (
      (read_manifest from_json path >>= λ manifest.
      staging_root_of path >>= λ root. apply_manifest os pid manifest allowed_roots root)
        h)
