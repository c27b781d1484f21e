-- ===== src/Install/Serving.antt =====
-- registry/install.rs: which directory serves a backend, and the last half of an installation, from
-- the staged directory to the one in place. `parse` is the manifest parser.
pub mod Others
use super_engine.Prelude.{
  ℕ, ◌≡◌, refl, Bool, true, false, not, ◌&&◌, ◌||◌, Option, none, some, List, [], ◌∷◌, ◌++◌, ◌==◌,
  bytes_eq, nat_eq, if◌then◌else◌, Text, text, Result, ok, err, lookup, map, find, contains,
  strip_prefix, is_empty,
}
use super_engine.Spec.Manifest.{Manifest, ManifestError}
use super_engine.Spec.Paths.{path_join}
use super_engine.Install.FileSystem.{World, Dir, IoError, io_error, remove_dir_all}
use super_engine.Install.CarryOver.{carry}
use super_engine.Install.Survivors.{survivors}
use super_engine.Install.Reconcile.{manifest_at}
use super_engine.Install.Swap.{swap_into_place}

pub data InstallPhase : Type 0 where
  resolving downloading verifying extracting installing rescanning : InstallPhase

pub data InstallError : Type 0 where
  incompatible download_failed asset_hash_mismatch tarball_unsafe install_io_error manifest_invalid
        install_dir_conflict :
      InstallError

abbrev pub Failure : Type 0
Failure = InstallPhase × InstallError

abbrev pub staging_dir_name : Text
staging_dir_name = text ".staging"

abbrev pub key : Text × Dir → Text
key (path, files) = path

-- The name of an entry of a directory, if the path is one.
abbrev entry_name : Option Text → Option Text
entry_name none = none
entry_name (some name) = if is_empty name || contains name b'/' then none else some name

abbrev pub child_of : Text → Text → Option Text
child_of base path = entry_name (strip_prefix (path_join base []) path)

abbrev pub is_skipped : Option Text → Text → Option Text → Bool
is_skipped none path exclude = true
is_skipped (some name) path none = name == staging_dir_name
is_skipped (some name) path (some e) = name == staging_dir_name || path == e

abbrev pub after_swap : Result Unit IoError × World → Result Unit Failure × World
after_swap (ok _, w) = (ok tt, w)
after_swap (err e, w) = (err (installing, install_io_error), w)

abbrev pub or_final : Text → Option Text → Text
or_final final_path none = final_path
or_final final_path (some dir) = dir

module _ {C K M F64 : Type 0} (parse : Text → Result (Manifest C K M F64) ManifestError) where
  abbrev pub has_source : Text → Option (Manifest C K M F64) → Bool
  has_source source none = false
  has_source source (some m) = m.backend.source == source

  abbrev pub serves : World → Text → Text → Bool
  serves w source path = has_source source (manifest_at parse w path)

  -- The first entry that `read_dir` gives, in whatever order it does.
  unfoldable pub find_serving : Text → Text → Option Text → World → Option Text
  unfolding strip_prefix
  find_serving backends_dir source exclude w =
      find
        (λ path. not (is_skipped (child_of backends_dir path) path exclude) && serves w source path)
        (map key w.dirs)

  abbrev pub previous_dir_for : Text → Text → World → Option Text
  previous_dir_for backends_dir source w = find_serving backends_dir source none w

  abbrev pub retired : World → Option Text → Option Text × World
  retired w none = (none, w)
  retired w (some dir) = (some dir, (remove_dir_all dir w).1)

  unfoldable pub retire_previous_dir : Text → Text → Text → World → Option Text × World
  unfolding find_serving remove_dir_all
  retire_previous_dir backends_dir source keep w =
      retired w (find_serving backends_dir source (some keep) w)

  abbrev pub preserved :
      Text
      → Text
      → World
      → Option (Manifest C K M F64)
      → Option (Manifest C K M F64)
      → Result ℕ IoError × World
  preserved staging from_dir w (some old) (some new) =
      let names = survivors old.models new.models in
      if is_empty names then (ok 0, w) else carry from_dir staging names w
  preserved staging from_dir w (some old) none = (ok 0, w)
  preserved staging from_dir w none new = (ok 0, w)

  unfoldable pub preserve_models : Text → Text → World → Result ℕ IoError × World
  unfolding survivors carry
  preserve_models staging from_dir w =
      preserved staging from_dir w (manifest_at parse w from_dir) (manifest_at parse w staging)

  abbrev pub is_other : Text → Option (Manifest C K M F64) → Bool
  is_other source none = false
  is_other source (some occupant) = not (occupant.backend.source == source)

  unfoldable pub ensure_dir_free_for : Text → Text → World → Result Unit Failure
  ensure_dir_free_for final_path source w =
      if is_other source (manifest_at parse w final_path)
      then err (installing, install_dir_conflict)
      else ok tt

  abbrev pub after_preserve : Text → Text → Result ℕ IoError × World → Result Unit Failure × World
  after_preserve staging final_path (ok _, w) = after_swap (swap_into_place staging final_path w)
  after_preserve staging final_path (err e, w) = (err (installing, install_io_error), w)

  abbrev pub inherit_from : Text → Text → Text → World → Text
  inherit_from backends_dir final_path source w =
      or_final final_path (previous_dir_for backends_dir source w)

  abbrev pub if_free :
      Text → Text → Text → Text → World → Result Unit Failure → Result Unit Failure × World
  if_free backends_dir staging final_path source w (err e) = (err e, w)
  if_free backends_dir staging final_path source w (ok _) =
      after_preserve staging final_path
        (preserve_models staging (inherit_from backends_dir final_path source w) w)

  -- `run` and `run_local`, once `staging` is complete.
  unfoldable pub put_staged : Text → Text → Text → Text → World → Result Unit Failure × World
  unfolding ensure_dir_free_for find_serving preserve_models swap_into_place
  put_staged backends_dir staging final_path source w =
      if_free backends_dir staging final_path source w (ensure_dir_free_for final_path source w)
