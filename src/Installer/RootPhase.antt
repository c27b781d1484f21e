-- ===== src/Installer/RootPhase.antt =====
-- super-engine-installer/src/root_phase.rs, from a manifest that is read on, and the manifest of stage.rs.
pub mod Guarded
pub mod Run
pub mod System
use super_engine.Prelude.{
  ℕ, ◌+◌, ◌*◌, ◌/◌, ◌%◌, Bool, true, false, not, ◌&&◌, ◌||◌, Option, none, some, List, [], ◌∷◌,
  ◌++◌, ◌==◌, nat_eq, bytes_eq, list_eq_of, if◌then◌else◌, Text, text, Result, ok, err, split,
  strip_prefix, keep, any, is_empty, is_some, ltb,
}
pub use super_engine.Installer.RootPhase.System.{
  FilePath, components, has_parent_dir, is_absolute, located, parent_of, path_beq, is_below,
  Failure, Event, Trace, Os, M, bound, ◌>>=◌, ◌>>◌, fail, answer, done, require, act, ask,
  not_absolute, parent_component, outside_roots, outside_staging, no_parent, special_mode, not_made,
  not_resolved, not_copied, not_chmodded, not_renamed, not_statted, is_directory, not_removed,
  symlinked, oversized, unreadable, unparsed, resolved, existed, statted, made_dirs, removed,
  copied, chmodded, renamed, measured, read, refreshed,
}

pub record ManifestEntry : Type 0 where
  pub source : Text
  pub dest : Text
  pub mode : ℕ

pub record Manifest : Type 0 where
  pub entries : List ManifestEntry
  pub removals : List Text

unfoldable pub in_roots : List Text → Text → Bool
unfolding strip_prefix
in_roots roots s = any (λ root. is_some (strip_prefix root s)) roots

unfoldable pub validate_dest : Text → List Text → M (Unit {0})
unfolding has_parent_dir in_roots
validate_dest dest roots = do
  require (is_absolute dest) (not_absolute dest)
  require (not (has_parent_dir dest)) (parent_component dest)
  require (in_roots roots dest) (outside_roots dest)

-- `mode & 0o7000`
abbrev pub special_bits : ℕ → ℕ
special_bits mode = mode / 512 % 8

unfoldable pub validate_mode : ℕ → M (Unit {0})
validate_mode mode = require (special_bits mode == 0) (special_mode mode)

abbrev pub real_match : Option FilePath → Option FilePath → Bool
real_match (some p) (some q) = path_beq p q
real_match _ _ = false

module _ (os : Os) where
  abbrev pub canonicalized : FilePath → M (Option FilePath)
  canonicalized p = ask (λ h. os.canonicalize h p) (resolved p)

  abbrev pub same_file : FilePath → Option FilePath → M Bool
  same_file exe none = answer false
  same_file exe (some real) =
      canonicalized exe >>= λ current. answer (real_match (some real) current)

  abbrev pub self_exe : Option FilePath → FilePath → M Bool
  self_exe none source = answer false
  self_exe (some exe) source = canonicalized source >>= same_file exe

  unfoldable pub is_self_exe : Text → M Bool
  is_self_exe source = self_exe os.current_exe (located source)

  abbrev pub is_staged : Text → FilePath → Bool
  is_staged source staging_root = is_absolute source && is_below staging_root (components source)

  unfoldable pub validate_source : Text → FilePath → M (Unit {0})
  unfolding is_self_exe has_parent_dir
  validate_source source staging_root =
      require (not (has_parent_dir source)) (parent_component source)
      >> (is_self_exe source >>= λ own.
          require (own || is_staged source staging_root) (outside_staging source))

  abbrev pub same_dir : FilePath → Option FilePath → M (Unit {0})
  same_dir parent none = fail (not_resolved parent)
  same_dir parent (some real) = require (path_beq real parent) (symlinked parent real)

  unfoldable pub ensure_no_symlinked_ancestor : FilePath → M (Unit {0})
  ensure_no_symlinked_ancestor parent = canonicalized parent >>= same_dir parent

  abbrev pub remove_file : FilePath → M (Unit {0})
  remove_file p = act (λ h. os.remove_file h p) (removed p) (not_removed p)

  -- `let _ = remove_file(..)`
  abbrev pub try_remove : FilePath → M (Unit {0})
  try_remove p h = (ok tt, (remove_file p h).1)

  abbrev pub clean_up :
      FilePath → Result (Unit {0}) Failure × Trace → Result (Unit {0}) Failure × Trace
  clean_up tmp (ok a, h) = (ok a, h)
  clean_up tmp (err e, h) = (err e, (try_remove tmp h).1)

  abbrev pub put_file : ManifestEntry → FilePath → FilePath → M (Unit {0})
  put_file e tmp dest =
      act (λ h. os.copy h e.source tmp) (copied e.source tmp) (not_copied tmp)
      >> act (λ h. os.set_permissions h tmp e.mode) (chmodded tmp e.mode) (not_chmodded tmp)
      >> act (λ h. os.rename h tmp dest) (renamed tmp dest) (not_renamed tmp)

  abbrev pub tmp_name : (pid : Text) → Text → Text
  tmp_name pid name = text ".install." ++ pid ++ text "." ++ name ++ text ".tmp"

  abbrev pub written : ManifestEntry → FilePath → FilePath → M (Unit {0})
  written e tmp dest h = clean_up tmp (put_file e tmp dest h)

  abbrev pub install_in : (pid : Text) → ManifestEntry → Option (FilePath × Text) → M (Unit {0})
  install_in pid e none = fail (no_parent e.dest)
  install_in pid e (some (parent, name)) =
      act (λ h. os.create_dir_all h parent) (made_dirs parent) (not_made parent)
      >> ensure_no_symlinked_ancestor parent
      >> try_remove (parent ++ tmp_name pid name ∷ [])
      >> written e (parent ++ tmp_name pid name ∷ []) (components e.dest)

  unfoldable pub install_entry : (pid : Text) → ManifestEntry → M (Unit {0})
  unfolding ensure_no_symlinked_ancestor components
  install_entry pid e = install_in pid e (parent_of (components e.dest))

  abbrev pub unlink_as : FilePath → Option (Option Bool) → M (Unit {0})
  unlink_as p none = fail (not_statted p)
  unlink_as p (some none) = done
  unlink_as p (some (some true)) = fail (is_directory p)
  unlink_as p (some (some false)) = remove_file p

  abbrev pub unlink_below : FilePath → FilePath → Bool → M (Unit {0})
  unlink_below parent p false = done
  unlink_below parent p true =
      ensure_no_symlinked_ancestor parent >> (ask (λ h. os.stat h p) (statted p) >>= unlink_as p)

  abbrev pub unlink : Text → Option (FilePath × Text) → M (Unit {0})
  unlink path none = fail (no_parent path)
  unlink path (some (parent, name)) =
      ask (λ h. os.exists h parent) (existed parent) >>= unlink_below parent (components path)

  unfoldable pub remove_replaced : Text → M (Unit {0})
  unfolding ensure_no_symlinked_ancestor components
  remove_replaced path = unlink path (parent_of (components path))

  abbrev pub each : {A : Type 0} → (A → M (Unit {0})) → List A → M (Unit {0})
  each f [] = done
  each f (x ∷ xs) = f x >> each f xs

  abbrev pub validate_entry : List Text → FilePath → ManifestEntry → M (Unit {0})
  validate_entry roots staging_root e =
      validate_dest e.dest roots >> validate_mode e.mode >> validate_source e.source staging_root

  unfoldable pub apply_manifest : (pid : Text) → Manifest → List Text → FilePath → M (Unit {0})
  unfolding validate_dest validate_mode validate_source install_entry remove_replaced
  apply_manifest pid manifest roots staging_root =
      each (validate_entry roots staging_root) manifest.entries
      >> each (λ path. validate_dest path roots) manifest.removals
      >> each (install_entry pid) manifest.entries
      >> each remove_replaced manifest.removals

abbrev pub allowed_roots : List Text
allowed_roots = text "/usr/local/" ∷ text "/usr/lib/systemd/user/" ∷ []
