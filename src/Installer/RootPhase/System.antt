-- ===== src/Installer/RootPhase/System.antt =====
-- What root_phase.rs calls of the operating system. A path is its text where the code compares texts,
-- and its components where the code compares paths. The system answers each call by what happened
-- before it, in any way; the trace has the calls and their answers, the newest first.
use super_engine.Prelude.{
  ℕ, Bool, true, false, not, ◌&&◌, Option, none, some, List, [], ◌∷◌, ◌==◌, nat_eq, bytes_eq,
  list_eq_of, if◌then◌else◌, Text, text, Result, ok, err, split, keep, any, is_empty,
}

abbrev pub FilePath : Type 0
FilePath = List Text

-- `Path::components`, without the root: the parts between slashes that are neither empty nor `.`.
abbrev is_part : Text → Bool
is_part s = not (is_empty s) && not (s == text ".")

unfoldable pub components : Text → FilePath
unfolding split
components s = keep is_part (split b'/' s)

unfoldable pub has_parent_dir : Text → Bool
unfolding components
has_parent_dir s = any (λ c. c == text "..") (components s)

abbrev pub is_absolute : Text → Bool
is_absolute [] = false
is_absolute (c ∷ s) = c == b'/'

-- A relative path is below `.`, the working directory.
abbrev pub located : Text → FilePath
located s = if is_absolute s then components s else text "." ∷ components s

-- `Path::parent` and the last component.
abbrev pub parent_of : FilePath → Option (FilePath × Text)
parent_of [] = none
parent_of (c ∷ []) = some ([], c)
parent_of (c ∷ d ∷ cs) = elim (parent_of (d ∷ cs)) [
  | none ↦ none
  | some (p, name) ↦ some (c ∷ p, name)
]

abbrev pub path_beq : FilePath → FilePath → Bool
path_beq = (list_eq_of bytes_eq).beq

-- `Path::starts_with` on absolute paths.
abbrev pub is_below : FilePath → FilePath → Bool
is_below [] p = true
is_below (c ∷ cs) [] = false
is_below (c ∷ cs) (d ∷ p) = c == d && is_below cs p

-- `InstallError::InstallFailed`, by what its sentence tells.
pub data Failure : Type 0 where
  not_absolute parent_component outside_roots outside_staging no_parent : (path : Text) → Failure
  special_mode : (mode : ℕ) → Failure
  not_made not_resolved not_copied not_chmodded not_renamed not_statted is_directory not_removed :
      (path : FilePath) → Failure
  symlinked : (path real : FilePath) → Failure
  oversized unreadable unparsed : Failure

-- A call of the operating system with its answer.
pub data Event : Type 0 where
  resolved : (path : FilePath) → Option FilePath → Event
  existed : (path : FilePath) → Bool → Event
  statted : (path : FilePath) → Option (Option Bool) → Event
  made_dirs removed : (path : FilePath) → Bool → Event
  copied : (source : Text) (path : FilePath) → Bool → Event
  chmodded : (path : FilePath) (mode : ℕ) → Bool → Event
  renamed : (from to : FilePath) → Bool → Event
  measured : Option ℕ → Event
  read : Option Text → Event
  refreshed : Event

abbrev pub Trace : Type 0
Trace = List Event

-- `symlink_metadata` of a path answers an error, nothing there, or whether it is a directory.
pub record Os : Type 0 where
  pub current_exe : Option FilePath
  pub canonicalize : Trace → FilePath → Option FilePath
  pub exists : Trace → FilePath → Bool
  pub stat : Trace → FilePath → Option (Option Bool)
  pub create_dir_all : Trace → FilePath → Bool
  pub remove_file : Trace → FilePath → Bool
  pub copy : Trace → Text → FilePath → Bool
  pub set_permissions : Trace → FilePath → ℕ → Bool
  pub rename : Trace → FilePath → FilePath → Bool
  pub metadata_len : Trace → Text → Option ℕ
  pub read_to_string : Trace → Text → Option Text
  pub is_file : Trace → FilePath → Bool

abbrev pub M : Type 0 → Type 0
M A = Trace → Result A Failure × Trace

abbrev pub bound : {A B : Type 0} → Result A Failure × Trace → (A → M B) → Result B Failure × Trace
bound (ok a, h) f = f a h
bound (err e, h) f = (err e, h)

infixl 5 ◌>>=◌
infixr 5 ◌>>◌
abbrev pub ◌>>=◌ : {A B : Type 0} → M A → (A → M B) → M B
◌>>=◌ m f h = bound (m h) f

abbrev pub ◌>>◌ : {B : Type 0} → M (Unit {0}) → M B → M B
m >> k = m >>= λ _. k

abbrev pub fail : {A : Type 0} → Failure → M A
fail e h = (err e, h)

abbrev pub answer : {A : Type 0} → A → M A
answer a h = (ok a, h)

abbrev pub done : M (Unit {0})
done h = (ok tt, h)

abbrev pub require : Bool → Failure → M (Unit {0})
require true e = done
require false e = fail e

-- A call that answers whether it worked.
abbrev pub act : (Trace → Bool) → (Bool → Event) → Failure → M (Unit {0})
act works event e h = (if works h then ok tt else err e, event (works h) ∷ h)

abbrev pub ask : {A : Type 0} → (Trace → A) → (A → Event) → M A
ask answer event h = (ok (answer h), event (answer h) ∷ h)
