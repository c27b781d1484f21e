-- ===== src/Install/CarryOver.antt =====
-- registry/carry_over.rs: `carry`, which moves model files from a backend directory into another.
pub mod Kept
pub mod Arrives
use super_engine.Prelude.{
  ℕ, ◌+◌, ◌%◌, ◌^◌, ◌≡◌, refl, Bool, true, false, not, ◌&&◌, ◌||◌, Option, none, some, List, [],
  ◌∷◌, ◌++◌, ◌==◌, bytes_eq, if◌then◌else◌, Text, text, all, is_some, is_none, Result, ok, err,
  lookup, insert, remove, length,
}
use super_engine.Spec.Paths.{is_safe_relative_path}
use super_engine.Install.FileSystem.{Dir, World, Fault, IoError, io_error, became, next_fault}

abbrev pub or_nothing : Option Dir → Dir
or_nothing none = []
or_nothing (some files) = files

abbrev pub files_at : World → Text → Dir
files_at w dir = or_nothing (lookup dir w.dirs)

abbrev pub file_at : World → Text → Text → Option Text
file_at w dir path = lookup path (files_at w dir)

-- What the move of one destination comes to.
pub data Carried : Type 0 where
  skipped : Carried
  moved : (bytes : ℕ) → World → Carried
  stopped : World → Carried

-- `rename` of a file with this content from one directory into the other, where none is.
abbrev pub put_file : Text → Text → Text → Text → World → World
put_file from_dir to_dir dest content w = became w (
    insert to_dir (insert dest content (files_at w to_dir))
      (insert from_dir (remove dest (files_at w from_dir)) w.dirs))

abbrev pub after_rename : Text → Text → Text → Text → World → Fault → Carried
after_rename from_dir to_dir dest content w none =
    moved (length content) (put_file from_dir to_dir dest content w)
after_rename from_dir to_dir dest content w (some left) = stopped (became w w.dirs)

-- `create_dir_all` of the parent of a file comes before: what it makes shows only in the files.
abbrev pub after_parent : Text → Text → Text → Text → World → Fault → Carried
after_parent from_dir to_dir dest content w (some left) = stopped (became w w.dirs)
after_parent from_dir to_dir dest content w none =
    let w₁ = became w w.dirs in after_rename from_dir to_dir dest content w₁ (next_fault w₁.faults)

abbrev pub carried : Text → Text → Text → World → Option Text → Option Text → Carried
carried from_dir to_dir dest w none there = skipped
carried from_dir to_dir dest w (some content) (some there) = skipped
carried from_dir to_dir dest w (some content) none =
    after_parent from_dir to_dir dest content w (next_fault w.faults)

unfoldable pub carry_one : Text → Text → Text → World → Carried
unfolding lookup insert remove
carry_one from_dir to_dir dest w =
    carried from_dir to_dir dest w (file_at w from_dir dest) (file_at w to_dir dest)

abbrev pub go_on :
    (ℕ → World → Result ℕ IoError × World) → ℕ → World → Carried → Result ℕ IoError × World
go_on rest total w skipped = rest total w
go_on rest total w (moved n w₁) = rest ((total + n) % 2 ^ 64) w₁
go_on rest total w (stopped w₁) = (err io_error, w₁)

-- The loop, with the bytes moved so far as a `u64`.
unfoldable pub carry_from : Text → Text → ℕ → List Text → World → Result ℕ IoError × World
unfolding carry_one
carry_from from_dir to_dir total [] w = (ok total, w)
carry_from from_dir to_dir total (dest ∷ destinations) w =
    go_on (λ t v. carry_from from_dir to_dir t destinations v) total w
      (carry_one from_dir to_dir dest w)

unfoldable pub carry : Text → Text → List Text → World → Result ℕ IoError × World
unfolding carry_from
carry from_dir to_dir destinations w =
    if not (all is_safe_relative_path destinations)
    then (err io_error, w)
    else carry_from from_dir to_dir 0 destinations w
