-- ===== src/Install/Swap.antt =====
-- registry/install.rs: `swap_into_place`.
pub mod Safety
pub mod Sidecar
pub mod Others
use super_engine.Prelude.{
  ℕ, Bool, true, false, not, List, [], ◌∷◌, ◌++◌, if◌then◌else◌, Text, text, Result, ok, err,
}
use super_engine.Install.FileSystem.{Dir, World, IoError, exists, rename, remove_dir_all}

abbrev pub sidecar_of : Text → Text
sidecar_of final_path = final_path ++ text ".old"

-- The second half, once what was in place is moved aside.
abbrev after_move : Text → Bool → Result Unit IoError × World → Result Unit IoError × World
after_move final_path true (ok _, w) = (ok tt, (remove_dir_all (sidecar_of final_path) w).1)
after_move final_path false (ok _, w) = (ok tt, w)
after_move final_path true (err e, w) = (err e, (rename (sidecar_of final_path) final_path w).1)
after_move final_path false (err e, w) = (err e, w)

unfoldable pub put_in_place : Text → Text → Bool → World → Result Unit IoError × World
put_in_place staging final_path moved_aside w =
    after_move final_path moved_aside (rename staging final_path w)

abbrev then_put : Text → Text → Result Unit IoError × World → Result Unit IoError × World
then_put staging final_path (ok _, w) = put_in_place staging final_path true w
then_put staging final_path (err e, w) = (err e, w)

abbrev swapped : Text → Text → World → Bool → Result Unit IoError × World
swapped staging final_path w false = put_in_place staging final_path false w
swapped staging final_path w true =
    then_put staging final_path
      (rename final_path (sidecar_of final_path) (remove_dir_all (sidecar_of final_path) w).1)

unfoldable pub swap_into_place : Text → Text → World → Result Unit IoError × World
unfolding put_in_place
swap_into_place staging final_path w = swapped staging final_path w (exists w final_path)
