-- ===== src/Install/Swap/Others.antt =====
-- registry/install.rs: the paths that `swap_into_place` leaves alone.
use super_engine.Prelude.{
  ◌≡◌, refl, ◌∙◌, Bool, true, false, Text, Result, ok, err, lookup, ◌==◌, bytes_eq,
}
use super_engine.Install.FileSystem.{
  World, IoError, exists, rename, remove_dir_all, remove_dir_all-other, rename-other,
}
use super_engine.Install.Swap.{
  sidecar_of, put_in_place, after_move, then_put, swapped, swap_into_place,
}

module _ (staging final_path other : Text) (s : (staging == other) ≡ false)
    (f : (final_path == other) ≡ false) (b : (sidecar_of final_path == other) ≡ false) where
  after_move-other :
      (aside : Bool) (r : Result Unit IoError × World)
      → lookup other (after_move final_path aside r).1.dirs ≡ lookup other r.1.dirs
  after_move-other true (ok _, w) = remove_dir_all-other (sidecar_of final_path) other w b
  after_move-other false (ok _, w) = refl
  after_move-other true (err e, w) = rename-other (sidecar_of final_path) final_path other w b f
  after_move-other false (err e, w) = refl

  put_in_place-other :
      (aside : Bool) (w : World)
      → lookup other (put_in_place staging final_path aside w).1.dirs ≡ lookup other w.dirs
  unfolding put_in_place
  put_in_place-other aside w =
      after_move-other aside (rename staging final_path w)
      ∙ rename-other staging final_path other w s f

  then_put-other :
      (r : Result Unit IoError × World)
      → lookup other (then_put staging final_path r).1.dirs ≡ lookup other r.1.dirs
  then_put-other (ok _, w) = put_in_place-other true w
  then_put-other (err e, w) = refl

  -- A swap touches three paths.
  pub swap_into_place-other :
      (w : World) → lookup other (swap_into_place staging final_path w).1.dirs ≡ lookup other w.dirs
  unfolding swap_into_place
  swap_into_place-other w = by_existing (exists w final_path)
    where
      by_existing :
          (e : Bool) → lookup other (swapped staging final_path w e).1.dirs ≡ lookup other w.dirs
      by_existing false = put_in_place-other false w
      by_existing true =
          let w₁ = (remove_dir_all (sidecar_of final_path) w).1 in
          then_put-other (rename final_path (sidecar_of final_path) w₁)
          ∙ rename-other final_path (sidecar_of final_path) other w₁ f b
          ∙ remove_dir_all-other (sidecar_of final_path) other w b
