-- ===== src/Install/Swap/Sidecar.antt =====
-- registry/install.rs: the `.old` sidecar of `swap_into_place`, which the identifier of another
-- backend can name.
use mathlib.Core.List.{append_assoc}
use super_engine.Prelude.{
  ◌+◌, ◌≤◌, ◌≡◌, refl, sym, ap, subst, ◌∙◌, true, false, ◌&&◌, none, List, [], ◌∷◌, ◌++◌, ◌==◌,
  bytes_eq, nat_eq, Text, text, length, length-append, Result, ok, err, lookup, split, is_empty,
  all, is_ok, arith,
}
use super_engine.Registry.Arch.{byte_len}
use super_engine.Spec.Paths.{is_safe_component, path_join, split-append}
use super_engine.Spec.BackendId.{is_valid, is_segment, is_valid-is_safe_component}
use super_engine.Install.FileSystem.{
  World, IoError, remove_dir_all-calm, rename-calm, exists, rename, remove_dir_all,
}
use super_engine.Install.Swap.{sidecar_of, put_in_place, after_move, then_put, swap_into_place}

byte_len-append : (s t : Text) → byte_len (s ++ t) ≡ byte_len s + byte_len t
unfolding byte_len
byte_len-append [] t = omega arith
byte_len-append (c ∷ s) t = omega (arith, byte_len-append s t)

all-append :
    (xs ys : List Text) → all is_segment (xs ++ ys) ≡ (all is_segment xs && all is_segment ys)
all-append [] ys = refl
all-append (x ∷ xs) ys = ground (arith, all-append xs ys)

is_empty-sidecar : (id : Text) → is_empty (sidecar_of id) ≡ false
is_empty-sidecar [] = refl
is_empty-sidecar (c ∷ id) = refl

old_is_one : (byte_len (text ".old") ≡ 4) × (split b'.' (text "old") ≡ text "old" ∷ [])
unfolding byte_len split
old_is_one = (refl, refl)

is_valid-sidecar :
    (id : Text) → is_valid id ≡ true → byte_len id ≤ 251 → is_valid (sidecar_of id) ≡ true
unfolding is_valid
is_valid-sidecar id h l =
    let (four, one) = old_is_one in
    let parts : split b'.' (sidecar_of id) ≡ split b'.' id ++ text "old" ∷ [] =
      split-append b'.' id (text "old") ∙ ap (λ l. split b'.' id ++ l) one in
    let long = ap length parts ∙ length-append (split b'.' id) (text "old" ∷ []) in
    let size = byte_len-append id (text ".old") in
    let segments = ap (all is_segment) parts ∙ all-append (split b'.' id) (text "old" ∷ []) in
    ground (arith, is_empty-sidecar id, four, long, size, segments)

after_move-sidecar :
    (final_path : Text) (r : Result Unit IoError × World)
    → r.1.faults ≡ []
    → is_ok (after_move final_path true r).0 ≡ true
    → lookup (sidecar_of final_path) (after_move final_path true r).1.dirs ≡ none
after_move-sidecar final_path (ok _, w) calm h =
    (remove_dir_all-calm (sidecar_of final_path) w calm).1
after_move-sidecar final_path (err e, w) calm h = cc

then_put-sidecar :
    (staging final_path : Text) (r : Result Unit IoError × World)
    → r.1.faults ≡ []
    → is_ok (then_put staging final_path r).0 ≡ true
    → lookup (sidecar_of final_path) (then_put staging final_path r).1.dirs ≡ none
unfolding put_in_place
then_put-sidecar staging final_path (ok _, w) calm h =
    after_move-sidecar final_path (rename staging final_path w)
      (rename-calm staging final_path w calm) h
then_put-sidecar staging final_path (err e, w) calm h = cc

-- Where nothing fails, the sidecar is gone after a swap that moved a directory aside.
swap_into_place-sidecar :
    (staging final_path : Text) (w : World)
    → w.faults ≡ []
    → exists w final_path ≡ true
    → is_ok (swap_into_place staging final_path w).0 ≡ true
    → lookup (sidecar_of final_path) (swap_into_place staging final_path w).1.dirs ≡ none
unfolding swap_into_place
swap_into_place-sidecar staging final_path w calm here h =
    let side = sidecar_of final_path in
    let w₁ = (remove_dir_all side w).1 in
    let calm₁ = rename-calm final_path side w₁ (remove_dir_all-calm side w calm).0 in
    let whole = then_put-sidecar staging final_path (rename final_path side w₁) calm₁ in
    let apart : swap_into_place staging final_path w
        ≡ then_put staging final_path (rename final_path side w₁) =
      rw here refl in
    ap (λ r. lookup side r.1.dirs) apart ∙ whole (ap (λ r. is_ok r.0) (sym apart) ∙ h)

sidecar-path_join :
    (base id : Text)
    → is_safe_component id ≡ true
    → sidecar_of (path_join base id) ≡ path_join base (sidecar_of id)
unfolding is_safe_component
sidecar-path_join base [] h = absurd (ground arith)
sidecar-path_join base (c ∷ id) h =
    let relative : (c == b'/') ≡ false = ground arith in
    rw relative (append_assoc base (b'/' ∷ c ∷ id) (text ".old"))

-- The directory beside the one of a valid identifier of at most 251 bytes is the one of another
-- valid identifier; and a swap that replaces a directory, while the file system fails nothing,
-- removes what is installed there.
pub swap_into_place-neighbour :
    (staging base id : Text) (w : World)
    → is_valid id ≡ true
    → byte_len id ≤ 251
    → w.faults ≡ []
    → exists w (path_join base id) ≡ true
    → is_ok (swap_into_place staging (path_join base id) w).0 ≡ true
    → (is_valid (sidecar_of id) ≡ true)
      × (lookup
            (path_join base (sidecar_of id))
            (swap_into_place staging (path_join base id) w).1.dirs
          ≡ none)
swap_into_place-neighbour staging base id w v l calm here h =
    let final_path = path_join base id in
    let beside = sidecar-path_join base id (is_valid-is_safe_component id v) in
    (
      is_valid-sidecar id v l,
      subst (λ k. lookup k (swap_into_place staging final_path w).1.dirs ≡ none) beside
          (swap_into_place-sidecar staging final_path w calm here h),
    )
