-- ===== src/Install/Swap/Safety.antt =====
-- registry/install.rs: `swap_into_place` under every failure of the file system.
use super_engine.Prelude.{
  ◌≡◌, sym, ap, subst, ◌∙◌, true, false, some, [], ◌∷◌, ◌==◌, bytes_eq, Text, text, length,
  length-append, All, Result, ok, err, lookup, insert, remove, Bool-cases, inl, inr, ◌⊎◌, arith,
}
use super_engine.Install.FileSystem.{
  Dir, Dirs, World, IoError, io_error, rename, remove_dir_all, became, rename-cases, moved-there,
  moved-other, remove_dir_all-other, differ_sym, remove_dir_all-trace,
}
use super_engine.Install.Swap.{sidecar_of, put_in_place, after_move, then_put, swap_into_place}

module _ (staging final_path : Text) (old new : Dir) where
  -- The old directory is in place or beside its place, or the new one is in place.
  abbrev pub IsRecoverable : Dirs → Type 0
  IsRecoverable dirs =
      (lookup final_path dirs ≡ some old)
      ⊎ (lookup (sidecar_of final_path) dirs ≡ some old)
      ⊎ (lookup final_path dirs ≡ some new)

  -- What a swap leaves: a success puts the new directory in place, and a failure leaves the old one
  -- in its place or beside it.
  abbrev pub IsSettled : Result Unit IoError × World → Type 0
  IsSettled (ok _, w) = lookup final_path w.dirs ≡ some new
  IsSettled (err e, w) =
      (lookup final_path w.dirs ≡ some old) ⊎ (lookup (sidecar_of final_path) w.dirs ≡ some old)

  abbrev Safe : Result Unit IoError × World → Type 0
  Safe r = IsSettled r × All IsRecoverable r.1.trace

  module _ (other : (sidecar_of final_path == final_path) ≡ false)
      (away : (staging == final_path) ≡ false)
      (beside : (staging == sidecar_of final_path) ≡ false) where
    rollback-Safe :
        (w : World)
        → lookup (sidecar_of final_path) w.dirs ≡ some old
        → All IsRecoverable w.trace
        → Safe (after_move final_path true (err io_error, w))
    rollback-Safe w kept t = elim (rename-cases (sidecar_of final_path) final_path w) [
      | inl (d, at, e) ↦
          let back = moved-there (sidecar_of final_path) final_path d w.dirs ∙ sym at ∙ kept in
          subst (λ r. Safe (err io_error, r.1)) (sym e) (inl back, (inl back, t))
      | inr e ↦ subst (λ r. Safe (err io_error, r.1)) (sym e) (inr kept, (inr (inl kept), t))
    ]

    -- The old directory is beside its place, and the new one is to be moved in.
    put_in_place-Safe :
        (w : World)
        → lookup (sidecar_of final_path) w.dirs ≡ some old
        → lookup staging w.dirs ≡ some new
        → All IsRecoverable w.trace
        → Safe (put_in_place staging final_path true w)
    unfolding put_in_place
    put_in_place-Safe w kept staged t = elim (rename-cases staging final_path w) [
      | inl (d, at, e) ↦
          let w₁ = became w (insert final_path d (remove staging w.dirs)) in
          let in_place : lookup final_path w₁.dirs ≡ some new =
            moved-there staging final_path d w.dirs ∙ sym at ∙ staged in
          let still : lookup final_path (remove_dir_all (sidecar_of final_path) w₁).1.dirs
              ≡ some new =
            remove_dir_all-other (sidecar_of final_path) final_path w₁ other ∙ in_place in
          subst (λ r. Safe (after_move final_path true r)) (sym e)
            (
              still,
              subst (All IsRecoverable) (sym (remove_dir_all-trace (sidecar_of final_path) w₁))
                  (inr (inr still), (inr (inr in_place), t)),
            )
      | inr e ↦
          subst (λ r. Safe (after_move final_path true r)) (sym e)
            (rollback-Safe (became w w.dirs) kept (inr (inl kept), t))
    ]

    -- What is in place is moved aside, after what was there is removed.
    then_put-Safe :
        (w : World)
        → lookup final_path w.dirs ≡ some old
        → lookup staging w.dirs ≡ some new
        → All IsRecoverable w.trace
        → Safe (then_put staging final_path (rename final_path (sidecar_of final_path) w))
    then_put-Safe w kept staged t = elim (rename-cases final_path (sidecar_of final_path) w) [
      | inl (d, at, e) ↦
          let w₁ = became w (insert (sidecar_of final_path) d (remove final_path w.dirs)) in
          let aside : lookup (sidecar_of final_path) w₁.dirs ≡ some old =
            moved-there final_path (sidecar_of final_path) d w.dirs ∙ sym at ∙ kept in
          let staged₁ : lookup staging w₁.dirs ≡ some new =
            moved-other final_path (sidecar_of final_path) staging d w.dirs
              (differ_sym staging final_path away)
              (differ_sym staging (sidecar_of final_path) beside)
            ∙ staged in
          subst (λ r. Safe (then_put staging final_path r)) (sym e)
            (put_in_place-Safe w₁ aside staged₁ (inr (inl aside), t))
      | inr e ↦ subst (λ r. Safe (then_put staging final_path r)) (sym e) (inl kept, (inl kept, t))
    ]

sidecar_is_other : (path : Text) → (sidecar_of path == path) ≡ false
sidecar_is_other path = elim (Bool-cases (sidecar_of path == path)) [
  | inr e ↦ e
  | inl e ↦ absurd (
      omega (
        arith,
        ap length ((bytes_eq.beq_iff (sidecar_of path) path).0 e),
        length-append path (text ".old"),
      ))
]

-- Whatever changes of the file system fail while a directory is replaced by another, which is staged
-- neither in its place nor beside it: after every change, so wherever a crash cuts the swap short,
-- the old directory stands whole in its place or in its `.old` sidecar, or the new one stands in
-- place; a success has put the new one in place, and a failure has left the old one.
pub swap_into_place-safe :
    (staging final_path : Text) (old new : Dir) (w : World)
    → (staging == final_path) ≡ false
    → (staging == sidecar_of final_path) ≡ false
    → lookup final_path w.dirs ≡ some old
    → lookup staging w.dirs ≡ some new
    → w.trace ≡ []
    → IsSettled staging final_path old new (swap_into_place staging final_path w)
      × All
          (IsRecoverable staging final_path old new)
          (swap_into_place staging final_path w).1.trace
unfolding swap_into_place
swap_into_place-safe staging final_path old new w away beside here staged fresh =
    let side = sidecar_of final_path in
    let apart = sidecar_is_other final_path in
    let w₁ = (remove_dir_all side w).1 in
    let here₁ = remove_dir_all-other side final_path w apart ∙ here in
    let staged₁ = remove_dir_all-other side staging w (differ_sym staging side beside) ∙ staged in
    let P = IsRecoverable staging final_path old new in
    let t₁ : All P w₁.trace =
      subst (All P) (sym (remove_dir_all-trace side w ∙ ap (λ l. w₁.dirs ∷ l) fresh))
        (inl here₁, tt) in
    rw here (then_put-Safe staging final_path old new apart away beside w₁ here₁ staged₁ t₁)
