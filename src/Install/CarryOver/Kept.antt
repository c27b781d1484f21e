-- ===== src/Install/CarryOver/Kept.antt =====
-- registry/carry_over.rs: what `carry` keeps of the files, whatever fails on the way.
use super_engine.Prelude.{
  ℕ, ◌+◌, ◌%◌, ◌^◌, ◌≡◌, refl, sym, ap, ◌∙◌, false, Option, none, some, List, [], ◌∷◌, ◌==◌,
  bytes_eq, if◌then◌else◌, Text, all, Result, err, lookup, insert, remove, lookup-insert,
  lookup-remove, Bool-cases, inl, inr, ◌⊎◌, arith,
}
use super_engine.Spec.Paths.{is_safe_relative_path}
use super_engine.Install.FileSystem.{World, Fault, IoError, io_error, became, next_fault}
use super_engine.Install.CarryOver.{
  files_at, file_at, Carried, skipped, moved, stopped, carry_one, carry_from, carry, put_file,
  go_on, or_nothing, carried, after_rename, after_parent,
}

module _ (from_dir to_dir : Text) where
  -- No file of the target is changed, each file of the source is still there or in the target with
  -- the same content, and no other directory is touched.
  abbrev pub Keeps : World → World → Type 0
  Keeps w w' =
      ((k c : Text) → file_at w to_dir k ≡ some c → file_at w' to_dir k ≡ some c)
      × ((k c : Text)
          → file_at w from_dir k ≡ some c
          → (file_at w' from_dir k ≡ some c) ⊎ (file_at w' to_dir k ≡ some c))
      × ((dir : Text)
          → (from_dir == dir) ≡ false
          → (to_dir == dir) ≡ false
          → lookup dir w'.dirs ≡ lookup dir w.dirs)

  abbrev keeps_same : (w : World) → Keeps w (became w w.dirs)
  keeps_same w = (λ k c h. h, λ k c h. inl h, λ dir f t. refl)

  keeps_trans : (w₁ w₂ w₃ : World) → Keeps w₁ w₂ → Keeps w₂ w₃ → Keeps w₁ w₃
  keeps_trans w₁ w₂ w₃ (a, b, c) (x, y, z) = (
    (λ k s h. x k s (a k s h)),
    (λ k s h. elim (b k s h) [ inl f ↦ y k s f | inr t ↦ inr (x k s t) ]),
    (λ dir f t. z dir f t ∙ c dir f t),
  )

  module _ (apart : (from_dir == to_dir) ≡ false) where
    to_from : (to_dir == from_dir) ≡ false
    to_from =
        ground (arith, apart, bytes_eq.beq_iff from_dir to_dir, bytes_eq.beq_iff to_dir from_dir)

    pub file_at-to :
        (dest content k : Text) (w : World)
        → file_at (put_file from_dir to_dir dest content w) to_dir k
          ≡ (if dest == k then some content else file_at w to_dir k)
    file_at-to dest content k w =
        let there : lookup to_dir (put_file from_dir to_dir dest content w).dirs
            ≡ some (insert dest content (files_at w to_dir)) =
          lookup-insert to_dir to_dir (insert dest content (files_at w to_dir))
            (insert from_dir (remove dest (files_at w from_dir)) w.dirs)
          ∙ ground (arith, bytes_eq.beq_iff to_dir to_dir) in
        ap (λ o. lookup k (or_nothing o)) there ∙ lookup-insert dest k content (files_at w to_dir)

    file_at-from :
        (dest content k : Text) (w : World)
        → file_at (put_file from_dir to_dir dest content w) from_dir k
          ≡ (if dest == k then none else file_at w from_dir k)
    file_at-from dest content k w =
        let there : lookup from_dir (put_file from_dir to_dir dest content w).dirs
            ≡ some (remove dest (files_at w from_dir)) =
          lookup-insert to_dir from_dir (insert dest content (files_at w to_dir))
            (insert from_dir (remove dest (files_at w from_dir)) w.dirs)
          ∙ rw to_from (
              lookup-insert from_dir from_dir (remove dest (files_at w from_dir)) w.dirs
              ∙ ground (arith, bytes_eq.beq_iff from_dir from_dir)) in
        ap (λ o. lookup k (or_nothing o)) there ∙ lookup-remove dest k (files_at w from_dir)

    dirs-put_file :
        (dest content dir : Text) (w : World)
        → (from_dir == dir) ≡ false
        → (to_dir == dir) ≡ false
        → lookup dir (put_file from_dir to_dir dest content w).dirs ≡ lookup dir w.dirs
    dirs-put_file dest content dir w f t =
        lookup-insert to_dir dir (insert dest content (files_at w to_dir))
          (insert from_dir (remove dest (files_at w from_dir)) w.dirs)
        ∙ rw t (lookup-insert from_dir dir (remove dest (files_at w from_dir)) w.dirs ∙ rw f refl)

    put_file-Keeps :
        (dest content : Text) (w : World)
        → file_at w from_dir dest ≡ some content
        → file_at w to_dir dest ≡ none
        → Keeps w (put_file from_dir to_dir dest content w)
    put_file-Keeps dest content w here free = (
      (λ k c h. file_at-to dest content k w ∙ elim (Bool-cases (dest == k)) [
        | inr e ↦ rw e h
        | inl e ↦
            let same = (bytes_eq.beq_iff dest k).0 e in
            absurd (ground (arith, sym free ∙ ap (file_at w to_dir) same ∙ h))
      ]),
      (λ k c h. elim (Bool-cases (dest == k)) [
        | inr e ↦ inl (file_at-from dest content k w ∙ rw e h)
        | inl e ↦
            let same = (bytes_eq.beq_iff dest k).0 e in
            inr (file_at-to dest content k w ∙ rw e (sym here ∙ ap (file_at w from_dir) same ∙ h))
      ]),
      (λ dir f t. dirs-put_file dest content dir w f t),
    )

    -- What a move keeps, by what it comes to.
    abbrev pub CarriedKeeps : World → Carried → Type 0
    CarriedKeeps w skipped = Unit {0}
    CarriedKeeps w (moved n w') = Keeps w w'
    CarriedKeeps w (stopped w') = Keeps w w'

    after_rename-Keeps :
        (dest content : Text) (w : World) (f : Fault)
        → file_at w from_dir dest ≡ some content
        → file_at w to_dir dest ≡ none
        → CarriedKeeps w (after_rename from_dir to_dir dest content (became w w.dirs) f)
    after_rename-Keeps dest content w none here free =
        put_file-Keeps dest content (became w w.dirs) here free
    after_rename-Keeps dest content w (some left) here free = keeps_same w

    after_parent-Keeps :
        (dest content : Text) (w : World) (f : Fault)
        → file_at w from_dir dest ≡ some content
        → file_at w to_dir dest ≡ none
        → CarriedKeeps w (after_parent from_dir to_dir dest content w f)
    after_parent-Keeps dest content w none here free =
        after_rename-Keeps dest content w (next_fault (became w w.dirs).faults) here free
    after_parent-Keeps dest content w (some left) here free = keeps_same w

    carried-Keeps :
        (dest : Text) (w : World) (from to : Option Text)
        → file_at w from_dir dest ≡ from
        → file_at w to_dir dest ≡ to
        → CarriedKeeps w (carried from_dir to_dir dest w from to)
    carried-Keeps dest w none to here free = tt
    carried-Keeps dest w (some content) (some there) here free = tt
    carried-Keeps dest w (some content) none here free =
        after_parent-Keeps dest content w (next_fault w.faults) here free

    pub carry_one-Keeps :
        (dest : Text) (w : World) → CarriedKeeps w (carry_one from_dir to_dir dest w)
    unfolding carry_one
    carry_one-Keeps dest w =
        carried-Keeps dest w (file_at w from_dir dest) (file_at w to_dir dest) refl refl

    go_on-Keeps :
        (rest : ℕ → World → Result ℕ IoError × World) (total : ℕ) (w : World) (c : Carried)
        → ((t : ℕ) (v : World) → Keeps v (rest t v).1)
        → CarriedKeeps w c
        → Keeps w (go_on rest total w c).1
    go_on-Keeps rest total w skipped later h = later total w
    go_on-Keeps rest total w (moved n w₁) later h =
        let total₁ = (total + n) % 2 ^ 64 in keeps_trans w w₁ (rest total₁ w₁).1 h (later total₁ w₁)
    go_on-Keeps rest total w (stopped w₁) later h = h

    pub carry_from-Keeps :
        (total : ℕ) (destinations : List Text) (w : World)
        → Keeps w (carry_from from_dir to_dir total destinations w).1
    unfolding carry_from
    carry_from-Keeps total [] w = (λ k c h. h, λ k c h. inl h, λ dir f t. refl)
    carry_from-Keeps total (dest ∷ destinations) w =
        go_on-Keeps (λ t v. carry_from from_dir to_dir t destinations v) total w
          (carry_one from_dir to_dir dest w) (λ t v. carry_from-Keeps t destinations v)
          (carry_one-Keeps dest w)

-- Whatever changes of the file system fail, moving files from one directory to another changes no
-- file of the target, leaves every file of the source there or in the target with the same content,
-- and touches no other directory; where a destination is not a safe path, it does nothing at all.
pub carry-Keeps :
    (from_dir to_dir : Text) (destinations : List Text) (w : World)
    → (from_dir == to_dir) ≡ false
    → Keeps from_dir to_dir w (carry from_dir to_dir destinations w).1
      × (all is_safe_relative_path destinations ≡ false
          → carry from_dir to_dir destinations w ≡ (err io_error, w))
unfolding carry
carry-Keeps from_dir to_dir destinations w apart =
    elim (Bool-cases (all is_safe_relative_path destinations)) [
      | inl safe ↦ (
        rw safe (carry_from-Keeps from_dir to_dir apart 0 destinations w),
        λ h. absurd (ground (arith, safe)),
      )
      | inr bad ↦ (rw bad (λ k c h. h, λ k c h. inl h, λ dir f t. refl), λ h. rw h refl)
    ]
