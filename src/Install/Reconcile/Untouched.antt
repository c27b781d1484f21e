-- ===== src/Install/Reconcile/Untouched.antt =====
-- registry/reconcile.rs: what folding duplicates leaves alone, and what a removed one has handed over.
use super_engine.Prelude.{
  ℕ, ◌+◌, ◌%◌, ◌^◌, ◌≡◌, refl, sym, ap, subst, ◌∙◌, true, false, Option, none, some, List, [], ◌∷◌,
  ◌++◌, ◌==◌, bytes_eq, Text, text, Result, ok, err, lookup, is_ok, is_some, contains, Option-cases,
  Bool-cases, inl, inr, ◌⊎◌, arith, Member, length, length-append,
}
use super_engine.Spec.Manifest.{Manifest, ManifestError}
use super_engine.Install.FileSystem.{World, IoError, remove_dir_all, remove_dir_all-other}
use super_engine.Install.CarryOver.{file_at, carry, or_nothing}
use super_engine.Install.CarryOver.Kept.{Keeps, carry-Keeps}
use super_engine.Install.CarryOver.Arrives.{carry-arrives}
use super_engine.Install.Survivors.{survivors}
use super_engine.Install.Reconcile.{
  Reconciled, parsed, manifest_at, after_removal, after_carry, fold_in, reconcile_one,
  reconcile_from, reconcile_into, reconcile_dirs,
}

after_removal-world :
    {C K M F64 : Type 0} (parse : Text → Result (Manifest C K M F64) ManifestError) (loser : Text)
    (out : Reconciled) (r : Result Unit IoError × World)
    → (after_removal parse loser out r).1 ≡ r.1
after_removal-world parse loser out (ok _, w) = refl
after_removal-world parse loser out (err e, w) = refl

module _ {C K M F64 : Type 0} (parse : Text → Result (Manifest C K M F64) ManifestError)
    (winner : Text) where
  -- No file of the winner is changed, and every directory that is neither the winner nor a loser with
  -- a manifest that parses is as it was.
  abbrev pub LeavesAlone : List Text → World → World → Type 0
  LeavesAlone losers w w' =
      ((k c : Text) → file_at w winner k ≡ some c → file_at w' winner k ≡ some c)
      × ((dir : Text)
          → (winner == dir) ≡ false
          → ((contains losers dir ≡ false) ⊎ (manifest_at parse w dir ≡ none))
          → lookup dir w'.dirs ≡ lookup dir w.dirs)

  module _ (new : Manifest C K M F64) where
    -- What one loser does: the winner keeps its files, and no third directory changes.
    abbrev Local : Text → World → World → Type 0
    Local loser w w' =
        ((k c : Text) → file_at w winner k ≡ some c → file_at w' winner k ≡ some c)
        × ((dir : Text)
            → (winner == dir) ≡ false
            → (loser == dir) ≡ false
            → lookup dir w'.dirs ≡ lookup dir w.dirs)

    after_carry-Local :
        (loser : Text) (out : Reconciled) (w : World) (r : Result ℕ IoError × World)
        → (loser == winner) ≡ false
        → Keeps loser winner w r.1
        → Local loser w (after_carry parse loser out r).1
    after_carry-Local loser out w (err e, v) apart (a, b, c) = (a, λ dir x y. c dir y x)
    after_carry-Local loser out w (ok bytes, v) apart (a, b, c) =
        let gone =
          after_removal-world parse loser
            (record out { reclaimed = (out.reclaimed + bytes) % 2 ^ 64 })
            (remove_dir_all loser v) in
        subst (Local loser w) (sym gone) (
          (λ k s h.
              ap (λ o. lookup k (or_nothing o)) (remove_dir_all-other loser winner v apart)
              ∙ a k s h),
          (λ dir x y. remove_dir_all-other loser dir v y ∙ c dir y x),
        )

    reconcile_one-Local :
        (loser : Text) (out : Reconciled) (w : World)
        → (loser == winner) ≡ false
        → Local loser w (reconcile_one parse new winner loser out w).1
    unfolding reconcile_one
    reconcile_one-Local loser out w apart = elim (Option-cases (manifest_at parse w loser)) [
      | inl e ↦
          subst (λ o. Local loser w (fold_in parse new winner loser out w o).1) (sym e)
            (λ k s h. h, λ dir x y. refl)
      | inr (old, e) ↦
          subst (λ o. Local loser w (fold_in parse new winner loser out w o).1) (sym e)
            (after_carry-Local loser out w (carry loser winner (survivors old.models new.models) w)
              apart (carry-Keeps loser winner (survivors old.models new.models) w apart).0)
    ]

    -- A loser whose manifest does not parse changes nothing.
    reconcile_one-unparsed :
        (loser : Text) (out : Reconciled) (w : World)
        → manifest_at parse w loser ≡ none
        → reconcile_one parse new winner loser out w ≡ (out, w)
    unfolding reconcile_one
    reconcile_one-unparsed loser out w e = ap (fold_in parse new winner loser out w) e

    reconcile_one-alone :
        (loser : Text) (out : Reconciled) (w : World) (dir : Text)
        → (loser == winner) ≡ false
        → (winner == dir) ≡ false
        → (((loser == dir) ≡ false) ⊎ (manifest_at parse w dir ≡ none))
        → lookup dir (reconcile_one parse new winner loser out w).1.dirs ≡ lookup dir w.dirs
    reconcile_one-alone loser out w dir apart x (inl y) =
        (reconcile_one-Local loser out w apart).1 dir x y
    reconcile_one-alone loser out w dir apart x (inr n) = elim (Bool-cases (loser == dir)) [
      | inr y ↦ (reconcile_one-Local loser out w apart).1 dir x y
      | inl y ↦
          let same = (bytes_eq.beq_iff loser dir).0 y in
          ap (λ r. lookup dir r.1.dirs)
            (reconcile_one-unparsed loser out w (ap (manifest_at parse w) same ∙ n))
    ]

    manifest_same :
        (w w' : World) (dir : Text)
        → lookup dir w'.dirs ≡ lookup dir w.dirs
        → manifest_at parse w' dir ≡ manifest_at parse w dir
    manifest_same w w' dir e =
        ap (λ o. parsed parse (lookup (text "backend.toml") (or_nothing o))) e

    reconcile_from-LeavesAlone :
        (losers : List Text) (out : Reconciled) (w : World)
        → contains losers winner ≡ false
        → LeavesAlone losers w (reconcile_from parse new winner losers out w).1
    unfolding reconcile_from
    reconcile_from-LeavesAlone [] out w h = (λ k s e. e, λ dir x y. refl)
    reconcile_from-LeavesAlone (loser ∷ losers) out w h =
        let apart : (loser == winner) ≡ false = ground arith in
        let (out₁, w₁) = reconcile_one parse new winner loser out w in
        let (files, dirs) = reconcile_from-LeavesAlone losers out₁ w₁ (ground arith) in
        (
          (λ k s e. files k s ((reconcile_one-Local loser out w apart).0 k s e)),
          (λ dir x y.
              let one = reconcile_one-alone loser out w dir apart x in
              elim y [
                | inl out_of ↦
                    let e = one (inl (ground arith)) in dirs dir x (inl (ground arith)) ∙ e
                | inr n ↦ let e = one (inr n) in dirs dir x (inr (manifest_same w w₁ dir e ∙ n)) ∙ e
              ]),
        )

  -- Folding duplicates into the winner, which is none of them, changes no file of the winner, and
  -- leaves every directory as it is that is no duplicate or whose manifest does not parse.
  pub reconcile_dirs-LeavesAlone :
      (losers : List Text) (w : World)
      → contains losers winner ≡ false
      → LeavesAlone losers w (reconcile_dirs parse losers winner w).1
  unfolding reconcile_dirs
  reconcile_dirs-LeavesAlone losers w h = into (manifest_at parse w winner)
    where
      into :
          (o : Option (Manifest C K M F64))
          → LeavesAlone losers w (reconcile_into parse o losers winner w).1
      into none = (λ k s e. e, λ dir x y. refl)
      into (some new) = reconcile_from-LeavesAlone new losers _ w h

  after_carry-hands_over :
      (loser : Text) (out : Reconciled) (w : World) (r : Result ℕ IoError × World) (d : Text)
      → (loser == winner) ≡ false
      → (after_carry parse loser out r).0.removed ≡ out.removed ++ loser ∷ []
      → (is_ok r.0 ≡ true → is_some (file_at r.1 winner d) ≡ true)
      → is_some (file_at (after_carry parse loser out r).1 winner d) ≡ true
  after_carry-hands_over loser out w (err e, v) d apart grown arrived =
      absurd (omega (arith, ap length grown, length-append out.removed (loser ∷ [])))
  after_carry-hands_over loser out w (ok bytes, v) d apart grown arrived =
      let counted = record out { reclaimed = (out.reclaimed + bytes) % 2 ^ 64 } in
      ap (λ x. is_some (file_at x winner d))
        (after_removal-world parse loser counted (remove_dir_all loser v))
      ∙ ap (λ o. is_some (lookup d (or_nothing o))) (remove_dir_all-other loser winner v apart)
      ∙ arrived refl

  -- A duplicate that is reported as removed has handed over: each of its files that survives is in
  -- the winner.
  pub reconcile_one-hands_over :
      (old new : Manifest C K M F64) (loser : Text) (out : Reconciled) (w : World) (d c : Text)
      → (loser == winner) ≡ false
      → manifest_at parse w loser ≡ some old
      → (reconcile_one parse new winner loser out w).0.removed ≡ out.removed ++ loser ∷ []
      → Member d (survivors old.models new.models)
      → file_at w loser d ≡ some c
      → is_some (file_at (reconcile_one parse new winner loser out w).1 winner d) ≡ true
  unfolding reconcile_one
  reconcile_one-hands_over old new loser out w d c apart e grown m f =
      let names = survivors old.models new.models in
      let same = ap (fold_in parse new winner loser out w) e in
      ap (λ r. is_some (file_at r.1 winner d)) same
      ∙ after_carry-hands_over loser out w (carry loser winner names w) d apart
          (ap (λ r. r.0.removed) (sym same) ∙ grown)
          (λ h. carry-arrives loser winner apart names w d c h m f)
