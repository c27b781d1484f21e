-- ===== src/Install/Reconcile.antt =====
-- registry/reconcile.rs: duplicate directories of one backend are folded into the one that is kept.
-- `parse` is the manifest parser.
pub mod Untouched
use super_engine.Prelude.{
  ℕ, ◌+◌, ◌%◌, ◌^◌, ◌≡◌, refl, Bool, true, false, Option, none, some, List, [], ◌∷◌, ◌++◌, ◌==◌,
  bytes_eq, if◌then◌else◌, Text, text, Result, ok, err, lookup, is_ok,
}
use super_engine.Spec.Manifest.{Manifest, ManifestError}
use super_engine.Install.FileSystem.{World, IoError, remove_dir_all}
use super_engine.Install.CarryOver.{file_at, carry}
use super_engine.Install.Survivors.{survivors}

pub record Reconciled : Type 0 where
  pub reclaimed : ℕ
  pub removed : List Text

module _ {C K M F64 : Type 0} (parse : Text → Result (Manifest C K M F64) ManifestError) where
  abbrev pub parsed : Option Text → Option (Manifest C K M F64)
  parsed none = none
  parsed (some s) = elim (parse s) [ ok m ↦ some m | err e ↦ none ]

  -- `Manifest::load(dir).ok()`
  abbrev pub manifest_at : World → Text → Option (Manifest C K M F64)
  manifest_at w dir = parsed (file_at w dir (text "backend.toml"))

  abbrev pub after_removal : Text → Reconciled → Result Unit IoError × World → Reconciled × World
  after_removal loser out (ok _, w) = (record out { removed = out.removed ++ loser ∷ [] }, w)
  after_removal loser out (err e, w) = (out, w)

  abbrev pub after_carry : Text → Reconciled → Result ℕ IoError × World → Reconciled × World
  after_carry loser out (ok bytes, w) =
      after_removal loser (record out { reclaimed = (out.reclaimed + bytes) % 2 ^ 64 })
        (remove_dir_all loser w)
  after_carry loser out (err e, w) = (out, w)

  -- What becomes of one loser, from its manifest.
  abbrev pub fold_in :
      Manifest C K M F64
      → Text
      → Text
      → Reconciled
      → World
      → Option (Manifest C K M F64)
      → Reconciled × World
  fold_in new winner loser out w none = (out, w)
  fold_in new winner loser out w (some old) =
      after_carry loser out (carry loser winner (survivors old.models new.models) w)

  unfoldable pub reconcile_one :
      Manifest C K M F64 → Text → Text → Reconciled → World → Reconciled × World
  unfolding carry survivors remove_dir_all
  reconcile_one new winner loser out w = fold_in new winner loser out w (manifest_at w loser)

  unfoldable pub reconcile_from :
      Manifest C K M F64 → Text → List Text → Reconciled → World → Reconciled × World
  unfolding reconcile_one
  reconcile_from new winner [] out w = (out, w)
  reconcile_from new winner (loser ∷ losers) out w =
      let (out₁, w₁) = reconcile_one new winner loser out w in
      reconcile_from new winner losers out₁ w₁

  abbrev nothing_done : Reconciled
  nothing_done = record { reclaimed = 0; removed = [] }

  abbrev pub reconcile_into :
      Option (Manifest C K M F64) → List Text → Text → World → Reconciled × World
  reconcile_into none losers winner w = (nothing_done, w)
  reconcile_into (some new) losers winner w = reconcile_from new winner losers nothing_done w

  unfoldable pub reconcile_dirs : List Text → Text → World → Reconciled × World
  unfolding reconcile_from
  reconcile_dirs losers winner w = reconcile_into (manifest_at w winner) losers winner w
