-- ===== src/Install/Serving/Others.antt =====
-- registry/install.rs: an installation and the directories of other backends.
use super_engine.Prelude.{
  ℕ, ◌≡◌, refl, ap, subst, ◌∙◌, Bool, true, false, not, ◌&&◌, Option, none, some, List, [], ◌∷◌,
  ◌==◌, bytes_eq, Text, Result, ok, err, lookup, map, find, is_empty, Bool-cases, Option-cases, inl,
  inr, ◌⊎◌, arith,
}
use super_engine.Spec.Manifest.{Manifest, ManifestError}
use super_engine.Install.FileSystem.{World, IoError, remove_dir_all-other}
use super_engine.Install.CarryOver.Kept.{carry-Keeps}
use super_engine.Install.Survivors.{survivors}
use super_engine.Install.Reconcile.{manifest_at}
use super_engine.Install.Swap.{sidecar_of, swap_into_place}
use super_engine.Install.Swap.Others.{swap_into_place-other}
use super_engine.Install.Serving.{
  installing, install_dir_conflict, child_of, is_skipped, key, or_final, has_source, serves,
  find_serving, retire_previous_dir, retired, preserved, preserve_models, is_other,
  ensure_dir_free_for, after_swap, after_preserve, inherit_from, put_staged,
}

after_swap-world : (r : Result Unit IoError × World) → (after_swap r).1 ≡ r.1
after_swap-world (ok _, w) = refl
after_swap-world (err e, w) = refl

find-some : (p : Text → Bool) (xs : List Text) (x : Text) → find p xs ≡ some x → p x ≡ true
find-some p [] x h = cc
find-some p (y ∷ xs) x h = elim (Bool-cases (p y)) [
  | inl e ↦ ground (arith, e)
  | inr e ↦ find-some p xs x (ground (arith, e))
]

module _ {C K M F64 : Type 0} (parse : Text → Result (Manifest C K M F64) ManifestError) where
  -- What is found is an entry of the backends directory and serves the source.
  find_serving_sound :
      (base source : Text) (exclude : Option Text) (w : World) (dir : Text)
      → find_serving parse base source exclude w ≡ some dir
      → (serves parse w source dir ≡ true) × (is_skipped (child_of base dir) dir exclude ≡ false)
  unfolding find_serving
  find_serving_sound base source exclude w dir h =
      let test : (Text → Bool) =
        λ path. not (is_skipped (child_of base path) path exclude) && serves parse w source path in
      let passed = find-some test (map key w.dirs) dir h in
      (ground (arith, passed), ground (arith, passed))

  retired-other :
      (w : World) (found : Option Text) (other : Text)
      → ((dir : Text) → found ≡ some dir → (dir == other) ≡ false)
      → lookup other (retired parse w found).1.dirs ≡ lookup other w.dirs
  retired-other w none other h = refl
  retired-other w (some dir) other h = remove_dir_all-other dir other w (h dir refl)

  serves_apart :
      (w : World) (source dir other : Text)
      → serves parse w source dir ≡ true
      → serves parse w source other ≡ false
      → (dir == other) ≡ false
  serves_apart w source dir other h k = elim (Bool-cases (dir == other)) [
    | inr e ↦ e
    | inl e ↦
        absurd (ground (arith, h, k, ap (serves parse w source) ((bytes_eq.beq_iff dir other).0 e)))
  ]

  -- Retiring the directory that served a backend before touches neither the one that is kept nor any
  -- that does not serve the backend.
  pub retire_previous_dir-other :
      (base source keep : Text) (w : World) (other : Text)
      → ((keep ≡ other) ⊎ (serves parse w source other ≡ false))
      → lookup other (retire_previous_dir parse base source keep w).1.dirs ≡ lookup other w.dirs
  unfolding retire_previous_dir
  retire_previous_dir-other base source keep w other (inr k) =
      retired-other w (find_serving parse base source (some keep) w) other (λ dir e.
        serves_apart w source dir other (find_serving_sound base source (some keep) w dir e).0 k)
  retire_previous_dir-other base source keep w other (inl k) =
      retired-other w (find_serving parse base source (some keep) w) other (λ dir e.
        let skipped = (find_serving_sound base source (some keep) w dir e).1 in
        elim (Option-cases (child_of base dir)) [
          | inl n ↦ absurd (ground (arith, skipped, n))
          | inr (name, n) ↦ subst (λ x. (dir == x) ≡ false) k (ground (arith, skipped, n))
        ])

  preserved-other :
      (staging from_dir other : Text) (w : World) (old new : Option (Manifest C K M F64))
      → (from_dir == staging) ≡ false
      → (from_dir == other) ≡ false
      → (staging == other) ≡ false
      → lookup other (preserved parse staging from_dir w old new).1.dirs ≡ lookup other w.dirs
  preserved-other staging from_dir other w none new apart f s = refl
  preserved-other staging from_dir other w (some old) none apart f s = refl
  preserved-other staging from_dir other w (some old) (some new) apart f s =
      let names = survivors old.models new.models in
      elim (Bool-cases (is_empty names)) [
        | inl e ↦ rw e refl
        | inr e ↦ rw e ((carry-Keeps from_dir staging names w apart).0.2 other f s)
      ]

  after_preserve-other :
      (staging final_path other : Text) (r : Result ℕ IoError × World)
      → (staging == other) ≡ false
      → (final_path == other) ≡ false
      → (sidecar_of final_path == other) ≡ false
      → lookup other (after_preserve parse staging final_path r).1.dirs ≡ lookup other r.1.dirs
  after_preserve-other staging final_path other (ok _, w) s f b =
      ap (λ x. lookup other x.dirs) (after_swap-world (swap_into_place staging final_path w))
      ∙ swap_into_place-other staging final_path other s f b w
  after_preserve-other staging final_path other (err e, w) s f b = refl

  or_final-apart :
      (base source final_path path : Text) (w : World) (found : Option Text)
      → find_serving parse base source none w ≡ found
      → (final_path == path) ≡ false
      → ((dir : Text) → find_serving parse base source none w ≡ some dir → (dir == path) ≡ false)
      → (or_final final_path found == path) ≡ false
  or_final-apart base source final_path path w none e f h = f
  or_final-apart base source final_path path w (some dir) e f h = h dir e

  -- The directory that models are inherited from is neither staged nor another backend's.
  inherit_from-apart :
      (base staging final_path source other : Text) (w : World)
      → child_of base staging ≡ none
      → (final_path == staging) ≡ false
      → (final_path == other) ≡ false
      → serves parse w source other ≡ false
      → ((inherit_from parse base final_path source w == staging) ≡ false)
        × ((inherit_from parse base final_path source w == other) ≡ false)
  inherit_from-apart base staging final_path source other w c g f k =
      let found = find_serving parse base source none w in
      (
        or_final-apart base source final_path staging w found refl g (λ dir e.
            let skipped = (find_serving_sound base source none w dir e).1 in
            elim (Bool-cases (dir == staging)) [
              | inr apart ↦ apart
              | inl same ↦
                  let at = ap (child_of base) ((bytes_eq.beq_iff dir staging).0 same) ∙ c in
                  absurd (ground (arith, skipped, at))
            ]),
        or_final-apart base source final_path other w found refl f (λ dir e.
            serves_apart w source dir other (find_serving_sound base source none w dir e).0 k),
      )

  free_dir :
      (final_path source : Text) (w : World) (other : Text)
      → is_other parse source (manifest_at parse w other) ≡ true
      → is_other parse source (manifest_at parse w final_path) ≡ false
      → (final_path == other) ≡ false
  free_dir final_path source w other h k = elim (Bool-cases (final_path == other)) [
    | inr apart ↦ apart
    | inl same ↦
        let at =
          ap (λ d. is_other parse source (manifest_at parse w d))
            ((bytes_eq.beq_iff final_path other).0 same) in
        absurd (ground (arith, h, k, at))
  ]

  not_serving :
      (source : Text) (o : Option (Manifest C K M F64))
      → is_other parse source o ≡ true
      → has_source parse source o ≡ false
  not_serving source none h = cc
  not_serving source (some m) h = ground arith

  -- Putting a staged directory in place, whatever changes of the file system fail, leaves alone the
  -- directory of every other backend, one whose manifest parses and names another source, unless it
  -- is at the staged path or at the `.old` sidecar of the place; and where that place is such a
  -- directory, it refuses with the conflict and changes nothing. The staged path is no entry of the
  -- backends directory.
  pub put_staged-others :
      (base staging final_path source other : Text) (w : World)
      → child_of base staging ≡ none
      → (final_path == staging) ≡ false
      → (staging == other) ≡ false
      → (sidecar_of final_path == other) ≡ false
      → is_other parse source (manifest_at parse w other) ≡ true
      → (lookup other (put_staged parse base staging final_path source w).1.dirs
          ≡ lookup other w.dirs)
        × (final_path ≡ other
            → put_staged parse base staging final_path source w
              ≡ (err (installing, install_dir_conflict), w))
  unfolding put_staged ensure_dir_free_for
  put_staged-others base staging final_path source other w c g s b h =
      elim (Bool-cases (is_other parse source (manifest_at parse w final_path))) [
        | inl taken ↦ rw taken (refl, λ e. refl)
        | inr free ↦
            let f = free_dir final_path source w other h free in
            let from_dir = inherit_from parse base final_path source w in
            let (x, y) =
              inherit_from-apart base staging final_path source other w c g f
                (not_serving source (manifest_at parse w other) h) in
            let kept =
              after_preserve-other staging final_path other
                (preserve_models parse staging from_dir w) s f b
              ∙ unfold preserve_models in
                preserved-other staging from_dir other w (manifest_at parse w from_dir)
                  (manifest_at parse w staging) x y s in
            rw free (kept, λ e. absurd (ground (arith, f, e, bytes_eq.beq_iff final_path other)))
      ]
