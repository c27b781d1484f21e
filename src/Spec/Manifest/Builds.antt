-- ===== src/Spec/Manifest/Builds.antt =====
-- super-engine-spec/src/manifest.rs: `[[assets.subprocess]]`, the names of a build's release files
-- and the checks of it in `Manifest::parse_inner`.
use super_engine.Prelude.{
  ◌≡◌, refl, ap, sym, subst, ◌∙◌, Option-cases, Bool, true, false, not, ◌&&◌, ◌||◌, Option, none,
  some, List, [], ◌∷◌, nat_eq, if◌then◌else◌, Text, text, any, all, All, inl, inr, arith, is_empty,
  is_some, is_none, or_else, Result, ok, err, Result-cases, map,
}
use super_engine.Registry.Compat.{cuda, rocm, vulkan}
use super_engine.Spec.Manifest.{
  SubprocessAsset, ManifestError, has_accel, asset_file_xor_parts, accel_empty, rocm_missing_gfx,
  gfx_requires_rocm, vulkan_api_requires_vulkan, cuda_missing_major, cuda_forbidden_fields,
  cudnn_requires_cuda,
}

unfoldable pub release_files : SubprocessAsset → List Text
release_files a = elim a.file [ some f ↦ f ∷ [] | none ↦ a.parts ]

unfoldable pub is_multipart : SubprocessAsset → Bool
is_multipart a = is_none a.file

abbrev first : List Text → Option Text
first [] = none
first (part ∷ parts) = some part

abbrev or_unnamed : Option Text → Text
or_unnamed none = text "<unnamed subprocess asset>"
or_unnamed (some name) = name

abbrev pub label : SubprocessAsset → Text
label a = or_unnamed (or_else a.file (first a.parts))

abbrev non_empty : Option Text → Option Text
non_empty none = none
non_empty (some f) = if is_empty f then none else some f

-- An empty `file` is read as none.
abbrev pub normalised : SubprocessAsset → SubprocessAsset
normalised a = record a { file = non_empty a.file }

abbrev pub has_parts : SubprocessAsset → Bool
has_parts a = not (is_empty a.parts) && all (λ p. not (is_empty p)) a.parts

abbrev same : Bool → Bool → Bool
same true b = b
same false b = not b

-- The checks of one build, after the normalisation: the error, if one fails.
unfoldable pub build_error : SubprocessAsset → Option ManifestError
build_error a =
    if same (is_some a.file) (has_parts a)
    then some (asset_file_xor_parts a.target)
    else if is_empty a.accel
    then some (accel_empty (label a))
    else if has_accel a.accel cuda && is_none a.cuda_major
    then some (cuda_missing_major (label a))
    else if not (has_accel a.accel cuda) && (is_some a.cuda_major || is_some a.cuda_sm)
    then some (cuda_forbidden_fields (label a))
    else if not (has_accel a.accel cuda) && a.cudnn
    then some (cudnn_requires_cuda (label a))
    else if has_accel a.accel rocm && is_empty a.gfx
    then some (rocm_missing_gfx (label a))
    else if not (has_accel a.accel rocm) && not (is_empty a.gfx)
    then some (gfx_requires_rocm (label a))
    else if not (has_accel a.accel vulkan) && is_some a.vulkan_api
    then some (vulkan_api_requires_vulkan (label a))
    else none

-- The loop over the builds: they come out normalised.
unfoldable pub check_builds : List SubprocessAsset → Result (List SubprocessAsset) ManifestError
check_builds [] = ok []
check_builds (a ∷ builds) =
    let rest = check_builds builds in
    elim (build_error (normalised a)) [
      | some e ↦ err e
      | none ↦ elim rest [ ok checked ↦ ok (normalised a ∷ checked) | err e ↦ err e ]
    ]

-- What holds of a build that passes: it names at least one release file and none by the empty
-- name, and the fields of a family stand with that family alone.
abbrev pub IsCoherentBuild : SubprocessAsset → Type 0
IsCoherentBuild a =
    (is_empty (release_files a) ≡ false)
    × (any is_empty (release_files a) ≡ false)
    × (is_multipart a ≡ has_parts a)
    × (is_empty a.accel ≡ false)
    × (is_some a.cuda_major ≡ has_accel a.accel cuda)
    × ((is_some a.cuda_sm || a.cudnn) ≡ true → has_accel a.accel cuda ≡ true)
    × (not (is_empty a.gfx) ≡ has_accel a.accel rocm)
    × (is_some a.vulkan_api ≡ true → has_accel a.accel vulkan ≡ true)

any_all :
    (parts : List Text) → all (λ p. not (is_empty p)) parts ≡ true → any is_empty parts ≡ false
any_all [] h = refl
any_all (p ∷ parts) h = ground (arith, any_all parts)

-- A file that is named is not named by the empty name.
abbrev NamesItsFile : SubprocessAsset → Type 0
NamesItsFile a = (f : Text) → a.file ≡ some f → is_empty f ≡ false

normalised-NamesItsFile : (a : SubprocessAsset) → NamesItsFile (normalised a)
normalised-NamesItsFile a f e = elim (Option-cases a.file) [
  | inl n ↦ absurd (ground (arith, n))
  | inr (g, n) ↦ ground (arith, n)
]

build_error-archive :
    (a : SubprocessAsset)
    → NamesItsFile a
    → build_error a ≡ none
    → (is_empty (release_files a) ≡ false)
      × (any is_empty (release_files a) ≡ false)
      × (is_multipart a ≡ has_parts a)
unfolding build_error release_files is_multipart
build_error-archive a n h = elim (Option-cases a.file) [
  | inl e ↦ (ground (arith, e), ground (arith, e, any_all a.parts), ground (arith, e))
  | inr (f, e) ↦ (ground (arith, e), ground (arith, e, n f e), ground (arith, e))
]

build_error-families :
    (a : SubprocessAsset)
    → build_error a ≡ none
    → (is_empty a.accel ≡ false)
      × (is_some a.cuda_major ≡ has_accel a.accel cuda)
      × ((is_some a.cuda_sm || a.cudnn) ≡ true → has_accel a.accel cuda ≡ true)
      × (not (is_empty a.gfx) ≡ has_accel a.accel rocm)
      × (is_some a.vulkan_api ≡ true → has_accel a.accel vulkan ≡ true)
unfolding build_error
build_error-families a h =
    (ground arith, ground arith, λ k. ground arith, ground arith, λ k. ground arith)

build_error-IsCoherentBuild :
    (a : SubprocessAsset) → build_error (normalised a) ≡ none → IsCoherentBuild (normalised a)
build_error-IsCoherentBuild a h =
    let (x, y, z) = build_error-archive (normalised a) (normalised-NamesItsFile a) h in
    let (v, w, c, g, k) = build_error-families (normalised a) h in (x, y, z, v, w, c, g, k)

-- The builds that come out of the loop are the ones that went in, normalised, and each is coherent.
pub check_builds_sound :
    (builds checked : List SubprocessAsset)
    → check_builds builds ≡ ok checked
    → All IsCoherentBuild checked × (checked ≡ map normalised builds)
unfolding check_builds
check_builds_sound [] checked h =
    let e : [] ≡ checked = ground arith in (subst (All IsCoherentBuild) e tt, sym e)
check_builds_sound (a ∷ builds) checked h = elim (Option-cases (build_error (normalised a))) [
  | inr (e, bad) ↦ absurd (ground (arith, bad))
  | inl fine ↦ elim (Result-cases (check_builds builds)) [
    | inr (e, bad) ↦ absurd (ground (arith, fine, bad))
    | inl (rest, good) ↦
        let (coherent, same_rest) = check_builds_sound builds rest good in
        let e : normalised a ∷ rest ≡ checked = ground (arith, fine, good) in
        (
          subst (All IsCoherentBuild) e (build_error-IsCoherentBuild a fine, coherent),
          sym e ∙ ap (λ l. normalised a ∷ l) same_rest,
        )
  ]
]
