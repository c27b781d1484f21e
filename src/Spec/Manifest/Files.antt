-- ===== src/Spec/Manifest/Files.antt =====
-- super-engine-spec/src/manifest.rs: `validate_files`, and what it gives the choice of model files.
pub mod Agree
use super_engine.Prelude.{
  ℕ, ◌≡◌, refl, sym, ap, subst, ◌∙◌, Bool, true, false, not, ◌&&◌, ◌||◌, Option, none, some, List,
  [], ◌∷◌, ◌++◌, ◌==◌, nat_eq, bytes_eq, if◌then◌else◌, Text, any, all, keep, find, contains,
  Member, All, Option-cases, Bool-cases, inl, inr, ◌⊎◌, arith, is_empty, is_some, is_none, Result,
  ok, err, is_ok, Result-cases, contains_iff, lookup, insert, contains_key, lookup-insert,
}
use super_engine.Registry.Compat.{Accel, FileSpec, accel_index, cuda, rocm, vulkan}
use super_engine.Spec.Paths.{is_safe_relative_path}
use super_engine.Spec.Manifest.{
  ModelEntry, ManifestError, has_accel, unsafe_destination, file_cuda_forbidden_fields,
  file_gfx_requires_rocm, file_vulkan_api_requires_vulkan, file_variants_disagree_on_optional,
  prepare_file_not_listed,
}

-- The checks of one file before its destination is recorded: the error, if one fails.
abbrev pub selector_error : Text → FileSpec → Option ManifestError
selector_error model file =
    if not (is_safe_relative_path file.destination)
    then some (unsafe_destination file.destination)
    else if not (has_accel file.accel cuda)
        && (is_some file.cuda_major || not (is_empty file.cuda_sm))
    then some (file_cuda_forbidden_fields model file.destination)
    else if not (has_accel file.accel rocm) && not (is_empty file.gfx)
    then some (file_gfx_requires_rocm model file.destination)
    else if not (has_accel file.accel vulkan) && is_some file.vulkan_api
    then some (file_vulkan_api_requires_vulkan model file.destination)
    else none

abbrev bool_eq : Bool → Bool → Bool
bool_eq true b = b
bool_eq false b = not b

-- Whether the value that `insert` replaced differs.
abbrev pub disagrees : Option Bool → Bool → Bool
disagrees none optional = false
disagrees (some first) optional = not (bool_eq first optional)

-- The loop over the files, from the map of what is recorded to the map at its end.
unfoldable pub record_files :
    Text → List (Text × Bool) → List FileSpec → Result (List (Text × Bool)) ManifestError
record_files model seen [] = ok seen
record_files model seen (file ∷ files) =
    let rest = record_files model (insert file.destination file.optional seen) files in
    elim (selector_error model file) [
      | some e ↦ err e
      | none ↦
          if disagrees (lookup file.destination seen) file.optional
          then err (file_variants_disagree_on_optional model file.destination)
          else rest
    ]

abbrev check_prepare : Text → List Text → List (Text × Bool) → Result Unit ManifestError
check_prepare model prepare_files seen =
    elim (find (λ file. not (contains_key file seen)) prepare_files) [
      | none ↦ ok tt
      | some file ↦ err (prepare_file_not_listed model file)
    ]

unfoldable pub validate_files : {M : Type 0} → ModelEntry M → Result Unit ManifestError
unfolding record_files
validate_files model = elim (record_files model.name [] model.files) [
  | err e ↦ err e
  | ok seen ↦ check_prepare model.name model.prepare_files seen
]

-- What holds of a file that passes.
abbrev pub IsCoherent : FileSpec → Type 0
IsCoherent file =
    (is_safe_relative_path file.destination ≡ true)
    × ((is_some file.cuda_major || not (is_empty file.cuda_sm)) ≡ true
        → has_accel file.accel cuda ≡ true)
    × (is_empty file.gfx ≡ false → has_accel file.accel rocm ≡ true)
    × (is_some file.vulkan_api ≡ true → has_accel file.accel vulkan ≡ true)

pub selector_error-IsCoherent :
    (model : Text) (file : FileSpec) → selector_error model file ≡ none → IsCoherent file
selector_error-IsCoherent model file h =
    (ground arith, λ k. ground arith, λ k. ground arith, λ k. ground arith)

pub record_files-cons :
    (model : Text) (seen end : List (Text × Bool)) (file : FileSpec) (files : List FileSpec)
    → record_files model seen (file ∷ files) ≡ ok end
    → (selector_error model file ≡ none)
      × (disagrees (lookup file.destination seen) file.optional ≡ false)
      × (record_files model (insert file.destination file.optional seen) files ≡ ok end)
unfolding record_files
record_files-cons model seen end file files h = elim (Option-cases (selector_error model file)) [
  | inr (e, some_error) ↦ absurd (ground (arith, some_error))
  | inl fine ↦ elim (Bool-cases (disagrees (lookup file.destination seen) file.optional)) [
    | inl bad ↦ absurd (ground (arith, fine, bad))
    | inr good ↦ (fine, good, ground (arith, fine, good))
  ]
]
