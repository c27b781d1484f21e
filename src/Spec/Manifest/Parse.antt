-- ===== src/Spec/Manifest/Parse.antt =====
-- super-engine-spec/src/manifest.rs: `Manifest::parse`, `parse_installed` and `load`. The `toml`
-- crate and the product are parameters.
pub mod Sound
use super_engine.Prelude.{
  ℕ, ◌≡◌, refl, ap, Bool, true, false, not, ◌&&◌, ◌||◌, Option, none, some, List, [], ◌∷◌, ◌++◌,
  ◌==◌, nat_eq, bytes_eq, if◌then◌else◌, Text, text, Result, ok, err, and_then,
}
use super_engine.Spec.Paths.{is_safe_relative_path, path_join}
use super_engine.Spec.BackendId.{is_valid}
use super_engine.Spec.Manifest.{
  Manifest, ModelEntry, Assets, SubprocessAsset, ManifestError, io, parse, toml, unsafe_entrypoint,
  invalid_id, other_product, product,
}
use super_engine.Spec.Manifest.Files.{validate_files}
use super_engine.Spec.Manifest.Builds.{check_builds}
use super_engine.Spec.Manifest.Contract.{
  Generations, ContractField, Toml, applies_to, contract_violation,
}

pub data ContractFields : Type 0 where
  enforced ignored : ContractFields

-- What a product says of its manifests: `validate` gives the text of the rule that is broken.
pub record Product (C K M F64 : Type 0) : Type 0 where
  pub slug : Text
  pub generations : Generations C
  pub contract_fields : List (ContractField C)
  pub validate : Manifest C K M F64 → Option Text

-- What the `toml` crate reads in a text: `[backend].product` alone, the manifest, and the raw table.
pub record Reader (C K M F64 Table Value : Type 0) : Type 0 where
  pub read_head : Text → Option (Option Text)
  pub read_manifest : Text → Result (Manifest C K M F64) Text
  pub read_table : Text → Result Table Text
  pub tables : Toml Table Value

abbrev pub toml_error : {A : Type 0} → Result A Text → Result A ManifestError
toml_error (ok a) = ok a
toml_error (err e) = err (toml e)

abbrev failing : Option ManifestError → Result Unit ManifestError
failing none = ok tt
failing (some e) = err e

abbrev flatten : Option (Option Text) → Option Text
flatten none = none
flatten (some p) = p

unfoldable pub check_product : Text → Option Text → Result Unit ManifestError
check_product slug none = ok tt
check_product slug (some declared) =
    if declared == slug then ok tt else err (other_product declared slug)

abbrev pub check_entrypoint : Text → Result Unit ManifestError
check_entrypoint entrypoint =
    if is_safe_relative_path entrypoint then ok tt else err (unsafe_entrypoint entrypoint)

abbrev pub check_id : Option Text → Result Unit ManifestError
check_id none = ok tt
check_id (some id) = if is_valid id then ok tt else err (invalid_id id)

unfoldable pub validate_models : {M : Type 0} → List (ModelEntry M) → Result Unit ManifestError
validate_models [] = ok tt
validate_models (model ∷ models) =
    let rest = validate_models models in and_then (validate_files model) (λ _. rest)

module _ {C K M F64 : Type 0} where
  abbrev pub check_rules : Product C K M F64 → Manifest C K M F64 → Result Unit ManifestError
  check_rules p m = elim (p.validate m) [ none ↦ ok tt | some e ↦ err (product e) ]

  abbrev pub with_builds : Manifest C K M F64 → List SubprocessAsset → Manifest C K M F64
  with_builds m builds = record m { assets = record m.assets { subprocess = builds } }

  -- What is checked of a manifest once its contract is.
  unfoldable pub check_manifest :
      Product C K M F64 → Manifest C K M F64 → Result (Manifest C K M F64) ManifestError
  unfolding validate_models
  check_manifest p m = and_then (check_entrypoint m.backend.entrypoint) (λ _.
      and_then (check_id m.backend.id) (λ _. and_then (validate_models m.models) (λ _.
        and_then (check_builds m.assets.subprocess) (λ builds.
          and_then (check_rules p (with_builds m builds)) (λ _. ok (with_builds m builds))))))

  -- `load_with`: `read` gives the text of a file, or nothing if it cannot be read.
  unfoldable pub load_with :
      (read : Text → Option Text) (dir : Text)
      → (Text → Result (Manifest C K M F64) ManifestError)
      → Result (Manifest C K M F64) ManifestError
  load_with read dir parse_text =
      let file = path_join dir (text "backend.toml") in
      elim (read file) [
        | none ↦ err (io file)
        | some s ↦ elim (parse_text s) [ ok m ↦ ok m | err e ↦ err (parse file e) ]
      ]

  module _ {Table Value : Type 0} where
    abbrev pub declared_product : Reader C K M F64 Table Value → Text → Option Text
    declared_product r s = flatten (r.read_head s)

    unfoldable pub check_contract :
        Product C K M F64 → Reader C K M F64 Table Value → Text → C → Result Unit ManifestError
    check_contract p r s declared =
        if applies_to p.generations p.contract_fields declared
        then and_then (toml_error (r.read_table s)) (λ raw.
          failing (contract_violation r.tables p.generations p.contract_fields raw declared))
        else ok tt

    abbrev pub check_fields :
        ContractFields
        → Product C K M F64
        → Reader C K M F64 Table Value
        → Text
        → C
        → Result Unit ManifestError
    check_fields enforced p r s declared = check_contract p r s declared
    check_fields ignored p r s declared = ok tt

    unfoldable pub parse_inner :
        Product C K M F64
        → Reader C K M F64 Table Value
        → Text
        → ContractFields
        → Result (Manifest C K M F64) ManifestError
    unfolding check_product check_contract check_manifest
    parse_inner p r s fields = and_then (check_product p.slug (declared_product r s)) (λ _.
        and_then (toml_error (r.read_manifest s))
          (λ m. and_then (check_fields fields p r s m.backend.contract) (λ _. check_manifest p m)))

    abbrev pub parse_manifest :
        Product C K M F64
        → Reader C K M F64 Table Value
        → Text
        → Result (Manifest C K M F64) ManifestError
    parse_manifest p r s = parse_inner p r s enforced

    abbrev pub parse_installed :
        Product C K M F64
        → Reader C K M F64 Table Value
        → Text
        → Result (Manifest C K M F64) ManifestError
    parse_installed p r s = parse_inner p r s ignored
