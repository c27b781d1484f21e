-- ===== src/Spec/Manifest/Parse/Sound.antt =====
-- super-engine-spec/src/manifest.rs: what a manifest that the parser accepts is known to keep.
use super_engine.Prelude.{
  ◌≡◌, refl, ap, subst, sym, ◌∙◌, ◌↔◌, ◌⊎◌, ◌==◌, any, Bool-cases, inl, inr, true, Option, none,
  some, List, [], ◌∷◌, nat_eq, bytes_eq, Text, Result, ok, err, and_then, All, arith,
}
use super_engine.Spec.Paths.{is_safe_relative_path}
use super_engine.Spec.BackendId.{is_valid}
use super_engine.Spec.Manifest.{Manifest, ModelEntry}
use super_engine.Registry.Compat.Files.{goes_to}
use super_engine.Spec.Manifest.Files.{validate_files, IsCoherent}
use super_engine.Spec.Manifest.Files.Agree.{AgreeOnOptional, validate_files_sound}
use super_engine.Spec.Manifest.Builds.{check_builds, check_builds_sound, IsCoherentBuild}
use super_engine.Spec.Manifest.Parse.{
  Product, Reader, declared_product, toml_error, check_product, check_contract, check_entrypoint,
  check_id, validate_models, check_rules, with_builds, check_manifest, parse_inner, parse_manifest,
  parse_installed,
}

and_then-ok :
    {A B E : Type 0} (r : Result A E) (k : A → Result B E) (b : B)
    → and_then r k ≡ ok b
    → (a : A) × (r ≡ ok a) × (k a ≡ ok b)
and_then-ok (ok a) k b h = (a, refl, h)
and_then-ok (err e) k b h = absurd (ground arith)

-- The files of a model: each safe and with the families that it declares, those of one destination of
-- one mind on `optional`, and among them every file to prepare.
abbrev pub IsFiled : {M : Type 0} → ModelEntry M → Type 0
IsFiled model =
    All IsCoherent model.files
    × AgreeOnOptional model.files
    × All (λ p. any (goes_to p) model.files ≡ true) model.prepare_files

abbrev ok_or : {A E : Type 0} → A → Result A E → A
ok_or d (ok x) = x
ok_or d (err e) = d

ok_injective : {A E : Type 0} (a b : A) → ◌≡◌ {A = Result A E} (ok a) (ok b) → a ≡ b
ok_injective a b h = ap (ok_or a) h

validate_models-All :
    {M : Type 0} (models : List (ModelEntry M))
    → validate_models models ≡ ok tt
    → All IsFiled models
unfolding validate_models
validate_models-All [] h = tt
validate_models-All (model ∷ models) h =
    let (u, here, later) = and_then-ok (validate_files model) (λ _. validate_models models) tt h in
    (validate_files_sound model here, validate_models-All models later)

check_product_fits :
    (slug : Text) (declared : Option Text)
    → check_product slug declared ≡ ok tt
    → (declared ≡ none) ⊎ (declared ≡ some slug)
unfolding check_product
check_product_fits slug none h = inl refl
check_product_fits slug (some d) h = elim (Bool-cases (d == slug)) [
  | inl e ↦ inr (ap some ((bytes_eq.beq_iff d slug).0 e))
  | inr e ↦ absurd (ground (arith, e))
]

check_id-valid :
    (id : Option Text) (i : Text) → check_id id ≡ ok tt → id ≡ some i → is_valid i ≡ true
check_id-valid none i h e = cc
check_id-valid (some j) i h e = ground arith

module _ {C K M F64 : Type 0} (p : Product C K M F64) where
  -- What a checked manifest keeps.
  abbrev pub IsWellFormed : Manifest C K M F64 → Type 0
  IsWellFormed m =
      (is_safe_relative_path m.backend.entrypoint ≡ true)
      × ((id : Text) → m.backend.id ≡ some id → is_valid id ≡ true)
      × All IsFiled m.models
      × All IsCoherentBuild m.assets.subprocess
      × (p.validate m ≡ none)

  check_rules-none : (m : Manifest C K M F64) → check_rules p m ≡ ok tt → p.validate m ≡ none
  check_rules-none m h = ground arith

  check_manifest-IsWellFormed :
      (m n : Manifest C K M F64)
      → check_manifest p m ≡ ok n
      → IsWellFormed n × (n.backend ≡ m.backend)
  unfolding check_manifest
  check_manifest-IsWellFormed m n h =
      let (a, safe, h₁) = and_then-ok (check_entrypoint m.backend.entrypoint) _ n h in
      let (b, valid, h₂) = and_then-ok (check_id m.backend.id) _ n h₁ in
      let (c, files, h₃) = and_then-ok (validate_models m.models) _ n h₂ in
      let (builds, coherent, h₄) = and_then-ok (check_builds m.assets.subprocess) _ n h₃ in
      let (d, rules, e) = and_then-ok (check_rules p (with_builds m builds)) _ n h₄ in
      subst (λ x. IsWellFormed x × (x.backend ≡ m.backend))
        (ok_injective (with_builds m builds) n e)
        (
          (
            ground (arith, safe),
            (λ i at. check_id-valid m.backend.id i valid at),
            validate_models-All m.models files,
            (check_builds_sound m.assets.subprocess builds coherent).0,
            check_rules-none (with_builds m builds) rules,
          ),
          refl,
        )

  module _ {Table Value : Type 0} (r : Reader C K M F64 Table Value) where
    -- An installed manifest that is accepted declares no product or this one, has a safe entrypoint and
    -- a valid identifier if any, keeps the product's rules, and each of its models and builds is sound:
    -- of a model, every file has a safe destination and names only families that it declares, files
    -- with one destination agree on `optional`, and the files to prepare are among its destinations; a
    -- build names at least one file and none by the empty name, declares a family, and has the fields
    -- of CUDA, ROCm and Vulkan only with that family.
    pub parse_installed_sound :
        (s : Text) (m : Manifest C K M F64)
        → parse_installed p r s ≡ ok m
        → IsWellFormed m × ((declared_product r s ≡ none) ⊎ (declared_product r s ≡ some p.slug))
    unfolding parse_inner
    parse_installed_sound s m h =
        let (a, product_fits, h₁) =
          and_then-ok (check_product p.slug (declared_product r s)) _ m h in
        let (n, read, h₂) = and_then-ok (toml_error (r.read_manifest s)) _ m h₁ in
        (
          (check_manifest-IsWellFormed n m h₂).0,
          check_product_fits p.slug (declared_product r s) product_fits,
        )

    -- A new manifest is accepted exactly if it would be as an installed one, with the same result,
    -- and its document keeps to the contract that it declares.
    pub parse_manifest_iff :
        (s : Text) (m : Manifest C K M F64)
        → (parse_manifest p r s ≡ ok m)
          ↔ ((parse_installed p r s ≡ ok m) × (check_contract p r s m.backend.contract ≡ ok tt))
    unfolding parse_inner
    parse_manifest_iff s m = (
      (λ h.
          let (a, product_fits, h₁) =
            and_then-ok (check_product p.slug (declared_product r s)) _ m h in
          let (n, read, h₂) = and_then-ok (toml_error (r.read_manifest s)) _ m h₁ in
          let (b, kept, h₃) = and_then-ok (check_contract p r s n.backend.contract) _ m h₂ in
          let (well, e) = check_manifest-IsWellFormed n m h₃ in
          (rw (product_fits, read) h₃, ap (λ k. check_contract p r s k.contract) e ∙ kept)),
      (λ (h, kept).
          let (a, product_fits, h₁) =
            and_then-ok (check_product p.slug (declared_product r s)) _ m h in
          let (n, read, h₂) = and_then-ok (toml_error (r.read_manifest s)) _ m h₁ in
          let (well, e) = check_manifest-IsWellFormed n m h₂ in
          let kept' = ap (λ k. check_contract p r s k.contract) (sym e) ∙ kept in
          rw (product_fits, read, kept') h₂),
    )
