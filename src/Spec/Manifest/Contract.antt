-- ===== src/Spec/Manifest/Contract.antt =====
-- super-engine-spec/src/manifest.rs and product.rs: the contract generations of a product, and the
-- fields that each of them adds or requires.
use super_engine.Prelude.{
  ◌≡◌, refl, Bool, false, not, ◌&&◌, ◌||◌, Option, none, some, List, [], ◌∷◌, ◌++◌, ◌==◌, nat_eq,
  bytes_eq, if◌then◌else◌, Text, text, any, all, find, contains, arith, or_else, is_some, is_none,
}
use mathlib.Core.List.{reverse}
use super_engine.Spec.Manifest.{ManifestError, field_requires_contract, field_required_by_contract}

pub data FieldRule : Type 0 where
  added required_from : FieldRule

pub record ContractField (C : Type 0) : Type 0 where
  pub since : C
  pub rule : FieldRule
  pub table : Text
  pub key : Text

-- A product's generations, oldest first, their order and their spelling.
pub record Generations (C : Type 0) : Type 0 where
  pub all : List C
  pub lt : C → C → Bool
  pub display : C → Text

-- What the code asks of a parsed TOML document.
pub record Toml (Table Value : Type 0) : Type 0 where
  pub get : Table → Text → Option Value
  pub as_array : Value → Option (List Value)
  pub as_table : Value → Option Table

module _ {Table Value : Type 0} (toml : Toml Table Value) where
  abbrev has_key : Text → Option Table → Bool
  has_key key none = false
  has_key key (some t) = is_some (toml.get t key)

  abbrev entry_declares : Text → Option (List Value) → Bool
  entry_declares key none = false
  entry_declares key (some entries) = any (λ entry. has_key key (toml.as_table entry)) entries

module _ {C : Type 0} where
  abbrev pub is_array_table : ContractField C → Bool
  is_array_table f = contains (text "models" ∷ text "secrets" ∷ text "options" ∷ []) f.table

  abbrev pub path : ContractField C → Text
  path f =
      if is_array_table f
      then text "[[" ++ f.table ++ text "]]." ++ f.key
      else text "[" ++ f.table ++ text "]." ++ f.key

  abbrev pub schema_definition : ContractField C → Option Text
  schema_definition f =
      if f.table == text "backend"
      then some (text "BackendMeta")
      else if f.table == text "models"
      then some (text "ModelEntry")
      else if f.table == text "secrets"
      then some (text "Secret")
      else if f.table == text "options"
      then some (text "Opt")
      else none

  -- `Generation::previous`
  unfoldable pub previous : Generations C → C → Option C
  previous g c = find (λ candidate. g.lt candidate c) (reverse g.all)

  unfoldable pub generation_from_str : Generations C → Text → Option C
  generation_from_str g s = find (λ c. g.display c == s) g.all

  -- Whether a rule can bite at the declared generation; `declared >= since` is `not (declared < since)`.
  abbrev pub bites : Generations C → C → ContractField C → Bool
  bites g declared field = elim field.rule [
    | added ↦ g.lt declared field.since
    | required_from ↦ not (g.lt declared field.since)
  ]

  unfoldable pub applies_to : Generations C → List (ContractField C) → C → Bool
  applies_to g fields declared = any (bites g declared) fields

  module _ {Table Value : Type 0} (toml : Toml Table Value) where
    unfoldable pub declares_field : Table → ContractField C → Bool
    declares_field raw field = elim (toml.get raw field.table) [
      | none ↦ false
      | some value ↦
          if is_array_table field
          then entry_declares toml field.key (toml.as_array value)
          else has_key toml field.key (toml.as_table value)
    ]

    abbrev pub display_option : Generations C → Option C → Option Text
    display_option g none = none
    display_option g (some c) = some (g.display c)

    -- The error of one row, if the document breaks it.
    unfoldable pub breach : Generations C → Table → C → ContractField C → Option ManifestError
    unfolding previous declares_field
    breach g raw declared field = elim field.rule [
      | added ↦
          if g.lt declared field.since && declares_field raw field
          then some
              (field_requires_contract (path field) (g.display field.since) (g.display declared))
          else none
      | required_from ↦
          if not (g.lt declared field.since) && not (declares_field raw field)
          then some (
              field_required_by_contract (path field) (g.display declared)
                (display_option g (previous g field.since)))
          else none
    ]

    unfoldable pub contract_violation :
        Generations C → List (ContractField C) → Table → C → Option ManifestError
    unfolding breach
    contract_violation g [] raw declared = none
    contract_violation g (field ∷ fields) raw declared =
        or_else (breach g raw declared field) (contract_violation g fields raw declared)

    -- What a document keeps of one row: it leaves a later generation's field out, and declares a
    -- field that its own generation requires.
    abbrev pub is_kept : Generations C → Table → C → ContractField C → Bool
    is_kept g raw declared field = elim field.rule [
      | added ↦ not (bites g declared field) || not (declares_field raw field)
      | required_from ↦ not (bites g declared field) || declares_field raw field
    ]

    breach-is_kept :
        (g : Generations C) (raw : Table) (declared : C) (field : ContractField C)
        → is_none (breach g raw declared field) ≡ is_kept g raw declared field
    unfolding breach
    breach-is_kept g raw declared field = ground arith

    -- A document breaks no row exactly if it keeps every one.
    pub contract_violation-is_kept :
        (g : Generations C) (fields : List (ContractField C)) (raw : Table) (declared : C)
        → is_none (contract_violation g fields raw declared) ≡ all (is_kept g raw declared) fields
    unfolding contract_violation
    contract_violation-is_kept g [] raw declared = refl
    contract_violation-is_kept g (field ∷ fields) raw declared = ground (
      arith,
      breach-is_kept g raw declared field,
      contract_violation-is_kept g fields raw declared,
    )

    -- Where no rule can bite, no document breaks one: reading it again is not needed.
    pub contract_violation-applies_to :
        (g : Generations C) (fields : List (ContractField C)) (raw : Table) (declared : C)
        → applies_to g fields declared ≡ false
        → contract_violation g fields raw declared ≡ none
    unfolding applies_to contract_violation breach
    contract_violation-applies_to g [] raw declared h = refl
    contract_violation-applies_to g (field ∷ fields) raw declared h =
        ground (arith, contract_violation-applies_to g fields raw declared)
