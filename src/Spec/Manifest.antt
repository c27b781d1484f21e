-- ===== src/Spec/Manifest.antt =====
-- super-engine-spec/src/manifest.rs: the tables of a `backend.toml` and the errors of reading one.
-- What the product adds is the types `C` of its contracts, `K` of its capabilities and `M` of its
-- model keys.
pub mod Files
pub mod Builds
pub mod Contract
pub mod Parse
pub mod Options
use super_engine.Prelude.{
  ℕ, Bool, true, false, Option, none, some, List, [], ◌∷◌, ◌++◌, Text, text, ◌==◌, nat_eq, bytes_eq,
  if◌then◌else◌, any,
}
use super_engine.Registry.Arch.{GfxSpec, VulkanApi}
use super_engine.Registry.Compat.{Accel, FileSpec, accel_index}

pub data Kind : Type 0 where
  wasm subprocess : Kind

abbrev pub kind_display : Kind → Text
kind_display wasm = text "wasm"
kind_display subprocess = text "subprocess"

pub record BackendMeta (C : Type 0) : Type 0 where
  pub id : Option Text
  pub source : Text
  pub name : Text
  pub version : Text
  pub kind : Kind
  pub entrypoint : Text
  pub product : Option Text
  pub contract : C
  pub license : Option Text
  pub description : Text

pub record Network : Type 0 where
  pub allowed_hosts : List Text

pub record Capabilities (K : Type 0) : Type 0 where
  pub websocket : Bool
  pub product : K

pub record SubprocessAsset : Type 0 where
  pub file : Option Text
  pub parts : List Text
  pub target : Text
  pub accel : List Accel
  pub cuda_major : Option ℕ
  pub cuda_sm : Option ℕ
  pub cudnn : Bool
  pub gfx : List GfxSpec
  pub vulkan_api : Option VulkanApi

pub record Assets : Type 0 where
  pub wasm : Option Text
  pub subprocess : List SubprocessAsset

pub record Secret : Type 0 where
  pub name : Text
  pub label : Option Text
  pub description : Text
  pub required : Bool

pub data OptionType : Type 0 where
  string integer float bool : OptionType

-- An `i64`.
pub data ℤ : Type 0 where
  pos negsuc : ℕ → ℤ

pub data OptionDefault (F64 : Type 0) : Type 0 where
  string : Text → OptionDefault F64
  integer : ℤ → OptionDefault F64
  float : F64 → OptionDefault F64
  bool : Bool → OptionDefault F64

pub record Opt (F64 : Type 0) : Type 0 where
  pub name : Text
  pub label : Option Text
  pub description : Text
  pub type : Option OptionType
  pub default : Option (OptionDefault F64)
  pub choices : List (OptionDefault F64)
  pub min : Option F64
  pub max : Option F64
  pub step : Option F64
  pub required : Bool

pub data Device : Type 0 where
  cpu gpu no_device : Device

abbrev pub device_display : Device → Text
device_display cpu = text "cpu"
device_display gpu = text "gpu"
device_display no_device = text "none"

unfoldable pub device_from_str : Text → Option Device
device_from_str s =
    if s == text "cpu"
    then some cpu
    else if s == text "gpu"
    then some gpu
    else if s == text "cuda"
    then some gpu
    else if s == text "metal"
    then some gpu
    else if s == text "none"
    then some no_device
    else none

pub record ModelEntry (M : Type 0) : Type 0 where
  pub name : Text
  pub multilingual : Bool
  pub primary_language : Text
  pub supported_languages : List Text
  pub supported_devices : List Device
  pub estimated_vram_bytes : ℕ
  pub processing_interval_ms : Option ℕ
  pub realtime : Bool
  pub files : List FileSpec
  pub prepare_files : List Text
  pub provider : Option Text
  pub product : M

abbrev pub is_none_device : Device → Bool
is_none_device no_device = true
is_none_device _ = false

abbrev pub is_online : {M : Type 0} → ModelEntry M → Bool
is_online model = any is_none_device model.supported_devices

pub record Manifest (C K M F64 : Type 0) : Type 0 where
  pub backend : BackendMeta C
  pub network : Network
  pub capabilities : Capabilities K
  pub assets : Assets
  pub secrets : List Secret
  pub options : List (Opt F64)
  pub models : List (ModelEntry M)

pub data ManifestError : Type 0 where
  io : (path : Text) → ManifestError
  parse : (path : Text) (e : ManifestError) → ManifestError
  toml : Text → ManifestError
  unsafe_entrypoint : Text → ManifestError
  invalid_id : Text → ManifestError
  other_product : (declared expected : Text) → ManifestError
  field_requires_contract : (field since declared : Text) → ManifestError
  field_required_by_contract : (field declared : Text) (previous : Option Text) → ManifestError
  unsafe_destination : Text → ManifestError
  asset_file_xor_parts : (target : Text) → ManifestError
  accel_empty : (file : Text) → ManifestError
  rocm_missing_gfx : (file : Text) → ManifestError
  gfx_requires_rocm : (file : Text) → ManifestError
  vulkan_api_requires_vulkan : (file : Text) → ManifestError
  cuda_missing_major : (file : Text) → ManifestError
  cuda_forbidden_fields : (file : Text) → ManifestError
  cudnn_requires_cuda : (file : Text) → ManifestError
  file_cuda_forbidden_fields : (model destination : Text) → ManifestError
  file_gfx_requires_rocm : (model destination : Text) → ManifestError
  file_vulkan_api_requires_vulkan : (model destination : Text) → ManifestError
  file_variants_disagree_on_optional : (model destination : Text) → ManifestError
  prepare_file_not_listed : (model file : Text) → ManifestError
  product : Text → ManifestError

-- `accel.contains(&k)`
abbrev pub has_accel : List Accel → Accel → Bool
has_accel accel k = any (λ a. accel_index a == accel_index k) accel
