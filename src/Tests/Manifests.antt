-- ===== src/Tests/Manifests.antt =====
-- A manifest with one build and one model, and what reading it gives.
use super_engine.Prelude.{
  ◌⊎◌, ◌≡◌, refl, true, false, none, some, [], ◌∷◌, ◌++◌, text, ok, all, split, list_beq, lookup,
  insert,
}
use super_engine.Registry.Host.{Host}
use super_engine.Registry.Compat.{FileSpec, cpu, rocm}
use super_engine.Spec.Paths.{is_safe_relative_path, path_join, place_of, place_of-path_join}
use super_engine.Spec.BackendId.{is_valid}
use super_engine.Spec.Manifest.{Manifest, ModelEntry, SubprocessAsset, subprocess}
use super_engine.Spec.Manifest.Files.{validate_files}
use super_engine.Spec.Manifest.Builds.{check_builds, build_error}
use super_engine.Spec.Manifest.Parse.{parse_inner, Product, Reader, declared_product}
use super_engine.Spec.Manifest.Parse.Sound.{IsWellFormed, parse_installed_sound}

place_of-path_join_example :
    place_of (path_join (text "/b/x") (text "bin/run"))
    ≡ place_of (text "/b/x") ++ split b'/' (text "bin/run")
unfolding is_safe_relative_path list_beq
place_of-path_join_example = place_of-path_join (text "/b/x") (text "bin/run") refl

abbrev plain : FileSpec
plain = record {
  url = text "u";
  destination = text "w";
  sha256 = none;
  accel = [];
  cuda_major = none;
  cuda_sm = [];
  gfx = [];
  vulkan_api = none;
  optional = false;
}

abbrev for_amd : FileSpec
for_amd = record plain { accel = rocm ∷ [] }

abbrev model : ModelEntry (Unit {0})
model = record {
  name = text "m";
  multilingual = true;
  primary_language = text "en";
  supported_languages = text "en" ∷ [];
  supported_devices = [];
  estimated_vram_bytes = 0;
  processing_interval_ms = none;
  realtime = false;
  files = plain ∷ for_amd ∷ [];
  prepare_files = text "w" ∷ [];
  provider = none;
  product = tt;
}

abbrev box : Host
box = record { target_triple = text "x"; cuda = none; rocm = none; vulkan = none; metal = false }

abbrev build : SubprocessAsset
build = record {
  file = some [];
  parts = text "p" ∷ [];
  target = text "x";
  accel = cpu ∷ [];
  cuda_major = none;
  cuda_sm = none;
  cudnn = false;
  gfx = [];
  vulkan_api = none;
}

abbrev Plain : Type 0
Plain = Manifest (Unit {0}) (Unit {0}) (Unit {0}) (Unit {0})

abbrev written : Plain
written = record {
  backend = record {
    id = some (text "a.b.c");
    source = text "s";
    name = text "n";
    version = text "1";
    kind = subprocess;
    entrypoint = text "bin/run";
    product = some (text "p");
    contract = tt;
    license = none;
    description = [];
  };
  network = record { allowed_hosts = [] };
  capabilities = record { websocket = false; product = tt };
  assets = record { wasm = none; subprocess = build ∷ [] };
  secrets = [];
  options = [];
  models = model ∷ [];
}

-- The manifest with the empty file name taken away.
abbrev accepted : Plain
accepted = record written {
  assets = record { wasm = none; subprocess = record build { file = none } ∷ [] };
}

abbrev product : Product (Unit {0}) (Unit {0}) (Unit {0}) (Unit {0})
product = record {
  slug = text "p";
  generations = record { all = tt ∷ []; lt = λ a b. false; display = λ a. text "v1" };
  contract_fields = [];
  validate = λ m. none;
}

abbrev reader : Reader (Unit {0}) (Unit {0}) (Unit {0}) (Unit {0}) (Unit {0}) (Unit {0})
reader = record {
  read_head = λ s. some (some (text "p"));
  read_manifest = λ s. ok written;
  read_table = λ s. ok tt;
  tables = record { get = λ t k. none; as_array = λ v. none; as_table = λ v. none };
}

parse_installed_sound_example :
    IsWellFormed product accepted
    × ((declared_product reader (text "t") ≡ none)
        ⊎ (declared_product reader (text "t") ≡ some product.slug))
unfolding parse_inner list_beq is_safe_relative_path is_valid validate_files lookup insert
    check_builds build_error
parse_installed_sound_example = parse_installed_sound product reader (text "t") accepted refl
