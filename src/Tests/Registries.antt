-- ===== src/Tests/Registries.antt =====
-- A host with an AMD card chooses among builds and files.
use super_engine.Prelude.{
  ◌≡◌, refl, true, false, none, some, List, [], ◌∷◌, ◌++◌, text, bytes_eq, nat_eq, arith, ok, keep,
  list_beq, get_elem?,
}
use super_engine.Registry.Arch.{GfxSpec, gfx_from_str}
use super_engine.Registry.Host.{Host}
use super_engine.Registry.Ranking.{Score, scored, is_as_good, beats, reduce_from}
use super_engine.Registry.Compat.{
  IndexSubprocessAsset, FileSpec, from_asset, from_file, from_asset_panics, score, rocm, best_for,
  gfx_runs_on,
}
use super_engine.Registry.Compat.Builds.{
  IndexBackend, Daemon, Versions, subprocess, is_for, select, by_target,
}
use super_engine.Registry.Compat.Builds.Best.{select-first_best}
use super_engine.Registry.Compat.Builds.Panics.{select-panics}
use super_engine.Registry.Compat.Files.{select_files, goes_to, IsChoice, variants_of, score_file}
use super_engine.Registry.Compat.Files.{select_files-one_each}

abbrev navi : GfxSpec
navi = record { major = 10; minor = 3; step = 1 }

abbrev box : Host
box = record {
  target_triple = text "x";
  cuda = none;
  rocm = some (record { gfx_targets = navi ∷ [] });
  vulkan = none;
  metal = false;
}

abbrev cpu_build : IndexSubprocessAsset
cpu_build = record {
  target = text "x";
  accel = text "cpu" ∷ [];
  cuda_major = none;
  cuda_sm = none;
  cudnn = false;
  gfx = [];
  vulkan_api = none;
}

abbrev rocm_build : IndexSubprocessAsset
rocm_build = record cpu_build { accel = text "rocm" ∷ []; gfx = text "gfx1030" ∷ [] }

abbrev broken_build : IndexSubprocessAsset
broken_build = record rocm_build { gfx = (text "gfx" ++ 233 ∷ b'1' ∷ []) ∷ [] }

abbrev entry : List IndexSubprocessAsset → IndexBackend
entry builds = record {
  kind = text "subprocess";
  contract = text "v1";
  min_client = none;
  assets = record { wasm = none; subprocess = builds };
}

abbrev versions : Versions
versions = record { knows_contract = λ c. true; exceeds = λ a b. none }

abbrev daemon : Daemon
daemon = record { display_name = text "Super STT"; version = text "1.0.0" }

abbrev two_builds : IndexBackend
two_builds = entry (cpu_build ∷ rocm_build ∷ [])

picks_rocm : select versions daemon box two_builds ≡ some (subprocess 1)
unfolding select list_beq by_target from_asset_panics gfx_from_str scored score from_asset
    reduce_from best_for gfx_runs_on beats
picks_rocm = refl

select-first_best_example :
    (a : IndexSubprocessAsset) × (s : Score) × (get_elem? two_builds.assets.subprocess 1 ≡ some a)
    × (is_for box a ≡ true)
    × (score box (from_asset a) ≡ some s)
    × (is_as_good (score box (from_asset cpu_build)) s ≡ false)
unfolding list_beq
select-first_best_example =
    select-first_best versions daemon box two_builds 1 0 cpu_build picks_rocm refl refl

select-panics_example : select versions daemon box (entry (cpu_build ∷ broken_build ∷ [])) ≡ none
unfolding list_beq
select-panics_example =
    select-panics versions daemon box (entry (cpu_build ∷ broken_build ∷ [])) 1 233 b'1'
      broken_build [] refl refl refl refl refl (omega arith) (omega arith) (omega arith)

abbrev weights : FileSpec
weights = record {
  url = text "u";
  destination = text "w";
  sha256 = none;
  accel = [];
  cuda_major = none;
  cuda_sm = [];
  gfx = [];
  vulkan_api = none;
  optional = false;
}

abbrev amd_weights : FileSpec
amd_weights = record weights { url = text "v"; accel = rocm ∷ [] }

abbrev both : List FileSpec
both = weights ∷ amd_weights ∷ []

chooses_amd : select_files box both ≡ ok (amd_weights ∷ [])
unfolding select_files scored list_beq score_file reduce_from score from_file beats
chooses_amd = refl

select_files-one_each_example :
    IsChoice box (variants_of both (text "w")) (keep (goes_to (text "w")) (amd_weights ∷ []))
select_files-one_each_example =
    select_files-one_each box both (amd_weights ∷ []) (text "w") chooses_amd
