-- ===== src/Registry/Compat.antt =====
-- super-engine-daemon/src/registry/compat.rs: the ranking of candidates against the host, the
-- choice of a build and the choice of model files. A reason is kept as a value instead of a sentence.
pub mod Builds
pub mod Files
pub mod Fits
use super_engine.Prelude.{
  ℕ, suc, zero, ◌+◌, max, Bool, true, false, not, ◌&&◌, ◌||◌, Option, none, some, List, [], ◌∷◌,
  ◌++◌, ◌==◌, nat_eq, bytes_eq, if◌then◌else◌, Text, text, is_empty, is_some, is_none, all, any,
  ltb, leb, contains, keep, or_else, Result, ok, err, length, get_elem?,
}
use super_engine.Registry.Arch.{
  GfxSpec, VulkanApi, Parsed, target, malformed, panicked, gfx_from_str, vulkan_from_str,
}
use super_engine.Registry.Host.{Host, CudaHost, RocmHost, VulkanHost}
use super_engine.Registry.Ranking.{Score, best_of}

pub data Accel : Type 0 where
  cpu cuda metal rocm vulkan : Accel

abbrev pub accel_index : Accel → ℕ
accel_index cpu = 0
accel_index cuda = 1
accel_index metal = 2
accel_index rocm = 3
accel_index vulkan = 4

unfoldable pub gfx_is_exact : GfxSpec → GfxSpec → Bool
gfx_is_exact asset host =
    asset.major == host.major && (asset.minor == host.minor && asset.step == host.step)

abbrev pub gfx_family_floor : ℕ
gfx_family_floor = 10

unfoldable pub gfx_runs_on : GfxSpec → GfxSpec → Bool
unfolding gfx_is_exact
gfx_runs_on asset host =
    gfx_is_exact asset host
    || (leb gfx_family_floor asset.major
        && (asset.major == host.major && asset.minor == host.minor))

pub record Requires : Type 0 where
  pub accel : List Accel
  pub cuda_major : Option ℕ
  pub cuda_sm : List ℕ
  pub cudnn : Bool
  pub gfx : List GfxSpec
  pub vulkan_api : Option VulkanApi
  pub vulkan_api_malformed : Bool
  pub wildcard_when_absent : Bool

unfoldable pub parse_accel : Text → Option Accel
parse_accel t =
    if t == text "cpu"
    then some cpu
    else if t == text "cuda"
    then some cuda
    else if t == text "metal"
    then some metal
    else if t == text "rocm"
    then some rocm
    else if t == text "vulkan"
    then some vulkan
    else none

-- What the choice reads of an index asset and of a manifest's file.
pub record IndexSubprocessAsset : Type 0 where
  pub target : Text
  pub accel : List Text
  pub cuda_major : Option ℕ
  pub cuda_sm : Option ℕ
  pub cudnn : Bool
  pub gfx : List Text
  pub vulkan_api : Option Text

pub record FileSpec : Type 0 where
  pub url : Text
  pub destination : Text
  pub sha256 : Option Text
  pub accel : List Accel
  pub cuda_major : Option ℕ
  pub cuda_sm : List ℕ
  pub gfx : List GfxSpec
  pub vulkan_api : Option VulkanApi
  pub optional : Bool

abbrev pub filter_map {ℓ κ} : {A : Type ℓ} {B : Type κ} → (A → Option B) → List A → List B
filter_map f [] = []
filter_map f (x ∷ xs) = let rest = filter_map f xs in elim (f x) [ none ↦ rest | some y ↦ y ∷ rest ]

abbrev parsed_gfx : Text → Option GfxSpec
parsed_gfx t = elim (gfx_from_str t) [ target g ↦ some g | _ ↦ none ]

abbrev vulkan_floor : Option Text → Option VulkanApi
vulkan_floor none = none
vulkan_floor (some t) = vulkan_from_str t

abbrev one_or_none : Option ℕ → List ℕ
one_or_none none = []
one_or_none (some n) = n ∷ []

-- `Requires::from` an asset, where no target of its makes the parser panic.
unfoldable pub from_asset : IndexSubprocessAsset → Requires
unfolding parse_accel
from_asset a = record {
  accel = filter_map parse_accel a.accel;
  cuda_major = a.cuda_major;
  cuda_sm = one_or_none a.cuda_sm;
  cudnn = a.cudnn;
  gfx = filter_map parsed_gfx a.gfx;
  vulkan_api = vulkan_floor a.vulkan_api;
  vulkan_api_malformed = is_some a.vulkan_api && is_none (vulkan_floor a.vulkan_api);
  wildcard_when_absent = false;
}

abbrev is_panic : Parsed → Bool
is_panic panicked = true
is_panic _ = false

unfoldable pub from_asset_panics : IndexSubprocessAsset → Bool
from_asset_panics a = any (λ t. is_panic (gfx_from_str t)) a.gfx

unfoldable pub from_file : FileSpec → Requires
from_file f = record {
  accel = f.accel;
  cuda_major = f.cuda_major;
  cuda_sm = f.cuda_sm;
  cudnn = false;
  gfx = f.gfx;
  vulkan_api = f.vulkan_api;
  vulkan_api_malformed = false;
  wildcard_when_absent = true;
}

abbrev pub declares : Accel → Requires → Bool
declares k r = any (λ a. accel_index a == accel_index k) r.accel

abbrev pub major_fits : Bool → Option ℕ → ℕ → Bool
major_fits wildcard none runtime = wildcard
major_fits wildcard (some m) runtime = leb m runtime

abbrev or_zero : Option ℕ → ℕ
or_zero none = 0
or_zero (some n) = n

abbrev bit : Bool → ℕ
bit b = if b then 1 else 0

abbrev pub ranked : ℕ → Score
ranked n = record { rank = n; major = 0; exact = 0; extra = 0 }

abbrev score_cuda : Option CudaHost → Requires → Option Score
score_cuda none r = none
score_cuda (some c) r =
    if declares cuda r
      && ((is_empty r.cuda_sm || contains r.cuda_sm c.compute_capability)
          && major_fits r.wildcard_when_absent r.cuda_major c.runtime_major)
    then some (record {
      rank = 3;
      major = or_zero r.cuda_major;
      exact = bit (not (is_empty r.cuda_sm));
      extra = bit (r.cudnn && c.cudnn_present);
    })
    else none

abbrev raise : Option ℕ → ℕ → Option ℕ
raise none exact = some exact
raise (some b) exact = some (max b exact)

-- The two loops over the host's targets and the wanted ones.
unfoldable pub best_for : GfxSpec → Option ℕ → List GfxSpec → Option ℕ
best_for host best [] = best
best_for host best (want ∷ more) =
    best_for host
      (if gfx_runs_on want host then raise best (bit (gfx_is_exact want host)) else best) more

unfoldable pub best_gfx : Option ℕ → List GfxSpec → List GfxSpec → Option ℕ
best_gfx best [] wanted = best
best_gfx best (host ∷ hosts) wanted = best_gfx (best_for host best wanted) hosts wanted

abbrev score_rocm : Option RocmHost → Requires → Option Score
score_rocm none r = none
score_rocm (some h) r =
    if not (declares rocm r)
    then none
    else if is_empty r.gfx
    then (if r.wildcard_when_absent then some (ranked 3) else none)
    else elim (best_gfx none h.gfx_targets r.gfx) [
      | none ↦ none
      | some exact ↦ some (record { rank = 3; major = 0; exact = exact; extra = 0 })
    ]

abbrev pub floor_met : Option VulkanApi → VulkanApi → Bool
floor_met none v = true
floor_met (some f) v = ltb f.major v.major || (f.major == v.major && leb f.minor v.minor)

abbrev score_vulkan : Option VulkanHost → Requires → Option Score
score_vulkan none r = none
score_vulkan (some v) r =
    if declares vulkan r && (not r.vulkan_api_malformed && floor_met r.vulkan_api v.api_version)
    then some (ranked 2)
    else none

unfoldable pub score : Host → Requires → Option Score
unfolding best_gfx
score host r = or_else (score_cuda host.cuda r) (
    or_else (score_rocm host.rocm r) (
      or_else (score_vulkan host.vulkan r) (
        or_else (if declares metal r && host.metal then some (ranked 3) else none)
          (if declares cpu r then some (ranked 1) else none))))
