-- ===== src/Registry/Compat/Fits.antt =====
-- registry/compat.rs: which candidates a host can use, and how they rank.
use super_engine.Prelude.{
  ℕ, ◌≡◌, refl, Bool, true, false, not, ◌&&◌, ◌||◌, Option, none, some, is_some, List, [], ◌∷◌,
  nat_eq, if◌then◌else◌, any, contains, is_empty, Bool-cases, inl, inr, arith, or_else,
}
use super_engine.Registry.Arch.{GfxSpec}
use super_engine.Registry.Host.{Host, CudaHost, RocmHost, VulkanHost}
use super_engine.Registry.Ranking.{Score}
use super_engine.Registry.Compat.{
  cpu, cuda, metal, rocm, vulkan, Requires, declares, major_fits, floor_met, gfx_runs_on,
  gfx_is_exact, raise, bit, best_for, best_gfx, score, score_cuda, score_rocm, score_vulkan,
}

-- Some wanted target runs on some target of the host.
abbrev pub some_gfx_runs : List GfxSpec → List GfxSpec → Bool
some_gfx_runs hosts wanted = any (λ h. any (λ w. gfx_runs_on w h) wanted) hosts

abbrev pub fits_cuda : Option CudaHost → Requires → Bool
fits_cuda none r = false
fits_cuda (some c) r =
    declares cuda r
    && ((is_empty r.cuda_sm || contains r.cuda_sm c.compute_capability)
        && major_fits r.wildcard_when_absent r.cuda_major c.runtime_major)

abbrev pub fits_rocm : Option RocmHost → Requires → Bool
fits_rocm none r = false
fits_rocm (some h) r =
    declares rocm r
    && (if is_empty r.gfx then r.wildcard_when_absent else some_gfx_runs h.gfx_targets r.gfx)

abbrev pub fits_vulkan : Option VulkanHost → Requires → Bool
fits_vulkan none r = false
fits_vulkan (some v) r =
    declares vulkan r && (not r.vulkan_api_malformed && floor_met r.vulkan_api v.api_version)

raise-is_some : (best : Option ℕ) (n : ℕ) → is_some (raise best n) ≡ true
raise-is_some none n = refl
raise-is_some (some b) n = refl

best_for-is_some :
    (host : GfxSpec) (best : Option ℕ) (wanted : List GfxSpec)
    → is_some (best_for host best wanted) ≡ (is_some best || any (λ w. gfx_runs_on w host) wanted)
unfolding best_for
best_for-is_some host none [] = refl
best_for-is_some host (some n) [] = refl
best_for-is_some host best (w ∷ more) = elim (Bool-cases (gfx_runs_on w host)) [
  | inl e ↦ rw e (
      ground (
        arith,
        best_for-is_some host (raise best (bit (gfx_is_exact w host))) more,
        raise-is_some best (bit (gfx_is_exact w host)),
      ))
  | inr e ↦ rw e (ground (arith, best_for-is_some host best more))
]

best_gfx-is_some :
    (best : Option ℕ) (hosts wanted : List GfxSpec)
    → is_some (best_gfx best hosts wanted) ≡ (is_some best || some_gfx_runs hosts wanted)
unfolding best_gfx
best_gfx-is_some none [] wanted = refl
best_gfx-is_some (some n) [] wanted = refl
best_gfx-is_some best (h ∷ hosts) wanted =
    ground (
      arith,
      best_gfx-is_some (best_for h best wanted) hosts wanted,
      best_for-is_some h best wanted,
    )

abbrev pub rank_of : Option Score → Option ℕ
rank_of none = none
rank_of (some s) = some s.rank

rank-score_cuda :
    (c : Option CudaHost) (r : Requires)
    → rank_of (score_cuda c r) ≡ (if fits_cuda c r then some 3 else none)
rank-score_cuda none r = refl
rank-score_cuda (some c) r = ground arith

rank-score_rocm :
    (h : Option RocmHost) (r : Requires)
    → rank_of (score_rocm h r) ≡ (if fits_rocm h r then some 3 else none)
rank-score_rocm none r = refl
rank-score_rocm (some h) r = ground (arith, best_gfx-is_some none h.gfx_targets r.gfx)

rank-score_vulkan :
    (v : Option VulkanHost) (r : Requires)
    → rank_of (score_vulkan v r) ≡ (if fits_vulkan v r then some 2 else none)
rank-score_vulkan none r = refl
rank-score_vulkan (some v) r = ground arith

rank-or_else : (a b : Option Score) → rank_of (or_else a b) ≡ or_else (rank_of a) (rank_of b)
rank-or_else none b = refl
rank-or_else (some s) b = refl

-- A candidate can be used exactly if one of the families that it declares fits the host, and its
-- rank is that of the first that does, in this order: CUDA and ROCm, native; Vulkan, portable;
-- Metal, native; then the CPU.
pub score-rank :
    (host : Host) (r : Requires)
    → rank_of (score host r) ≡ (
        if fits_cuda host.cuda r || fits_rocm host.rocm r
        then some 3
        else if fits_vulkan host.vulkan r
        then some 2
        else if declares metal r && host.metal
        then some 3
        else if declares cpu r
        then some 1
        else none)
unfolding score
score-rank host r =
    rw
      (
        rank-or_else, rank-or_else, rank-or_else, rank-or_else, rank-score_cuda, rank-score_rocm,
        rank-score_vulkan,
      )
      (ground arith)
