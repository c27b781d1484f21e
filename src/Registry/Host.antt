-- ===== src/Registry/Host.antt =====
-- super-engine-daemon/src/registry/host.rs: what is known of the host. The numbers of a probed AMD
-- target and of a Vulkan version are all that the selection reads of them.
use super_engine.Prelude.{ℕ, Bool, Option, List, Text}
use super_engine.Registry.Arch.{GfxSpec, VulkanApi}

pub record CudaHost : Type 0 where
  pub compute_capability : ℕ
  pub runtime_major : ℕ
  pub cudnn_present : Bool

pub record RocmHost : Type 0 where
  pub gfx_targets : List GfxSpec

pub record VulkanHost : Type 0 where
  pub api_version : VulkanApi

pub record Host : Type 0 where
  pub target_triple : Text
  pub cuda : Option CudaHost
  pub rocm : Option RocmHost
  pub vulkan : Option VulkanHost
  pub metal : Bool
