-- ===== src/Install.antt =====
-- super-engine-daemon/src/registry: installing a backend and replacing the directory it is in.
pub mod FileSystem
pub mod Swap
pub mod CarryOver
pub mod Survivors
pub mod Reconcile
pub mod Serving
pub mod Download
pub mod Verify
