-- ===== src/Spec.antt =====
-- super-engine-spec/src: the manifest of a backend and the rules that it is held to.
pub mod Version
pub mod Checksums
pub mod Paths
pub mod BackendId
pub mod Manifest
