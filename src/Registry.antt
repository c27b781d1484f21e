-- ===== src/Registry.antt =====
-- Which build of a backend, and which variant of a model file, suits a host.
pub mod Arch
pub mod Host
pub mod Ranking
pub mod Compat
