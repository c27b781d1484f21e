-- ===== src/Installer.antt =====
-- super-engine-installer/src: the step of an installation that runs as root.
pub mod RootPhase
