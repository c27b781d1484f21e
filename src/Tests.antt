-- ===== src/Tests.antt =====
-- The theorems of the library, each applied to a small concrete case.
mod Gate
mod Limits
mod Callers
mod Sessions
mod Consents
mod Flows
mod Topics
mod Streams
mod Updates
mod Phases
mod Events
mod Delays
mod Loads
mod Requests
mod Registries
mod Manifests
mod Installs
