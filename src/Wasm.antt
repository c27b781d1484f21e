-- ===== src/Wasm.antt =====
-- super-engine-daemon/src/wasm: what a WebAssembly backend may reach on the network.
pub mod Egress
