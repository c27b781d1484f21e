-- ===== src/Auth.antt =====
-- super-engine-daemon/src/auth: who a peer is, the session tokens, the consent handshake, and the
-- guards in front of the routes. Texts are lists of code points.
pub mod Peer
pub mod Tokens
pub mod Scopes
pub mod Consent
pub mod State
pub mod Middleware
pub mod Routes
