-- ===== src/Tests/Callers.antt =====
-- Identities, scopes and first-party clients.
use super_engine.Prelude.{◌≡◌, refl, true, none, some, [], ◌∷◌, text, bytes_eq, nat_eq, list_beq}
use super_engine.Auth.Peer.{PeerInfo, PeerIdentity, native, tcp}
use super_engine.Auth.Scopes.{ProductSpec}
use super_engine.Auth.Consent.{Files, is_official_client, official_client_names}
use super_engine.Auth.Consent.Official.{IsFirstParty, is_official_client-IsFirstParty}

abbrev page : PeerInfo
page = record tcp { web_origin = some (text "https://a.example") }

abbrev pub stt : ProductSpec
stt = record {
  display_name = text "Super STT";
  slug = text "super-stt";
  short_name = text "stt";
  env_prefix = text "SUPER_STT";
  tcp_port = 8765;
  repo = text "super-stt";
  index_url = text "https://index.example";
  scopes = text "transcribe" ∷ [];
  topics = (text "final", text "transcribe") ∷ [];
}

-- A home with the daemon and its command line client side by side.
abbrev pub home : Files
home = record {
  canonicalize = λ exe. some (exe ∷ text "bin" ∷ text "usr" ∷ []);
  daemon_dir = some (text "bin" ∷ text "usr" ∷ []);
  metadata = λ path. some (1000, 493);
  euid = 1000;
}

abbrev cli : PeerIdentity
cli = native (text "super-stt-cli") none

cli-official : is_official_client home stt cli ≡ true
unfolding is_official_client official_client_names list_beq
cli-official = refl

is_official_client-IsFirstParty_example : IsFirstParty home stt cli
is_official_client-IsFirstParty_example = is_official_client-IsFirstParty home stt cli cli-official
