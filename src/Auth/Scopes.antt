-- ===== src/Auth/Scopes.antt =====
-- super-engine-protocol/src/product.rs and scopes.rs: the product's names, and which scope a topic
-- needs.
pub mod Coverage
use super_engine.Prelude.{
  ℕ, Bool, true, false, not, Option, none, some, List, [], ◌∷◌, ◌++◌, ◌==◌, bytes_eq, if◌then◌else◌,
  Text, text, any, find, contains,
}

pub record ProductSpec : Type 0 where
  pub display_name : Text
  pub slug : Text
  pub short_name : Text
  pub env_prefix : Text
  pub tcp_port : ℕ
  pub repo : Text
  pub index_url : Text
  pub scopes : List Text
  pub topics : List (Text × Text)

module _ (p : ProductSpec) where
  unfoldable pub env : Text → Text
  env name = p.env_prefix ++ text "_" ++ name

  unfoldable pub socket_file : Text
  socket_file = p.slug ++ text "-http.sock"

  unfoldable pub http_host : Text
  http_host = p.short_name ++ text ".local"

  unfoldable pub consent_helper : Text
  consent_helper = p.slug ++ text "-consent"

  unfoldable pub daemon_binary : Text
  daemon_binary = p.slug ++ text "-daemon"

  unfoldable pub installer_binary : Text
  installer_binary = p.slug ++ text "-install"

abbrev pub shared_applet : Text
shared_applet = text "super-cosmic-applet"

abbrev pub core_scopes : List Text
core_scopes =
    text "settings"
    ∷ text "secrets"
    ∷ text "status"
    ∷ text "audio_visualization"
    ∷ text "daemon_status"
    ∷ []

abbrev pub core_topics : List (Text × Text)
core_topics =
    (text "frequency_bands", text "audio_visualization")
    ∷ (text "daemon_status_changed", text "daemon_status")
    ∷ (text "download_progress", text "daemon_status")
    ∷ (text "registry_install", text "daemon_status")
    ∷ []

unfoldable pub known_scopes : ProductSpec → List Text
known_scopes product = core_scopes ++ product.scopes

unfoldable pub is_known_scope : ProductSpec → Text → Bool
unfolding known_scopes
is_known_scope product s = any (λ known. known == s) (known_scopes product)

abbrev scope_of : Option (Text × Text) → Option Text
scope_of none = none
scope_of (some (name, scope)) = some scope

abbrev named : Text → Text × Text → Bool
named topic (name, scope) = name == topic

unfoldable pub required_scope_for_topic : ProductSpec → Text → Option Text
required_scope_for_topic product topic =
    scope_of (find (named topic) (core_topics ++ product.topics))

abbrev is_uncovered : List Text → Option Text → Bool
is_uncovered scopes (some required) = not (contains scopes required)
is_uncovered scopes none = true

unfoldable pub uncovered_topic : ProductSpec → (scopes topics : List Text) → Option Text
uncovered_topic product scopes topics =
    find (λ t. is_uncovered scopes (required_scope_for_topic product t)) topics
