-- ===== src/Tests/Topics.antt =====
-- A widget that asks for two topics, and what it reads of the stream.
use super_engine.Prelude.{
  ℕ, ◌≡◌, refl, Option, none, some, [], ◌∷◌, Text, text, if◌then◌else◌, ◌==◌, nat_eq, bytes_eq,
}
use super_engine.Auth.Peer.{web}
use super_engine.Auth.State.{passed, scope_denied}
use super_engine.Auth.Middleware.{AuthContext}
use super_engine.Events.Topics.{Topic, Subscription, answered, parse_topics, stream}
use super_engine.Events.Topics.Opens.{IsGranted, stream-IsGranted}

-- The topics of a product, by number.
abbrev topics : Topic ℕ
topics = record {
  as_str = λ t. if t == 0 then text "frequency_bands" else text "download_progress";
  from_wire = λ s.
      if s == text "frequency_bands"
      then some 0
      else if s == text "download_progress"
      then some 1
      else none;
  required_scope = λ t. if t == 0 then text "audio_visualization" else text "daemon_status";
}

abbrev session : AuthContext
session = record {
  meta = record {
    app_name = text "widget";
    scopes = text "daemon_status" ∷ [];
    grantee = web (text "https://a.example");
    issued_at = 0;
    expires_at = 100;
  };
  token = text "t";
}

abbrev opened : Subscription ℕ
opened = record { receivers = 1 ∷ []; subscribed_to = text "download_progress" ∷ [] }

abbrev query : Option Text
query = some (text "download_progress, download_progress")

opens : stream topics query (some session) ≡ answered (passed opened)
unfolding stream parse_topics super_engine.Prelude.list_beq
opens = refl

denied : stream topics (some (text "frequency_bands")) (some session) ≡ answered scope_denied
unfolding stream parse_topics super_engine.Prelude.list_beq
denied = refl

stream-IsGranted_example : IsGranted topics query (some session) opened
stream-IsGranted_example = stream-IsGranted topics query (some session) opened opens
