-- ===== src/Events.antt =====
-- super-engine-daemon/src/events.rs: the frames of `GET /events`.
pub mod Arrive
pub mod Topics
use super_engine.Prelude.{ℕ, List, [], ◌∷◌, ◌++◌, Text, text, utf8}

abbrev pub block_of : Text → Text → Text
block_of event json = text "event: " ++ (event ++ 10 ∷ (text "data: " ++ json))

-- The bytes of a frame.
unfoldable pub sse_frame : Text → Text → List ℕ
sse_frame event json = utf8 (block_of event json) ++ 10 ∷ 10 ∷ []

-- `: keepalive` with its blank line.
unfoldable pub keepalive_frame : List ℕ
keepalive_frame = utf8 (text ": keepalive") ++ 10 ∷ 10 ∷ []
