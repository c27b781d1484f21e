-- ===== src/Events/Topics.antt =====
-- events.rs: which subscriptions `GET /events` opens. The topics are the product's.
pub mod Opens
use super_engine.Prelude.{
  ℕ, Bool, true, false, not, Option, none, some, List, [], ◌∷◌, ◌++◌, Text, text, Eq, Result, ok,
  err, map, any, contains, keep, is_empty, split, trim, if◌then◌else◌, bytes_eq, ◌==◌,
}
use super_engine.Auth.State.{Response, unknown, invalid_session, scope_denied, passed}
use super_engine.Auth.Middleware.{AuthContext}

-- The `Topic` enum that the product's rows give.
pub record Topic (T : Type 0) : Type 0 where
  pub as_str : T → Text
  pub from_wire : Text → Option T
  pub required_scope : T → Text

-- The names of a query: between commas, without white space around them.
abbrev pub names : Text → List Text
names csv = keep (λ t. not (is_empty t)) (map trim (split b',' csv))

-- The receivers that are forwarded, and the names that the `subscribed` frame acknowledges; the order
-- in which frames arrive is left open.
pub record Subscription (T : Type 0) : Type 0 where
  pub receivers : List T
  pub subscribed_to : List Text

-- `invalid_topic` has its reason as a text.
pub data Answer (T : Type 0) : Type 0 where
  invalid_topic : (reason : Text) → Answer T
  answered : Response (Subscription T) → Answer T

module _ {T : Type 0} ⦃same : Eq T⦄ where
  abbrev pub pushed : List T → T → List T
  pushed requested t = if contains requested t then requested else requested ++ t ∷ []

  abbrev pub collect_one :
      (List T → Result (List T) Text) → List T → Text → Option T → Result (List T) Text
  collect_one rest requested raw none = err raw
  collect_one rest requested raw (some t) = rest (pushed requested t)

  abbrev pub collect : Topic T → List T → List Text → Result (List T) Text
  collect top requested [] = ok requested
  collect top requested (raw ∷ raws) =
      collect_one (λ pushed. collect top pushed raws) requested raw (top.from_wire raw)

  abbrev pub at_least_one : Result (List T) Text → Result (List T) Text
  at_least_one (err reason) = err reason
  at_least_one (ok []) = err (text "missing_topics")
  at_least_one (ok (t ∷ ts)) = ok (t ∷ ts)

  unfoldable pub parse_topics : Topic T → Option Text → Result (List T) Text
  unfolding split trim
  parse_topics top none = err (text "missing_topics")
  parse_topics top (some []) = err (text "missing_topics")
  parse_topics top (some (c ∷ csv)) = at_least_one (collect top [] (names (c ∷ csv)))

  abbrev pub gate : Topic T → List T → Option AuthContext → Answer T
  gate top requested none = answered (invalid_session unknown)
  gate top requested (some ctx) =
      if any (λ t. not (contains ctx.meta.scopes (top.required_scope t))) requested
      then answered scope_denied
      else answered
          (passed (record { receivers = requested; subscribed_to = map top.as_str requested }))

  abbrev pub stream_for : Topic T → Result (List T) Text → Option AuthContext → Answer T
  stream_for top (err reason) ctx = invalid_topic reason
  stream_for top (ok requested) ctx = gate top requested ctx

  unfoldable pub stream : Topic T → Option Text → Option AuthContext → Answer T
  stream top topics ctx = stream_for top (parse_topics top topics) ctx
