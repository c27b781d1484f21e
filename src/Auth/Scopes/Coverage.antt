-- ===== src/Auth/Scopes/Coverage.antt =====
-- super-engine-protocol/src/scopes.rs: when a token's scopes cover a subscription.
use super_engine.Prelude.{
  ◌≡◌, ◌↔◌, refl, none, some, List, [], ◌∷◌, bytes_eq, Text, Member, All, contains_iff, arith,
  Option-cases, inl, inr,
}
use super_engine.Auth.Scopes.{ProductSpec, required_scope_for_topic, uncovered_topic}

-- The product publishes the topic, and the scopes hold what it needs.
abbrev pub IsCovered : ProductSpec → List Text → Text → Type 0
IsCovered product scopes topic =
    (required : Text) × (required_scope_for_topic product topic ≡ some required)
    × Member required scopes

-- No topic is reported exactly if each one is published by the product and its scope is among the
-- given ones.
pub uncovered_topic_iff :
    (product : ProductSpec) (scopes topics : List Text)
    → (uncovered_topic product scopes topics ≡ none) ↔ All (IsCovered product scopes) topics
unfolding uncovered_topic
uncovered_topic_iff product scopes [] = (λ h. tt, λ h. refl)
uncovered_topic_iff product scopes (t ∷ ts) =
    elim (Option-cases (required_scope_for_topic product t)) [
      | inl e ↦ (λ h. absurd (ground arith), λ h. let (r, p, m) = h.0 in absurd (ground (arith, p)))
      | inr (r, e) ↦ (
        λ h. (
          (r, e, (contains_iff scopes r).0 (ground arith)),
          (uncovered_topic_iff product scopes ts).0 (ground arith),
        ),
        λ h.
            let (r', e', m) = h.0 in
            ground
              (arith, (contains_iff scopes r').1 m, (uncovered_topic_iff product scopes ts).1 h.1),
      )
    ]
