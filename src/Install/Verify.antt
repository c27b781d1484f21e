-- ===== src/Install/Verify.antt =====
-- super-engine-daemon/src/backends/mod.rs: `validate_runtime`; and registry/install.rs: the check of a
-- pinned manifest, for a parser, a UTF-8 decoder and a hash that are parameters.
use super_engine.Prelude.{
  ◌≡◌, ap, sym, ◌∙◌, Bool, true, false, not, ◌&&◌, ◌||◌, Option, none, some, List, [], ◌∷◌, ◌==◌,
  bytes_eq, list_eq_of, if◌then◌else◌, Text, text, Result, ok, err, is_empty, contains, all,
  Result-cases, Bool-cases, inl, inr, arith,
}
use super_engine.Spec.Manifest.{Manifest, ManifestError, ModelEntry, Kind, subprocess, wasm}
use super_engine.Install.Serving.{
  Failure, verifying, installing, asset_hash_mismatch, manifest_invalid,
}
use super_engine.Install.Download.{pin_met}

abbrev pub reserved_segments : List Text
reserved_segments = text "list" ∷ []

abbrev pub check_addressable_name : Text → Bool
check_addressable_name name = not (contains reserved_segments name)

abbrev is_subprocess : Kind → Bool
is_subprocess subprocess = true
is_subprocess wasm = false

abbrev only : Text → List Text → Bool
only language languages = (list_eq_of bytes_eq).beq languages (language ∷ [])

-- The languages of a model and its transport.
abbrev pub model_is_valid : {M : Type 0} → Bool → ModelEntry M → Bool
model_is_valid websocket model =
    contains model.supported_languages model.primary_language
    && (model.multilingual || only model.primary_language model.supported_languages)
    && (not model.realtime || websocket)

unfoldable pub validate_runtime : {C K M F64 : Type 0} → Manifest C K M F64 → Bool
validate_runtime m =
    not (is_subprocess m.backend.kind && m.capabilities.websocket)
    && not (is_subprocess m.backend.kind && not (is_empty m.network.allowed_hosts))
    && all (λ o. check_addressable_name o.name) m.options
    && all (λ s. check_addressable_name s.name) m.secrets
    && all (model_is_valid m.capabilities.websocket) m.models

-- What the check of a manifest reads of the index entry.
abbrev pub consistent :
    {C K M F64 : Type 0} → (source entrypoint : Text) → Manifest C K M F64 → Bool
consistent source entrypoint m =
    validate_runtime m && m.backend.source == source && m.backend.entrypoint == entrypoint

module _ {C K M F64 : Type 0} (parse : Text → Result (Manifest C K M F64) ManifestError)
    (from_utf8 : Text → Option Text) (sha256 : Text → Text) where
  abbrev accepted_text :
      (source entrypoint : Text)
      → Text
      → Result (Manifest C K M F64) ManifestError
      → Result Text Failure
  accepted_text source entrypoint s (err e) = err (installing, manifest_invalid)
  accepted_text source entrypoint s (ok m) =
      if consistent source entrypoint m then ok s else err (installing, manifest_invalid)

  abbrev decoded : (source entrypoint : Text) → Option Text → Result Text Failure
  decoded source entrypoint none = err (installing, manifest_invalid)
  decoded source entrypoint (some s) = accepted_text source entrypoint s (parse s)

  unfoldable pub verify_manifest_bytes : (bytes pin source entrypoint : Text) → Result Text Failure
  unfolding validate_runtime
  verify_manifest_bytes bytes pin source entrypoint =
      if not (pin_met (sha256 bytes) pin)
      then err (verifying, asset_hash_mismatch)
      else decoded source entrypoint (from_utf8 bytes)

  decoded_sound :
      (source entrypoint : Text) (d : Option Text) (s : Text)
      → decoded source entrypoint d ≡ ok s
      → (d ≡ some s)
        × ((m : Manifest C K M F64) × (parse s ≡ ok m) × (consistent source entrypoint m ≡ true))
  decoded_sound source entrypoint none s h = absurd (ground arith)
  decoded_sound source entrypoint (some t) s h = elim (Result-cases (parse t)) [
    | inr (e, bad) ↦ absurd (ground (arith, bad))
    | inl (m, good) ↦ elim (Bool-cases (consistent source entrypoint m)) [
      | inr bad ↦ absurd (ground (arith, good, bad))
      | inl fits ↦
          let e : t ≡ s = ground (arith, good, fits) in
          (ap some e, (m, ap parse (sym e) ∙ good, fits))
    ]
  ]

  -- The manifest text that an installation writes is what the downloaded bytes decode to, they meet
  -- the pinned hash where there is one, and it parses to a manifest that passes the runtime checks
  -- and has the source and the entrypoint of the index entry.
  pub verify_manifest_bytes_sound :
      (bytes pin source entrypoint s : Text)
      → verify_manifest_bytes bytes pin source entrypoint ≡ ok s
      → (pin_met (sha256 bytes) pin ≡ true)
        × (from_utf8 bytes ≡ some s)
        × ((m : Manifest C K M F64) × (parse s ≡ ok m) × (consistent source entrypoint m ≡ true))
  unfolding verify_manifest_bytes
  verify_manifest_bytes_sound bytes pin source entrypoint s h =
      elim (Bool-cases (pin_met (sha256 bytes) pin)) [
        | inr bad ↦ absurd (ground (arith, bad))
        | inl met ↦
            let (d, m) =
              decoded_sound source entrypoint (from_utf8 bytes) s (ground (arith, met)) in
            (met, d, m)
      ]
