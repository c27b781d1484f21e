-- ===== src/Install/Download/Bodies.antt =====
-- registry/install.rs: what a file that is downloaded in parts is made of.
use super_engine.Prelude.{
  ℕ, ◌+◌, ◌%◌, ◌^◌, ◌≡◌, refl, ap, subst, ◌∙◌, Bool, true, Option, none, some, List, [], ◌∷◌, ◌++◌,
  bytes_eq, nat_eq, Text, Result, ok, err, length, ◌⊎◌, to_ascii_lowercase, sym, Result-cases,
  Bool-cases, inl, inr, arith,
}
use super_engine.Registry.Compat.Builds.{IndexAsset}
use super_engine.Install.Download.{
  download_cap, Chunk, StreamError, accepted, Body, also_hashed, stream_chunks, stream_body,
  sha256_matches, Fetched, pin_met, received, fetch_part, download_verified_parts,
}

-- All the bytes of a response, one chunk after another.
abbrev pub IsWhole : List Chunk → Text → Type 0
IsWhole [] body = body ≡ []
IsWhole (chunk ∷ chunks) body =
    (bytes : Text) × (rest : Text) × (chunk.bytes ≡ some bytes)
    × (body ≡ bytes ++ rest)
    × IsWhole chunks rest

-- The hash is the one that is pinned, whatever the case of its digits, or none is pinned.
abbrev pub IsPinned : Text → Text → Type 0
IsPinned actual pin = (pin ≡ []) ⊎ (to_ascii_lowercase actual ≡ to_ascii_lowercase pin)

-- A file that is made of the whole bodies of its parts, in their order, each of which meets its pin.
abbrev pub IsMadeOf : (sha256 : Text → Text) → List Fetched → Text → Type 0
IsMadeOf sha256 [] file = file ≡ []
IsMadeOf sha256 ((part, response) ∷ parts) file =
    (text : Text) × (more : Text) × (body : Body) × (response ≡ some body)
    × IsWhole body.chunks text
    × IsPinned (sha256 text) part.sha256
    × (file ≡ text ++ more)
    × IsMadeOf sha256 parts more

accepted-bytes :
    (cap : Option ℕ) (bytes_done : ℕ) (chunk : Chunk) (bytes : Text)
    → accepted cap bytes_done chunk ≡ ok bytes
    → chunk.bytes ≡ some bytes
accepted-bytes cap bytes_done chunk bytes h = ground arith

also_hashed-ok :
    (bytes hashed : Text) (r : Result Text StreamError)
    → also_hashed bytes r ≡ ok hashed
    → (more : Text) × (r ≡ ok more) × (hashed ≡ bytes ++ more)
also_hashed-ok bytes hashed (ok more) h = (more, refl, ground arith)
also_hashed-ok bytes hashed (err e) h = absurd (ground arith)

-- What a response that goes through has written and hashed.
stream_chunks-IsWhole :
    (cap : Option ℕ) (bytes_done : ℕ) (flushed : Bool) (chunks : List Chunk) (hashed written : Text)
    → stream_chunks cap bytes_done flushed chunks ≡ (ok hashed, written)
    → IsWhole chunks written × (hashed ≡ written)
unfolding stream_chunks
stream_chunks-IsWhole cap bytes_done flushed [] hashed written h = elim (Bool-cases flushed) [
  | inl e ↦
      (ground (arith, e, ap (λ r. r.1) h), ground (arith, e, ap (λ r. r.0) h, ap (λ r. r.1) h))
  | inr e ↦ absurd (ground (arith, e, ap (λ r. r.0) h))
]
stream_chunks-IsWhole cap bytes_done flushed (chunk ∷ chunks) hashed written h =
    let next =
      λ (bytes : Text). stream_chunks cap ((bytes_done + length bytes) % 2 ^ 64) flushed chunks in
    elim (Result-cases (accepted cap bytes_done chunk)) [
      | inr (e, bad) ↦ absurd (ground (arith, bad, ap (λ r. r.0) h))
      | inl (bytes, good) ↦
          let fst : also_hashed bytes (next bytes).0 ≡ ok hashed =
            ground (arith, good, ap (λ r. r.0) h) in
          let snd : bytes ++ (next bytes).1 ≡ written = ground (arith, good, ap (λ r. r.1) h) in
          let (more, e, whole) = also_hashed-ok bytes hashed (next bytes).0 fst in
          let (rest, same) =
            stream_chunks-IsWhole cap ((bytes_done + length bytes) % 2 ^ 64) flushed chunks more
              (next bytes).1 (ap (λ r. (r, (next bytes).1)) e) in
          (
            (bytes, (next bytes).1, accepted-bytes cap bytes_done chunk bytes good, sym snd, rest),
            whole ∙ ap (λ t. bytes ++ t) same ∙ snd,
          )
    ]

pin_met-IsPinned : (actual pin : Text) → pin_met actual pin ≡ true → IsPinned actual pin
unfolding sha256_matches
pin_met-IsPinned actual [] h = inl refl
pin_met-IsPinned actual (c ∷ pin) h =
    inr (
      (bytes_eq.beq_iff (to_ascii_lowercase actual) (to_ascii_lowercase (c ∷ pin))).0
        (ground arith))

received-ok :
    (sha256 : Text → Text) (part : IndexAsset) (r : Result Text StreamError × Text) (text : Text)
    → received sha256 part r ≡ ok text
    → (hashed : Text) × (r ≡ (ok hashed, text)) × IsPinned (sha256 hashed) part.sha256
received-ok sha256 part (err e, b) text h = absurd (ground (arith))
received-ok sha256 part (ok hashed, b) text h =
    elim (Bool-cases (pin_met (sha256 hashed) part.sha256)) [
      | inr bad ↦ absurd (ground (arith, bad))
      | inl met ↦
          let e : b ≡ text = ground (arith, met) in
          (hashed, ap (λ x. (ok hashed, x)) e, pin_met-IsPinned (sha256 hashed) part.sha256 met)
    ]

fetch_part-ok :
    (sha256 : Text → Text) (part : IndexAsset) (response : Option Body) (text : Text)
    → fetch_part sha256 (part, response) ≡ ok text
    → (body : Body) × (response ≡ some body)
      × IsWhole body.chunks text
      × IsPinned (sha256 text) part.sha256
fetch_part-ok sha256 part none text h = absurd (ground arith)
fetch_part-ok sha256 part (some body) text h =
    let cap = some (download_cap part.size) in
    let (hashed, r, met) = received-ok sha256 part (stream_body cap body) text h in
    let (whole, same) = stream_chunks-IsWhole cap 0 body.flushed body.chunks hashed text r in
    (body, refl, whole, subst (λ t. IsPinned (sha256 t) part.sha256) same met)

-- An archive that is put together from its parts is all the bytes of every part's response, in the
-- order of the parts, and the bytes of each part have the hash that is pinned for it, where one is.
pub download_verified_parts-IsMadeOf :
    (sha256 : Text → Text) (parts : List Fetched) (file : Text)
    → download_verified_parts sha256 parts ≡ ok file
    → IsMadeOf sha256 parts file
unfolding download_verified_parts
download_verified_parts-IsMadeOf sha256 [] file h = ground arith
download_verified_parts-IsMadeOf sha256 ((part, response) ∷ parts) file h =
    elim (Result-cases (fetch_part sha256 (part, response))) [
      | inr (e, bad) ↦ absurd (ground (arith, bad))
      | inl (body, good) ↦ elim (Result-cases (download_verified_parts sha256 parts)) [
        | inr (e, bad) ↦ absurd (ground (arith, good, bad))
        | inl (more, fine) ↦
            let (response', e, whole_body, met) = fetch_part-ok sha256 part response body good in
            let whole : file ≡ body ++ more = ground (arith, good, fine) in
            (
              body,
              more,
              response',
              e,
              whole_body,
              met,
              whole,
              download_verified_parts-IsMadeOf sha256 parts more fine,
            )
      ]
    ]
