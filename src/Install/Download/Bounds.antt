-- ===== src/Install/Download/Bounds.antt =====
-- super-engine-daemon/src/download_stream.rs: what is written of a response stays below the cap.
use super_engine.Prelude.{
  ℕ, ◌+◌, ◌%◌, ◌^◌, ◌≤◌, ◌<◌, ◌≡◌, Bool, some, List, [], ◌∷◌, bytes_eq, nat_eq, Text, ok, length,
  length-append, ltb, All, Result-cases, Option-cases, Bool-cases, inl, inr, arith,
}
use super_engine.Install.Download.{Chunk, accepted, stream_chunks}

-- Every chunk is short enough for the count of bytes not to wrap before the limit stops it.
abbrev pub Short : ℕ → Chunk → Type 0
Short limit chunk = (bytes : Text) → chunk.bytes ≡ some bytes → limit + length bytes < 2 ^ 64

accepted-ok :
    (limit bytes_done : ℕ) (chunk : Chunk) (bytes : Text)
    → bytes_done ≤ limit
    → Short limit chunk
    → accepted (some limit) bytes_done chunk ≡ ok bytes
    → bytes_done + length bytes ≤ limit
accepted-ok limit bytes_done chunk bytes l short h = elim (Option-cases chunk.bytes) [
  | inl n ↦ absurd (ground (arith, n))
  | inr (b, e) ↦
      let room = short b e in
      elim (Bool-cases (ltb limit ((bytes_done + length b) % 2 ^ 64))) [
        | inl over_limit ↦ absurd (ground (arith, e, over_limit))
        | inr fits ↦ ground (arith, e, fits, room)
      ]
]

-- What is written of a response, whatever becomes of the download, is never more than the cap.
pub stream_chunks-bound :
    (limit bytes_done : ℕ) (flushed : Bool) (chunks : List Chunk)
    → bytes_done ≤ limit
    → limit < 2 ^ 64
    → All (Short limit) chunks
    → bytes_done + length (stream_chunks (some limit) bytes_done flushed chunks).1 ≤ limit
unfolding stream_chunks
stream_chunks-bound limit bytes_done flushed [] l m h = omega arith
stream_chunks-bound limit bytes_done flushed (chunk ∷ chunks) l m (short, h) =
    elim (Result-cases (accepted (some limit) bytes_done chunk)) [
      | inr (e, bad) ↦ ground (arith, bad)
      | inl (bytes, good) ↦
          let fits = accepted-ok limit bytes_done chunk bytes l short good in
          let rest =
            stream_chunks-bound limit ((bytes_done + length bytes) % 2 ^ 64) flushed chunks
              (omega (arith, fits)) m h in
          let more =
            (stream_chunks (some limit) ((bytes_done + length bytes) % 2 ^ 64) flushed chunks).1 in
          ground (arith, good, fits, rest, length-append bytes more)
    ]
