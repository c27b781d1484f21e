-- ===== src/Install/Download.antt =====
-- super-engine-daemon/src/download_stream.rs, the downloads of registry/install.rs, and the budgets
-- of super-engine-spec/src/verify.rs. The SHA-256 in hex is a parameter.
pub mod Bounds
pub mod Bodies
pub mod Extract
use super_engine.Prelude.{
  ℕ, ◌+◌, ◌*◌, ◌-◌, ◌%◌, ◌^◌, ◌≡◌, refl, min, max, Bool, true, false, not, ◌&&◌, ◌||◌, Option, none,
  some, List, [], ◌∷◌, ◌++◌, ◌==◌, bytes_eq, nat_eq, if◌then◌else◌, Text, text, Result, ok, err,
  length, ltb, is_empty, to_ascii_lowercase,
}
use super_engine.Registry.Compat.Builds.{IndexAsset}

abbrev pub max_u64 : ℕ
max_u64 = 2 ^ 64 - 1

abbrev pub max_download_bytes : ℕ
max_download_bytes = 4 * 1024 * 1024 * 1024

abbrev pub download_size_margin : ℕ
download_size_margin = 1024 * 1024

unfoldable pub download_cap : ℕ → ℕ
download_cap expected_size =
    if expected_size == 0
    then max_download_bytes
    else min (expected_size + download_size_margin) max_u64

abbrev pub max_tarball_entry_bytes : ℕ
max_tarball_entry_bytes = 4 * 1024 * 1024 * 1024

abbrev pub max_tarball_total_floor : ℕ
max_tarball_total_floor = 4 * 1024 * 1024 * 1024

abbrev pub max_decomp_ratio : ℕ
max_decomp_ratio = 5

unfoldable pub unpack_cap : ℕ → ℕ
unpack_cap archive_size =
    max (min (archive_size * max_decomp_ratio) max_u64) max_tarball_total_floor

-- Why an archive goes over budget, in place of the sentence.
pub data OverBudget : Type 0 where
  entry_too_large : OverBudget
  output_too_large : (cap : ℕ) → OverBudget

unfoldable pub tar_budget_step : ℕ → ℕ → ℕ → Result ℕ OverBudget
tar_budget_step entry_size running_total total_cap =
    if ltb max_tarball_entry_bytes entry_size
    then err entry_too_large
    else if ltb total_cap (min (running_total + entry_size) max_u64)
    then err (output_too_large total_cap)
    else ok (min (running_total + entry_size) max_u64)

unfoldable pub sha256_matches : Text → Text → Bool
sha256_matches actual expected =
    not (is_empty expected) && to_ascii_lowercase actual == to_ascii_lowercase expected

-- What a response gives next: whether the download was cancelled before it, the bytes unless the
-- transport failed, and whether they could be written.
pub record Chunk : Type 0 where
  pub cancelled : Bool
  pub bytes : Option Text
  pub written : Bool

pub data StreamError : Type 0 where
  http io cancelled : StreamError
  too_large : (limit : ℕ) → StreamError

abbrev pub over : Option ℕ → ℕ → Option ℕ
over none bytes_done = none
over (some limit) bytes_done = if ltb limit bytes_done then some limit else none

-- What a chunk comes to: the bytes that are written, if the download goes on.
abbrev pub accepted : Option ℕ → ℕ → Chunk → Result Text StreamError
accepted cap bytes_done chunk = if chunk.cancelled then err cancelled else elim chunk.bytes [
  | none ↦ err http
  | some bytes ↦ elim (over cap ((bytes_done + length bytes) % 2 ^ 64)) [
    | some limit ↦ err (too_large limit)
    | none ↦ if chunk.written then ok bytes else err io
  ]
]

-- A response: its chunks, and whether the last of it could be flushed.
pub record Body : Type 0 where
  pub chunks : List Chunk
  pub flushed : Bool

abbrev pub also_hashed : Text → Result Text StreamError → Result Text StreamError
also_hashed bytes (ok more) = ok (bytes ++ more)
also_hashed bytes (err e) = err e

-- The loop of `stream_body_to_writer`: what the hasher was given, unless it fails, and what the writer
-- was, but for what a write that fails leaves.
unfoldable pub stream_chunks : Option ℕ → ℕ → Bool → List Chunk → Result Text StreamError × Text
stream_chunks cap bytes_done flushed [] = (if flushed then ok [] else err io, [])
stream_chunks cap bytes_done flushed (chunk ∷ chunks) = elim (accepted cap bytes_done chunk) [
  | err e ↦ (err e, [])
  | ok bytes ↦
      let (hashed, written) =
        stream_chunks cap ((bytes_done + length bytes) % 2 ^ 64) flushed chunks in
      (also_hashed bytes hashed, bytes ++ written)
]

abbrev pub stream_body : Option ℕ → Body → Result Text StreamError × Text
stream_body cap body = stream_chunks cap 0 body.flushed body.chunks

pub data PipelineError : Type 0 where
  network io tar_unsafe : PipelineError
  hash_mismatch : (expected actual : Text) → PipelineError
  too_large : (limit : ℕ) → PipelineError

-- The error of a stream that nothing cancels.
abbrev pub as_pipeline : StreamError → PipelineError
as_pipeline http = network
as_pipeline io = io
as_pipeline cancelled = io
as_pipeline (too_large limit) = too_large limit

-- One part that is downloaded: the response, unless the request failed.
abbrev pub Fetched : Type 0
Fetched = IndexAsset × Option Body

-- Whether a pinned hash is met; the empty pin of an unverified source always is.
abbrev pub pin_met : Text → Text → Bool
pin_met actual pin = is_empty pin || sha256_matches actual pin

abbrev pub received :
    (sha256 : Text → Text) → IndexAsset → Result Text StreamError × Text → Result Text PipelineError
received sha256 part (err e, written) = err (as_pipeline e)
received sha256 part (ok hashed, written) =
    if pin_met (sha256 hashed) part.sha256
    then ok written
    else err (hash_mismatch part.sha256 (sha256 hashed))

abbrev pub fetch_part : (sha256 : Text → Text) → Fetched → Result Text PipelineError
fetch_part sha256 (part, none) = err network
fetch_part sha256 (part, some body) =
    received sha256 part (stream_body (some (download_cap part.size)) body)

-- `download_verified_parts`: the file that the parts make, in their order.
unfoldable pub download_verified_parts :
    (sha256 : Text → Text) → List Fetched → Result Text PipelineError
unfolding stream_chunks download_cap sha256_matches
download_verified_parts sha256 [] = ok []
download_verified_parts sha256 (part ∷ parts) =
    let rest = download_verified_parts sha256 parts in
    elim (fetch_part sha256 part) [
      | err e ↦ err e
      | ok body ↦ elim rest [ err e ↦ err e | ok more ↦ ok (body ++ more) ]
    ]
