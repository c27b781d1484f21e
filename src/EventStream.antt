-- ===== src/EventStream.antt =====
-- super-engine-client/src/http_client/internal/sse.rs: the blocks of an event stream. The check of
-- UTF-8 and the parser of a block are parameters; text of an error stands for what it prints.
pub mod Chunks
pub mod Fields
use super_engine.Prelude.{
  ℕ, zero, suc, ◌+◌, Bool, true, false, ◌&&◌, Option, none, some, List, [], ◌∷◌, ◌++◌, ◌==◌, nat_eq,
  length, if◌then◌else◌, Text, text, Result, ok, err,
}

module _ {A : Type 0} where
  abbrev pub front : ℕ → List A → List A
  front zero xs = []
  front (suc n) [] = []
  front (suc n) (x ∷ xs) = x ∷ front n xs

  abbrev pub drop : ℕ → List A → List A
  drop zero xs = xs
  drop (suc n) [] = []
  drop (suc n) (x ∷ xs) = drop n xs

abbrev pub is_lf_lf : List ℕ → Bool
is_lf_lf (a ∷ b ∷ bytes) = a == 10 && b == 10
is_lf_lf _ = false

abbrev pub is_crlf_crlf : List ℕ → Bool
is_crlf_crlf (a ∷ b ∷ c ∷ d ∷ bytes) = a == 13 && (b == 10 && (c == 13 && d == 10))
is_crlf_crlf _ = false

-- The loop of `find_blank_line` from index `i`, at the bytes from there on.
abbrev pub find_from : ℕ → List ℕ → Option (ℕ × ℕ)
find_from i [] = none
find_from i (c ∷ bytes) =
    let later = find_from (suc i) bytes in
    if is_lf_lf (c ∷ bytes)
    then some (i, i + 2)
    else if is_crlf_crlf (c ∷ bytes)
    then some (i, i + 4)
    else later

-- The start of the blank line, and the end of the block.
unfoldable pub find_blank_line : List ℕ → Option (ℕ × ℕ)
find_blank_line buffer = find_from 0 buffer

pub record Decoder (T : Type 0) : Type 0 where
  pub from_utf8 : List ℕ → Result Text Text
  pub parse_block : Text → Option T
  pub on_error : Text → T

pub data Frame : Type 0 where
  bytes : List ℕ → Frame
  trailers : Frame
  failed : Text → Frame

module _ {T : Type 0} where
  abbrev pub parsed_event : Option T → List T
  parsed_event none = []
  parsed_event (some event) = event ∷ []

  abbrev pub decoded_block : Decoder T → Result Text Text → List T
  decoded_block d (ok block) = parsed_event (d.parse_block block)
  decoded_block d (err e) = d.on_error (text "non-utf8 SSE block: " ++ e) ∷ []

  -- What one block yields, and then the rest of the buffer.
  abbrev pub after_block :
      Decoder T → (List ℕ → List T × List ℕ) → List ℕ → Option (ℕ × ℕ) → List T × List ℕ
  after_block d rest buffer none = ([], buffer)
  after_block d rest buffer (some (start, end)) = (
    decoded_block d (d.from_utf8 (front start buffer)) ++ (rest (drop end buffer)).0,
    (rest (drop end buffer)).1,
  )

  -- The inner loop on fuel; the length of the buffer is enough.
  unfoldable pub drain_for : Decoder T → ℕ → List ℕ → List T × List ℕ
  drain_for d zero buffer = ([], buffer)
  drain_for d (suc n) buffer = after_block d (drain_for d n) buffer (find_blank_line buffer)

  abbrev pub drain_blocks : Decoder T → List ℕ → List T × List ℕ
  drain_blocks d buffer = drain_for d (length buffer) buffer

  abbrev pub stream_from : Decoder T → List ℕ → List Frame → List T
  stream_from d buffer [] = []
  stream_from d buffer (failed e ∷ frames) = d.on_error (text "body read error: " ++ e) ∷ []
  stream_from d buffer (trailers ∷ frames) = stream_from d buffer frames
  stream_from d buffer (bytes chunk ∷ frames) =
      (drain_blocks d (buffer ++ chunk)).0
      ++ stream_from d (drain_blocks d (buffer ++ chunk)).1 frames

  unfoldable pub block_stream : Decoder T → List Frame → List T
  block_stream d frames = stream_from d [] frames
