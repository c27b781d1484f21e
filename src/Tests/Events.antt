-- ===== src/Tests/Events.antt =====
-- Two events of a stream, with the second cut in its blank line.
use super_engine.Prelude.{ℕ, ◌≡◌, refl, none, some, List, [], ◌∷◌, ◌++◌, text, Text, ok, arith}
use super_engine.EventStream.{Decoder, find_blank_line, drain_for, drain_blocks, block_stream}
use super_engine.EventStream.Chunks.{frames_of, body_of, drain_for_stops, block_stream-body_of}

abbrev plain : Decoder Text
plain = record {
  from_utf8 = λ block. ok block;
  parse_block = λ block. some block;
  on_error = λ e. e;
}

abbrev cut : List (List ℕ)
cut = (text "data:a" ++ 13 ∷ 10 ∷ 13 ∷ []) ∷ (10 ∷ text "data:b" ++ 10 ∷ []) ∷ (10 ∷ []) ∷ []

both_events : block_stream plain (frames_of cut) ≡ text "data:a" ∷ text "data:b" ∷ []
unfolding block_stream drain_for find_blank_line
both_events = refl

block_stream-body_of_example :
    (block_stream plain (frames_of cut) ≡ (drain_blocks plain (body_of cut)).0)
    × (find_blank_line (drain_blocks plain (body_of cut)).1 ≡ none)
block_stream-body_of_example = block_stream-body_of plain cut

drain_for_stops_example :
    (drain_for plain 20 (body_of cut) ≡ drain_blocks plain (body_of cut))
    × (find_blank_line (drain_for plain 20 (body_of cut)).1 ≡ none)
drain_for_stops_example = drain_for_stops plain 20 (body_of cut) (omega arith)
