-- ===== src/Events/Arrive.antt =====
-- events.rs and the client's event stream: what the daemon frames, the client reads.
use super_engine.Prelude.{
  ℕ, zero, suc, ◌+◌, ◌≡◌, refl, sym, ap, ◌∙◌, false, ◌&&◌, some, List, [], ◌∷◌, ◌++◌, ◌==◌, nat_eq,
  length, All, Text, text, ok, split, strip_prefix, trim_start, is_whitespace, utf8, utf8_of,
  IsInline, utf8-IsInline, arith, map, length-append, subst, ap₂,
}
use mathlib.Core.List.{append_assoc}
use super_engine.EventStream.{
  Decoder, find_from, find_blank_line, front, drop, drain_for, drain_blocks, decoded_block,
  parsed_event, block_stream,
}
use super_engine.EventStream.Chunks.{
  frames_of, body_of, drain_for-append, drain_for-enough, then_drain, block_stream-body_of,
}
use super_engine.EventStream.Fields.{
  no_fields, trim_end_cr, read_line, read_lines, parse_fields, Json, WidgetEvent, or_null,
  widget_event, parse_widget_sse_block,
}
use super_engine.Events.{block_of, sse_frame, keepalive_frame}

-- A line as it is: text with no line end that does not begin with white space.
abbrev StartsSolid : Text → Type 0
StartsSolid [] = Unit
StartsSolid (c ∷ s) = is_whitespace c ≡ false

abbrev pub IsLine : Text → Type 0
IsLine s = All IsInline s × StartsSolid s

trim_end_cr_lem : (s : Text) → All IsInline s → trim_end_cr s ≡ s
unfolding trim_end_cr
trim_end_cr_lem [] h = refl
trim_end_cr_lem (c ∷ s) ((lf, cr), h) = ground (arith, cr, trim_end_cr_lem s h)

trim_start_lem : (s : Text) → StartsSolid s → trim_start s ≡ s
unfolding trim_start
trim_start_lem [] h = refl
trim_start_lem (c ∷ s) h = rw h refl

split_last : (s : Text) → All IsInline s → split 10 s ≡ s ∷ []
unfolding split
split_last [] h = refl
split_last (c ∷ s) ((lf, cr), h) = rw (lf, split_last s h) refl

split_line : (s rest : Text) → All IsInline s → split 10 (s ++ 10 ∷ rest) ≡ s ∷ split 10 rest
unfolding split
split_line [] rest h = refl
split_line (c ∷ s) rest ((lf, cr), h) = rw (lf, split_line s rest h) refl

-- Bytes that hold no blank line, nor the beginning of one at their end.
abbrev IsSolidBlock : List ℕ → Type 0
IsSolidBlock [] = Unit
IsSolidBlock (a ∷ []) = IsInline a
IsSolidBlock (a ∷ b ∷ bytes) =
    ((a == 10 && b == 10) ≡ false) × ((a == 13) ≡ false) × IsSolidBlock (b ∷ bytes)

find_from-solid :
    (i : ℕ) (bytes rest : List ℕ)
    → IsSolidBlock bytes
    → find_from i (bytes ++ 10 ∷ 10 ∷ rest) ≡ some (i + length bytes, i + length bytes + 2)
find_from-solid i [] rest h = ground arith
find_from-solid i (a ∷ []) rest (lf, cr) = ground (arith, lf, cr)
find_from-solid i (a ∷ b ∷ []) rest (lf, cr, h) =
    ground (arith, lf, cr, find_from-solid (suc i) (b ∷ []) rest h)
find_from-solid i (a ∷ b ∷ c ∷ bytes) rest (lf, cr, h) =
    ground (arith, lf, cr, find_from-solid (suc i) (b ∷ c ∷ bytes) rest h)

solid-append : (xs ys : List ℕ) → All IsInline xs → IsSolidBlock ys → IsSolidBlock (xs ++ ys)
solid-append [] ys h k = k
solid-append (x ∷ []) [] h k = h.0
solid-append (x ∷ []) (y ∷ ys) ((lf, cr), h) k = (rw lf refl, cr, k)
solid-append (x ∷ x' ∷ xs) ys ((lf, cr), h) k = (rw lf refl, cr, solid-append (x' ∷ xs) ys h k)

front_all : (xs ys : List ℕ) → front (length xs) (xs ++ ys) ≡ xs
front_all [] ys = refl
front_all (x ∷ xs) ys = ap (λ zs. x ∷ zs) (front_all xs ys)

drop_all : (xs : List ℕ) → drop (length xs + 2) (xs ++ 10 ∷ 10 ∷ []) ≡ []
drop_all [] = refl
drop_all (x ∷ xs) =
    let e : length (x ∷ xs) + 2 ≡ suc (length xs + 2) = omega arith in rw e (drop_all xs)

utf8-append : (s t : Text) → utf8 (s ++ t) ≡ utf8 s ++ utf8 t
unfolding utf8
utf8-append [] t = refl
utf8-append (c ∷ s) t =
    ap (λ u. utf8_of c ++ u) (utf8-append s t) ∙ sym (append_assoc (utf8_of c) (utf8 s) (utf8 t))

solid_inline : (xs : List ℕ) → All IsInline xs → IsSolidBlock xs
solid_inline [] h = tt
solid_inline (x ∷ []) h = h.0
solid_inline (x ∷ y ∷ xs) ((lf, cr), h) = (rw lf refl, cr, solid_inline (y ∷ xs) h)

event_line : (name : Text) → All IsInline name → All IsInline (text "event: " ++ name)
event_line name h = ground (arith, h)

data_line : (json : Text) → All IsInline json → All IsInline (text "data: " ++ json)
data_line json h = ground (arith, h)

block_of-lines :
    (name json : Text)
    → block_of name json ≡ (text "event: " ++ name) ++ 10 ∷ (text "data: " ++ json)
block_of-lines name json = sym (append_assoc (text "event: ") name (10 ∷ (text "data: " ++ json)))

block_of-solid :
    (name json : Text)
    → All IsInline name
    → All IsInline json
    → IsSolidBlock (utf8 (block_of name json))
unfolding utf8 utf8_of
block_of-solid name json h k =
    let lines =
      ap utf8 (block_of-lines name json)
      ∙ utf8-append (text "event: " ++ name) (10 ∷ (text "data: " ++ json)) in
    subst IsSolidBlock (sym lines) (
      solid-append (utf8 (text "event: " ++ name)) (10 ∷ utf8 (text "data: " ++ json))
        (utf8-IsInline (text "event: " ++ name) (event_line name h))
        (
          refl,
          refl,
          solid_inline (utf8 (text "data: " ++ json))
              (utf8-IsInline (text "data: " ++ json) (data_line json k)),
        ))

-- The two lines of a frame, read back.
parse_fields-block_of :
    (name json : Text)
    → IsLine name
    → IsLine json
    → parse_fields (block_of name json)
      ≡ record { event = some name; data_text = json; saw_comment = false }
unfolding parse_fields strip_prefix trim_start is_whitespace
parse_fields-block_of name json (h, solid) (k, firm) =
    let e = event_line name h in
    let f = data_line json k in
    let lines =
      ap (split 10) (block_of-lines name json)
      ∙ split_line (text "event: " ++ name) (text "data: " ++ json) e
      ∙ ap (λ ls. (text "event: " ++ name) ∷ ls) (split_last (text "data: " ++ json) f) in
    ap (read_lines no_fields) lines
    ∙ ap₂ (λ a b. read_line (read_line no_fields a) b) (trim_end_cr_lem (text "event: " ++ name) e)
        (trim_end_cr_lem (text "data: " ++ json) f)
    ∙ ap₂ (λ n t. record { event = some n; data_text = t; saw_comment = false })
        (trim_start_lem name solid) (trim_start_lem json firm)

-- What the daemon sends on a stream: an event with its JSON, or a heartbeat.
pub data Sent : Type 0 where
  event : (name json : Text) → Sent
  keepalive : Sent

abbrev pub frame_of : Sent → List ℕ
frame_of (event name json) = sse_frame name json
frame_of keepalive = keepalive_frame

abbrev pub frames : List Sent → List ℕ
frames [] = []
frames (s ∷ ss) = frame_of s ++ frames ss

-- The topic and the JSON of an event stand on one line each.
abbrev pub IsPlain : Sent → Type 0
IsPlain (event name json) = IsLine name × IsLine json
IsPlain keepalive = Unit

abbrev text_of : Sent → Text
text_of (event name json) = block_of name json
text_of keepalive = text ": keepalive"

module _ {V : Type 0} (j : Json V) where
  abbrev pub received : Sent → WidgetEvent V
  received (event name json) = record { name = name; payload = or_null j (j.from_str json) }
  received keepalive = record { name = text "keepalive"; payload = j.null }

  parse_widget_sse_block-text_of :
      (s : Sent) → IsPlain s → parse_widget_sse_block j (text_of s) ≡ some (received s)
  unfolding parse_widget_sse_block
  parse_widget_sse_block-text_of (event name json) (h, k) =
      ap (λ f. widget_event j f f.event) (parse_fields-block_of name json h k)
  parse_widget_sse_block-text_of keepalive h = unfold parse_fields in refl

  text_of-solid : (s : Sent) → IsPlain s → IsSolidBlock (utf8 (text_of s))
  unfolding utf8 utf8_of
  text_of-solid (event name json) (h, k) = block_of-solid name json h.0 k.0
  text_of-solid keepalive h = ground arith

  frame_of-text_of : (s : Sent) → frame_of s ≡ utf8 (text_of s) ++ 10 ∷ 10 ∷ []
  unfolding sse_frame keepalive_frame
  frame_of-text_of (event name json) = refl
  frame_of-text_of keepalive = refl

-- The client's reader of events: `from_utf8` reads what is UTF-8.
abbrev pub Reads : {V : Type 0} → Decoder (WidgetEvent V) → Json V → Type 0
Reads d j = ((s : Text) → d.from_utf8 (utf8 s) ≡ ok s) × (d.parse_block ≡ parse_widget_sse_block j)

module _ {V : Type 0} (d : Decoder (WidgetEvent V)) (j : Json V) (reads : Reads d j) where
  drain_for-nil : (n : ℕ) → drain_for d n [] ≡ ([], [])
  unfolding drain_for find_blank_line
  drain_for-nil zero = refl
  drain_for-nil (suc n) = refl

  -- One frame is one block, and the block is one event.
  drain_for-frame_of :
      (n : ℕ) (s : Sent)
      → IsPlain s
      → drain_for d (suc n) (utf8 (text_of s) ++ 10 ∷ 10 ∷ []) ≡ (received j s ∷ [], [])
  unfolding drain_for find_blank_line
  drain_for-frame_of n s h =
      let bytes = utf8 (text_of s) in
      let found = find_from-solid 0 bytes [] (text_of-solid j s h) in
      let start : 0 + length bytes ≡ length bytes = omega arith in
      let whole = front_all bytes (10 ∷ 10 ∷ []) in
      let block =
        ap (decoded_block d) (ap d.from_utf8 whole ∙ reads.0 (text_of s))
        ∙ ap parsed_event
            (ap (λ parse. parse (text_of s)) reads.1 ∙ parse_widget_sse_block-text_of j s h) in
      rw (found, start)
        (ap₂ (λ es r. (es ++ r.0, r.1)) block
          (ap (drain_for d n) (drop_all bytes) ∙ drain_for-nil n))

  drain_blocks-frame_of :
      (s : Sent) → IsPlain s → drain_blocks d (frame_of s) ≡ (received j s ∷ [], [])
  drain_blocks-frame_of s h =
      let xs = utf8 (text_of s) ++ 10 ∷ 10 ∷ [] in
      let long = length-append (utf8 (text_of s)) (10 ∷ 10 ∷ []) in
      ap (drain_blocks d) (frame_of-text_of j s)
      ∙ drain_for-enough d (length xs) (suc (length xs)) xs (omega arith) (omega arith)
      ∙ drain_for-frame_of (length xs) s h

  drain_blocks-frames :
      (ss : List Sent) → All IsPlain ss → (drain_blocks d (frames ss)).0 ≡ map (received j) ss
  drain_blocks-frames [] h = ap (λ r. r.0) (drain_for-nil 0)
  drain_blocks-frames (s ∷ ss) (h, hs) =
      let xs = frame_of s in
      let ys = frames ss in
      let k = length (xs ++ ys) in
      let longer = length-append xs ys in
      let both =
        drain_for-append d (length xs) k k xs ys (omega arith) (omega arith) (omega arith) in
      let first = ap (λ r. then_drain d r ys k) (drain_blocks-frame_of s h) in
      let rest = drain_for-enough d k (length ys) ys (omega (arith, longer)) (omega arith) in
      ap (λ r. r.0) (both ∙ first)
      ∙ ap (λ r. received j s ∷ r.0) rest
      ∙ ap (λ es. received j s ∷ es) (drain_blocks-frames ss hs)

  -- However the bytes of a stream are cut on their way, the client reads the events and heartbeats
  -- that the daemon framed, each once and in their order. The name and the JSON of each event stand on
  -- one line and do not begin with white space, and the decoder reads what is UTF-8.
  pub block_stream-frames :
      (ss : List Sent) (chunks : List (List ℕ))
      → All IsPlain ss
      → body_of chunks ≡ frames ss
      → block_stream d (frames_of chunks) ≡ map (received j) ss
  block_stream-frames ss chunks h e =
      (block_stream-body_of d chunks).0
      ∙ ap (λ b. (drain_blocks d b).0) e
      ∙ drain_blocks-frames ss h
