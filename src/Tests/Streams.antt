-- ===== src/Tests/Streams.antt =====
-- What a widget reads of a stream that the daemon sends, with a reader of UTF-8.
use super_engine.Prelude.{
  ℕ, zero, suc, ◌+◌, ◌*◌, ◌-◌, ◌/◌, ◌%◌, ◌≡◌, refl, ap, ◌∙◌, some, List, [], ◌∷◌, ◌++◌, Text, text,
  ok, map, if◌then◌else◌, ltb, ◌==◌, nat_eq, Bool-cases, inl, inr, utf8, utf8_of, is_whitespace,
  arith,
}
use super_engine.EventStream.{Decoder, block_stream}
use super_engine.EventStream.Fields.{Json, WidgetEvent, parse_widget_sse_block}
use super_engine.EventStream.Chunks.{frames_of}
use super_engine.Events.{sse_frame, keepalive_frame}
use super_engine.Events.Arrive.{Sent, event, keepalive, received, block_stream-frames}

-- A reader of UTF-8: the code point so far, and how many bytes of it are to come.
abbrev pending : ℕ → ℕ → ℕ
pending zero b = if ltb b 128 then 0 else if ltb b 224 then 1 else if ltb b 240 then 2 else 3
pending (suc n) b = n

abbrev so_far : ℕ → ℕ → ℕ → ℕ
so_far zero acc b =
    if ltb b 128 then b else if ltb b 224 then b - 192 else if ltb b 240 then b - 224 else b - 240
so_far (suc n) acc b = acc * 64 + (b - 128)

abbrev read : ℕ → ℕ → List ℕ → Text
read n acc [] = []
read n acc (b ∷ bytes) =
    let rest = read (pending n b) (if pending n b == 0 then 0 else so_far n acc b) bytes in
    if pending n b == 0 then so_far n acc b ∷ rest else rest

read_step :
    (n acc b : ℕ) (bytes : List ℕ) (k v : ℕ)
    → pending n b ≡ k
    → so_far n acc b ≡ v
    → read n acc (b ∷ bytes) ≡ (
        if k == 0
        then v ∷ read k (if k == 0 then 0 else v) bytes
        else read k (if k == 0 then 0 else v) bytes)
read_step n acc b bytes k v e f =
    ap
      (λ m.
        if m == 0
        then so_far n acc b ∷ read m (if m == 0 then 0 else so_far n acc b) bytes
        else read m (if m == 0 then 0 else so_far n acc b) bytes)
      e
    ∙ ap
        (λ w.
          if k == 0
          then w ∷ read k (if k == 0 then 0 else w) bytes
          else read k (if k == 0 then 0 else w) bytes)
        f

read_char : (c : ℕ) (rest : List ℕ) → read 0 0 (utf8_of c ++ rest) ≡ c ∷ read 0 0 rest
unfolding utf8_of
read_char c rest = elim (Bool-cases (ltb c 128)) [
  | inl e ↦ rw e (read_step 0 0 c rest 0 c (ground (arith, e)) (ground (arith, e)))
  | inr e ↦ elim (Bool-cases (ltb c 2048)) [
    | inl f ↦
        rw (e, f)
          (read_step 0 0 (192 + c / 64) ((128 + c % 64) ∷ rest) 1 (c / 64) (ground (arith, e, f))
              (ground (arith, e, f))
            ∙ read_step 1 (c / 64) (128 + c % 64) rest 0 c refl (omega arith))
    | inr f ↦ elim (Bool-cases (ltb c 65536)) [
      | inl g ↦
          rw (e, f, g)
            (read_step 0 0 (224 + c / 4096) ((128 + c / 64 % 64) ∷ (128 + c % 64) ∷ rest) 2
                (c / 4096) (ground (arith, e, f, g)) (ground (arith, e, f, g))
              ∙ read_step 2 (c / 4096) (128 + c / 64 % 64) ((128 + c % 64) ∷ rest) 1 (c / 64) refl
                  (omega arith)
              ∙ read_step 1 (c / 64) (128 + c % 64) rest 0 c refl (omega arith))
      | inr g ↦
          rw (e, f, g)
            (read_step 0 0 (240 + c / 262144)
                ((128 + c / 4096 % 64) ∷ (128 + c / 64 % 64) ∷ (128 + c % 64) ∷ rest) 3 (c / 262144)
                (ground (arith, e, f, g)) (ground (arith, e, f, g))
              ∙ read_step 3 (c / 262144) (128 + c / 4096 % 64)
                  ((128 + c / 64 % 64) ∷ (128 + c % 64) ∷ rest) 2 (c / 4096) refl (omega arith)
              ∙ read_step 2 (c / 4096) (128 + c / 64 % 64) ((128 + c % 64) ∷ rest) 1 (c / 64) refl
                  (omega arith)
              ∙ read_step 1 (c / 64) (128 + c % 64) rest 0 c refl (omega arith))
    ]
  ]
]

read-utf8 : (s : Text) → read 0 0 (utf8 s) ≡ s
unfolding utf8
read-utf8 [] = refl
read-utf8 (c ∷ s) = read_char c (utf8 s) ∙ ap (λ t. c ∷ t) (read-utf8 s)

-- JSON as its own text.
abbrev plain : Json Text
plain = record { from_str = λ s. some s; null = text "null" }

abbrev reader : Decoder (WidgetEvent Text)
reader = record {
  from_utf8 = λ bytes. ok (read 0 0 bytes);
  parse_block = parse_widget_sse_block plain;
  on_error = λ e. record { name = text "error"; payload = e };
}

abbrev sent : List Sent
sent = event (text "é") (text "{\"n\":1}") ∷ keepalive ∷ []

-- The second byte of `é` comes with the second chunk.
abbrev chunks : List (List ℕ)
chunks =
    (101 ∷ 118 ∷ 101 ∷ 110 ∷ 116 ∷ 58 ∷ 32 ∷ 195 ∷ [])
    ∷ (169 ∷ 10 ∷ utf8 (text "data: {\"n\":1}") ++ 10 ∷ 10 ∷ [])
    ∷ keepalive_frame
    ∷ []

block_stream-frames_example : block_stream reader (frames_of chunks) ≡ map (received plain) sent
unfolding sse_frame keepalive_frame utf8 utf8_of is_whitespace
block_stream-frames_example =
    block_stream-frames reader plain ((λ s. ap (λ t. ok t) (read-utf8 s)), refl) sent chunks
      (ground arith) refl
