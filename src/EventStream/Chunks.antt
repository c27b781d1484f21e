-- ===== src/EventStream/Chunks.antt =====
-- sse.rs: the events of a stream do not depend on how its bytes are cut into frames.
use super_engine.Prelude.{
  ℕ, zero, suc, ◌+◌, ◌≤◌, ◌<◌, ◌≡◌, refl, sym, ap, ◌∙◌, none, some, List, [], ◌∷◌, ◌++◌, nat_eq,
  length, length-append, Option-cases, inl, inr, arith,
}
use mathlib.Core.List.{append_assoc, append-nil}
use super_engine.EventStream.{
  front, drop, find_from, find_blank_line, Decoder, Frame, bytes, decoded_block, drain_for,
  drain_blocks, stream_from, block_stream,
}

front-append : (n : ℕ) (xs ys : List ℕ) → n ≤ length xs → front n (xs ++ ys) ≡ front n xs
front-append zero xs ys h = refl
front-append (suc n) [] ys h = absurd (omega arith)
front-append (suc n) (x ∷ xs) ys h = ap (λ zs. x ∷ zs) (front-append n xs ys (omega arith))

drop-append : (n : ℕ) (xs ys : List ℕ) → n ≤ length xs → drop n (xs ++ ys) ≡ drop n xs ++ ys
drop-append zero xs ys h = refl
drop-append (suc n) [] ys h = absurd (omega arith)
drop-append (suc n) (x ∷ xs) ys h = drop-append n xs ys (omega arith)

length-drop : (n : ℕ) (xs : List ℕ) → n ≤ length xs → length (drop n xs) + n ≡ length xs
length-drop zero xs h = omega arith
length-drop (suc n) [] h = absurd (omega arith)
length-drop (suc n) (x ∷ xs) h = omega (arith, length-drop n xs (omega arith))

-- A boundary that is found lies in the buffer.
find_from-bounds :
    (i s e : ℕ) (xs : List ℕ)
    → find_from i xs ≡ some (s, e)
    → (s < e) × (e ≤ i + length xs) × (i < e)
find_from-bounds i s e [] h = cc
find_from-bounds i s e (a ∷ []) h = cc
find_from-bounds i s e (a ∷ b ∷ []) h = ground (arith, h)
find_from-bounds i s e (a ∷ b ∷ c ∷ []) h =
    ground (arith, h, find_from-bounds (suc i) s e (b ∷ c ∷ []))
find_from-bounds i s e (a ∷ b ∷ c ∷ d ∷ xs) h =
    ground (arith, h, find_from-bounds (suc i) s e (b ∷ c ∷ d ∷ xs))

find_blank_line-bounds :
    (s e : ℕ) (xs : List ℕ) → find_from 0 xs ≡ some (s, e) → (s < e) × (e ≤ length xs) × (0 < e)
find_blank_line-bounds s e xs h =
    let (less, within, moved) = find_from-bounds 0 s e xs h in (less, omega (arith, within), moved)

-- More bytes do not move a boundary that is found.
find_from-append :
    (i : ℕ) (p : ℕ × ℕ) (xs ys : List ℕ) → find_from i xs ≡ some p → find_from i (xs ++ ys) ≡ some p
find_from-append i p [] ys h = cc
find_from-append i p (a ∷ []) ys h = cc
find_from-append i p (a ∷ b ∷ []) ys h = ground (arith, h)
find_from-append i p (a ∷ b ∷ c ∷ []) ys h = ground (arith, h)
find_from-append i p (a ∷ b ∷ c ∷ d ∷ xs) ys h =
    ground (arith, h, find_from-append (suc i) p (b ∷ c ∷ d ∷ xs) ys)

-- The frames of a body that arrive without an error.
abbrev pub frames_of : List (List ℕ) → List Frame
frames_of [] = []
frames_of (c ∷ cs) = bytes c ∷ frames_of cs

abbrev pub body_of : List (List ℕ) → List ℕ
body_of [] = []
body_of (c ∷ cs) = c ++ body_of cs

module _ {T : Type 0} (d : Decoder T) where
  -- The length of the buffer is fuel enough: more changes nothing.
  pub drain_for-enough :
      (n m : ℕ) (xs : List ℕ) → length xs ≤ n → length xs ≤ m → drain_for d n xs ≡ drain_for d m xs
  unfolding drain_for find_blank_line
  drain_for-enough zero zero xs h k = refl
  drain_for-enough zero (suc m) [] h k = refl
  drain_for-enough zero (suc m) (x ∷ xs) h k = absurd (omega arith)
  drain_for-enough (suc n) zero [] h k = refl
  drain_for-enough (suc n) zero (x ∷ xs) h k = absurd (omega arith)
  drain_for-enough (suc n) (suc m) xs h k = elim (Option-cases (find_from 0 xs)) [
    | inl e ↦ rw e refl
    | inr ((start, end), e) ↦
        let (less, within, moved) = find_blank_line-bounds start end xs e in
        let shorter = length-drop end xs within in
        rw e (
          ap (λ r. (decoded_block d (d.from_utf8 (front start xs)) ++ r.0, r.1))
            (drain_for-enough n m (drop end xs) (omega (arith, shorter)) (omega (arith, shorter))))
  ]

  -- What is drained of a buffer, and then of what is left of it with more bytes behind it.
  abbrev pub then_drain : List T × List ℕ → List ℕ → ℕ → List T × List ℕ
  then_drain (events, rest) ys k =
      (events ++ (drain_for d k (rest ++ ys)).0, (drain_for d k (rest ++ ys)).1)

  pub drain_for-append :
      (n m k : ℕ) (xs ys : List ℕ)
      → length xs ≤ n
      → length (xs ++ ys) ≤ m
      → length (xs ++ ys) ≤ k
      → drain_for d m (xs ++ ys) ≡ then_drain (drain_for d n xs) ys k
  unfolding drain_for find_blank_line
  drain_for-append zero m k xs ys h i j = drain_for-enough m k (xs ++ ys) i j
  drain_for-append (suc n) zero k [] ys h i j = drain_for-enough zero k ys i j
  drain_for-append (suc n) zero k (x ∷ xs) ys h i j = absurd (omega arith)
  drain_for-append (suc n) (suc m) k xs ys h i j = elim (Option-cases (find_from 0 xs)) [
    | inl e ↦ rw e (drain_for-enough (suc m) k (xs ++ ys) i j)
    | inr ((start, end), e) ↦
        let (less, within, moved) = find_blank_line-bounds start end xs e in
        let shorter = length-drop end xs within in
        let whole = drop-append end xs ys within in
        let longer = length-append xs ys in
        let left = length-append (drop end xs) ys in
        let step =
          drain_for-append n m k (drop end xs) ys (omega (arith, shorter))
            (omega (arith, shorter, longer, left)) (omega (arith, shorter, longer, left)) in
        rw
          (
            e,
            find_from-append 0 (start, end) xs ys e,
            front-append start xs ys (omega arith),
            whole,
            step,
          )
          (ap (λ es. (es, (drain_for d k ((drain_for d n (drop end xs)).1 ++ ys)).1))
            (sym (
              append_assoc (decoded_block d (d.from_utf8 (front start xs)))
                (drain_for d n (drop end xs)).0
                (drain_for d k ((drain_for d n (drop end xs)).1 ++ ys)).0)))
  ]

  drain_for-length : (n : ℕ) (xs : List ℕ) → length (drain_for d n xs).1 ≤ length xs
  unfolding drain_for find_blank_line
  drain_for-length zero xs = omega arith
  drain_for-length (suc n) xs = elim (Option-cases (find_from 0 xs)) [
    | inl e ↦ rw e (omega arith)
    | inr ((start, end), e) ↦
        let (less, within, moved) = find_blank_line-bounds start end xs e in
        rw e (omega (arith, length-drop end xs within, drain_for-length n (drop end xs)))
  ]

  drain_for-none : (n : ℕ) (xs : List ℕ) → length xs ≤ n → find_from 0 (drain_for d n xs).1 ≡ none
  unfolding drain_for find_blank_line
  drain_for-none zero [] h = refl
  drain_for-none zero (x ∷ xs) h = absurd (omega arith)
  drain_for-none (suc n) xs h = elim (Option-cases (find_from 0 xs)) [
    | inl e ↦ rw e e
    | inr ((start, end), e) ↦
        let (less, within, moved) = find_blank_line-bounds start end xs e in
        rw e (drain_for-none n (drop end xs) (omega (arith, length-drop end xs within)))
  ]

  drain_for-quiet : (n : ℕ) (xs : List ℕ) → find_from 0 xs ≡ none → drain_for d n xs ≡ ([], xs)
  unfolding drain_for find_blank_line
  drain_for-quiet zero xs e = refl
  drain_for-quiet (suc n) xs e = rw e refl

  stream_from-body_of :
      (buffer : List ℕ) (cs : List (List ℕ))
      → find_from 0 buffer ≡ none
      → stream_from d buffer (frames_of cs) ≡ (drain_blocks d (buffer ++ body_of cs)).0
  stream_from-body_of buffer [] e = sym (
      ap (λ b. (drain_blocks d b).0) (append-nil buffer)
      ∙ ap (λ r. r.0) (drain_for-quiet (length buffer) buffer e))
  stream_from-body_of buffer (c ∷ cs) e =
      let xs = buffer ++ c in
      let ys = body_of cs in
      let left = (drain_blocks d xs).1 in
      let k = length (xs ++ ys) in
      let shorter = drain_for-length (length xs) xs in
      let fits = length-append xs ys in
      let fits_left = length-append left ys in
      let rest = stream_from-body_of left cs (drain_for-none (length xs) xs (omega arith)) in
      let same =
        drain_for-enough (length (left ++ ys)) k (left ++ ys) (omega arith)
          (omega (arith, shorter, fits, fits_left)) in
      let both = drain_for-append (length xs) k k xs ys (omega arith) (omega arith) (omega arith) in
      ap (λ es. (drain_blocks d xs).0 ++ es) (rest ∙ ap (λ r. r.0) same)
      ∙ sym (ap (λ r. r.0) both)
      ∙ ap (λ b. (drain_blocks d b).0) (append_assoc buffer c ys)

  -- The inner loop ends: with the length of the buffer as fuel, or any more, it drains the same events,
  -- and leaves no blank line in the buffer.
  pub drain_for_stops :
      (n : ℕ) (xs : List ℕ)
      → length xs ≤ n
      → (drain_for d n xs ≡ drain_blocks d xs) × (find_blank_line (drain_for d n xs).1 ≡ none)
  unfolding find_blank_line
  drain_for_stops n xs h =
      (drain_for-enough n (length xs) xs h (omega arith), drain_for-none n xs h)

  -- A stream whose body arrives without an error gives the events of its whole body, however the
  -- bytes are cut into frames, and what is left of the body has no complete block.
  pub block_stream-body_of :
      (cs : List (List ℕ))
      → (block_stream d (frames_of cs) ≡ (drain_blocks d (body_of cs)).0)
        × (find_blank_line (drain_blocks d (body_of cs)).1 ≡ none)
  unfolding block_stream find_blank_line
  block_stream-body_of cs = (
    stream_from-body_of [] cs refl,
    drain_for-none (length (body_of cs)) (body_of cs) (omega arith),
  )
