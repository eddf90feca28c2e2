-- ===== src/Interface/RawFraming/Reading.antt =====
-- `RawFramingSession::read_frame` and `FrameFramedReader::read_frame` of call/frame.rs read the same
-- frames.
use alknet.Prelude.{
  ℕ, ◌+◌, Bool-cases, ltb, Option, none, some, List, [], ◌∷◌, ◌++◌, Text, Result, ok, err, ◌>>=◌,
  map_err, length, take, drop, ◌≡◌, ◌⊎◌, inl, inr, refl, arith,
}
use alknet.Call.Envelope.{EventEnvelope, JsonCodec}
use alknet.Call.Frame
use alknet.Call.Frame.{
  Read, bytes, failed, FrameDecodeError, too_short, incomplete, json_error, FrameRead, frame,
  closed, invalid_data, read_failed, frame_len, decode_with_remainder, buffered, parsed,
}
use alknet.Interface.RawFraming.{
  SessionError, closed_while_reading, io_error, json_decode_error, decoded, read_frame,
}

module _ {Value : Type 0} where
  -- What the two readers return is the same, and after a frame they have the same left to read.
  abbrev pub Agree :
      Result (EventEnvelope Value) SessionError × (List ℕ × List Read)
      → FrameRead Value × (List ℕ × List Read)
      → Type 0
  Agree (ok e, rest) (frame e', rest') = (e ≡ e') × (rest ≡ rest')
  Agree (err closed_while_reading, _) (closed, _) = Unit
  Agree (err (json_decode_error e), _) (invalid_data e', _) = e ≡ e'
  Agree (err (io_error e), _) (read_failed e', _) = e ≡ e'
  Agree _ _ = ⊥

module _ {Value : Type 0} (json : JsonCodec Value) where
  abbrev Waits : List ℕ → Type 0
  Waits buf =
      ((need : ℕ) × (have : ℕ) × (decode_with_remainder json buf ≡ err (too_short need have)))
      ⊎ ((need : ℕ) × (have : ℕ) × (decode_with_remainder json buf ≡ err (incomplete need have)))

  abbrev Found : List ℕ → Type 0
  Found buf =
      (r : Result (EventEnvelope Value) Text) × (n : ℕ) × (decode_with_remainder json buf
        ≡ (map_err json_error r >>= λ e. ok (e, n)))
      × (buffered json buf ≡ some (parsed json r, drop n buf))

  decode-cases : (buf : List ℕ) → (Waits buf × (buffered json buf ≡ none)) ⊎ Found buf
  unfolding decode_with_remainder buffered
  decode-cases buf = elim (Bool-cases (ltb (length buf) 4)) [
    | inl short ↦ inl (inl (4, length buf, ground arith), ground arith)
    | inr enough ↦ elim (Bool-cases (ltb (length buf) (4 + frame_len buf))) [
      | inl part ↦ inl (inr (4 + frame_len buf, length buf, ground arith), ground arith)
      | inr whole ↦ inr (
        json.from_slice (take (frame_len buf) (drop 4 buf)),
        4 + frame_len buf,
        ground arith,
        ground arith,
      )
    ]
  ]

  abbrev or_else :
      Option (FrameRead Value × List ℕ)
      → List Read
      → FrameRead Value × (List ℕ × List Read)
      → FrameRead Value × (List ℕ × List Read)
  or_else o reads more = elim o [ some (r, rest) ↦ (r, (rest, reads)) | none ↦ more ]

  found-Agree :
      (r : Result (EventEnvelope Value) Text) (n : ℕ) (buf : List ℕ) (reads : List Read)
      (more : Result (EventEnvelope Value) SessionError × (List ℕ × List Read))
      (more' : FrameRead Value × (List ℕ × List Read))
      → Agree
          (decoded (map_err json_error r >>= λ e. ok (e, n)) buf reads more)
          (or_else (some (parsed json r, drop n buf)) reads more')
  found-Agree (ok e) n buf reads more more' = (refl, refl)
  found-Agree (err e) n buf reads more more' = refl

  decoded-Agree :
      (buf : List ℕ) (reads : List Read)
      (more : Result (EventEnvelope Value) SessionError × (List ℕ × List Read))
      (more' : FrameRead Value × (List ℕ × List Read))
      → Agree more more'
      → Agree
          (decoded (decode_with_remainder json buf) buf reads more)
          (or_else (buffered json buf) reads more')
  decoded-Agree buf reads more more' same = elim (decode-cases buf) [
    | inl (inl (need, have, e), none_yet) ↦ rw (e, none_yet) same
    | inl (inr (need, have, e), none_yet) ↦ rw (e, none_yet) same
    | inr (r, n, e, there) ↦ rw (e, there) (found-Agree r n buf reads more more')
  ]

  -- From any buffer and any reads, a session and the framed reader come to the same: the same frame
  -- with the same bytes and reads left, the same JSON error, the same error of the stream, or its
  -- end.
  pub read_frame-Agree :
      (buf : List ℕ) (reads : List Read)
      → Agree (read_frame json buf reads) (Frame.read_frame json buf reads)
  unfolding read_frame Frame.read_frame
  read_frame-Agree buf [] = decoded-Agree buf [] _ _ tt
  read_frame-Agree buf (bytes [] ∷ reads) = decoded-Agree buf (bytes [] ∷ reads) _ _ tt
  read_frame-Agree buf (bytes (b ∷ bs) ∷ reads) =
      decoded-Agree buf (bytes (b ∷ bs) ∷ reads) _ _ (read_frame-Agree (buf ++ b ∷ bs) reads)
  read_frame-Agree buf (failed e ∷ reads) = decoded-Agree buf (failed e ∷ reads) _ _ refl
