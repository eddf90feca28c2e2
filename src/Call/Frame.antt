-- ===== src/Call/Frame.antt =====
-- crates/alknet-core/src/call/frame.rs: frames of a four-byte length and a JSON body. A stream is the
-- list of what its successive `read` calls give; at the end of the list it is closed.
pub mod Laws
pub mod Stream
use alknet.Prelude.{
  ℕ, zero, suc, ◌+◌, Bool, true, false, Option, none, some, List, [], ◌∷◌, ◌++◌, Text, Result, ok,
  err, ◌>>=◌, map_err, length, take, drop, ltb, leb, if◌then◌else◌,
}
use alknet.Prelude.BigEndian.{u32_bytes, u32_of}
use alknet.Call.Envelope.{EventEnvelope, JsonCodec}

pub data FrameDecodeError : Type 0 where
  too_short incomplete : ℕ → ℕ → FrameDecodeError
  json_error : Text → FrameDecodeError

-- What one `read` gives: bytes, at most as many as the buffer holds, or an error.
pub data Read : Type 0 where
  bytes : List ℕ → Read
  failed : Text → Read

-- What `read_frame` returns: `Ok(Some(_))`, `Ok(None)`, or an error.
pub data FrameRead (Value : Type 0) : Type 0 where
  frame : EventEnvelope Value → FrameRead Value
  closed : FrameRead Value
  invalid_data read_failed : Text → FrameRead Value

-- The `u32::from_be_bytes` of the first four bytes; the callers have checked that there are four.
abbrev pub frame_len : List ℕ → ℕ
frame_len (a ∷ b ∷ c ∷ d ∷ _) = u32_of a b c d
frame_len _ = 0

module _ {Value : Type 0} (json : JsonCodec Value) where
  open json use {to_vec, from_slice}

  unfoldable pub encode : EventEnvelope Value → List ℕ
  encode envelope = let body = to_vec envelope in u32_bytes (length body) ++ body

  unfoldable pub decode : List ℕ → Result (EventEnvelope Value) FrameDecodeError
  decode input =
      if ltb (length input) 4
      then err (too_short 4 (length input))
      else (let len = frame_len input in
          if ltb (length input) (4 + len)
          then err (incomplete (4 + len) (length input))
          else map_err json_error (from_slice (take len (drop 4 input))))

  unfoldable pub decode_with_remainder : List ℕ → Result (EventEnvelope Value × ℕ) FrameDecodeError
  decode_with_remainder input =
      if ltb (length input) 4
      then err (too_short 4 (length input))
      else (let total = 4 + frame_len input in
          if ltb (length input) total
          then err (incomplete total (length input))
          else (map_err json_error (from_slice (take (frame_len input) (drop 4 input)))
              >>= λ envelope. ok (envelope, total)))

  abbrev pub parsed : Result (EventEnvelope Value) Text → FrameRead Value
  parsed (ok envelope) = frame envelope
  parsed (err e) = invalid_data e

  -- The frame at the front of the buffer, where it is complete, with the bytes that follow it.
  unfoldable pub buffered : List ℕ → Option (FrameRead Value × List ℕ)
  buffered buf =
      if leb 4 (length buf)
      then (let total = 4 + frame_len buf in
          if leb total (length buf)
          then some (parsed (from_slice (take (frame_len buf) (drop 4 buf))), drop total buf)
          else none)
      else none

  -- `FrameFramedReader::read_frame`, with the buffer and the reads that it leaves.
  unfoldable pub read_frame : List ℕ → List Read → FrameRead Value × (List ℕ × List Read)
  unfolding buffered
  read_frame buf [] = elim (buffered buf) [
    | some (r, rest) ↦ (r, (rest, []))
    | none ↦ (closed, (buf, []))
  ]
  read_frame buf (bytes [] ∷ reads) = elim (buffered buf) [
    | some (r, rest) ↦ (r, (rest, bytes [] ∷ reads))
    | none ↦ (closed, (buf, reads))
  ]
  read_frame buf (bytes (b ∷ bs) ∷ reads) =
      let next = read_frame (buf ++ b ∷ bs) reads in
      elim (buffered buf) [ some (r, rest) ↦ (r, (rest, bytes (b ∷ bs) ∷ reads)) | none ↦ next ]
  read_frame buf (failed e ∷ reads) = elim (buffered buf) [
    | some (r, rest) ↦ (r, (rest, failed e ∷ reads))
    | none ↦ (read_failed e, (buf, reads))
  ]

  -- Successive calls of `read_frame`.
  unfoldable pub read_frames :
      ℕ → List ℕ → List Read → List (FrameRead Value) × (List ℕ × List Read)
  unfolding read_frame
  read_frames zero buf reads = ([], (buf, reads))
  read_frames (suc n) buf reads =
      let (r, (buf', reads')) = read_frame buf reads in
      let (rs, after) = read_frames n buf' reads' in (r ∷ rs, after)
