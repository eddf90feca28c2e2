-- ===== src/Call/Frame/Laws.antt =====
-- Decoding one frame.
use alknet.Prelude.{
  ℕ, zero, suc, ◌+◌, ◌<◌, ◌≤◌, ◌≡◌, refl, ap, none, some, List, [], ◌∷◌, ◌++◌, ◌⊎◌, ok, err, length,
  take, drop, arith, length-append, take_of_append, drop_of_append, length-take,
}
use alknet.Prelude.BigEndian.{u32_of-u32_bytes}
use alknet.Call.Envelope.{EventEnvelope, JsonCodec, RoundTrips}
use alknet.Call.Frame.{
  too_short, incomplete, frame, frame_len, encode, decode, decode_with_remainder, buffered,
}

take_all : (xs : List ℕ) → take (length xs) xs ≡ xs
take_all [] = refl
take_all (x ∷ xs) = ap (◌∷◌ x) (take_all xs)

module _ {Value : Type 0} (json : JsonCodec Value) (laws : RoundTrips json) where
  open json use {to_vec, from_slice}

  pub length-encode : (e : EventEnvelope Value) → length (encode json e) ≡ 4 + length (to_vec e)
  unfolding encode
  length-encode e = omega arith

  frame_len-encode :
      (e : EventEnvelope Value) (rest : List ℕ)
      → length (to_vec e) < 4294967296
      → frame_len (encode json e ++ rest) ≡ length (to_vec e)
  unfolding encode
  frame_len-encode e rest h = u32_of-u32_bytes (length (to_vec e)) h

  body-encode :
      (e : EventEnvelope Value) (rest : List ℕ)
      → take (length (to_vec e)) (drop 4 (encode json e ++ rest)) ≡ to_vec e
  unfolding encode
  body-encode e rest = take_of_append (length (to_vec e)) (to_vec e) rest refl

  frame_len_alone :
      (e : EventEnvelope Value)
      → length (to_vec e) < 4294967296
      → frame_len (encode json e) ≡ length (to_vec e)
  unfolding encode
  frame_len_alone e h = u32_of-u32_bytes (length (to_vec e)) h

  body_alone :
      (e : EventEnvelope Value) → take (length (to_vec e)) (drop 4 (encode json e)) ≡ to_vec e
  unfolding encode
  body_alone e = take_all (to_vec e)

  frame_len-take-encode :
      (e : EventEnvelope Value) (n : ℕ)
      → length (to_vec e) < 4294967296
      → 4 ≤ n
      → frame_len (take n (encode json e)) ≡ length (to_vec e)
  unfolding encode
  frame_len-take-encode e (suc (suc (suc (suc m)))) h k = u32_of-u32_bytes (length (to_vec e)) h
  frame_len-take-encode e zero h k = absurd (omega arith)
  frame_len-take-encode e (suc zero) h k = absurd (omega arith)
  frame_len-take-encode e (suc (suc zero)) h k = absurd (omega arith)
  frame_len-take-encode e (suc (suc (suc zero))) h k = absurd (omega arith)

  -- A frame with anything behind it decodes to its envelope and its own length, and a frame alone
  -- decodes to its envelope, where the body is shorter than 2 ^ 32 bytes and the JSON codec
  -- reads what it writes.
  pub decode-encode :
      (e : EventEnvelope Value) (rest : List ℕ)
      → length (to_vec e) < 4294967296
      → (decode_with_remainder json (encode json e ++ rest) ≡ ok (e, length (encode json e)))
        × (decode json (encode json e) ≡ ok e)
  unfolding decode decode_with_remainder
  decode-encode e rest h = (
    ground (
      arith,
      length-append (encode json e) rest,
      length-encode e,
      frame_len-encode e rest h,
      body-encode e rest,
      laws.from_slice-to_vec e,
    ),
    ground (arith, length-encode e, frame_len_alone e h, body_alone e, laws.from_slice-to_vec e),
  )

  -- Every proper prefix of a frame is reported as too short or incomplete, with its own length,
  -- where the body is shorter than 2 ^ 32 bytes.
  pub decode-take-encode :
      (e : EventEnvelope Value) (n : ℕ)
      → length (to_vec e) < 4294967296
      → n < length (encode json e)
      → (decode json (take n (encode json e)) ≡ err (too_short 4 n))
        ⊎ (decode json (take n (encode json e)) ≡ err (incomplete (length (encode json e)) n))
  unfolding decode
  decode-take-encode e n h k =
      ground (arith, length-take n (encode json e), length-encode e, frame_len-take-encode e n h)

  -- A buffer that begins with a frame gives it and keeps what follows.
  pub buffered-encode :
      (e : EventEnvelope Value) (rest : List ℕ)
      → length (to_vec e) < 4294967296
      → buffered json (encode json e ++ rest) ≡ some (frame e, rest)
  unfolding buffered
  buffered-encode e rest h = ground (
    arith,
    length-append (encode json e) rest,
    length-encode e,
    frame_len-encode e rest h,
    body-encode e rest,
    drop_of_append (length (encode json e)) (encode json e) rest refl,
    laws.from_slice-to_vec e,
  )

  -- A buffer that holds only a proper prefix of a frame gives nothing yet.
  pub buffered-take-encode :
      (e : EventEnvelope Value) (n : ℕ)
      → length (to_vec e) < 4294967296
      → n < length (encode json e)
      → buffered json (take n (encode json e)) ≡ none
  unfolding buffered
  buffered-take-encode e n h k =
      ground (arith, length-take n (encode json e), length-encode e, frame_len-take-encode e n h)
