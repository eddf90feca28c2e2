-- ===== src/Call/Frame/Stream.antt =====
-- Reading frames from a stream, however its bytes are cut into reads.
use alknet.Prelude.{
  ℕ, suc, ◌<◌, ◌≡◌, refl, sym, ap, ◌∙◌, none, some, List, [], ◌∷◌, ◌++◌, map, ◌⊎◌, inl, inr, length,
  length-take-le, take, arith, length-append, append_assoc,
}
use alknet.Call.Envelope.{EventEnvelope, JsonCodec, RoundTrips}
use alknet.Call.Frame.{
  Read, bytes, failed, FrameRead, frame, encode, buffered, read_frame, read_frames,
}
use alknet.Call.Frame.Laws.{buffered-encode, buffered-take-encode}

-- The bytes that a stream still delivers: no read fails, and none is empty.
abbrev pub Delivers : List Read → List ℕ → Type 0
Delivers [] rest = rest ≡ []
Delivers (bytes [] ∷ reads) rest = ⊥
Delivers (bytes (b ∷ bs) ∷ reads) rest =
    (later : List ℕ) × (rest ≡ b ∷ bs ++ later) × Delivers reads later
Delivers (_ ∷ reads) rest = ⊥

-- A list that is the front of another list is at least as long as a front, or a proper prefix of it.
splits :
    (xs ys zs rest : List ℕ)
    → xs ++ ys ≡ zs ++ rest
    → ((after : List ℕ) × (xs ≡ zs ++ after) × (after ++ ys ≡ rest))
      ⊎ ((n : ℕ) × (n < length zs) × (xs ≡ take n zs))
splits xs ys [] rest e = inl (xs, refl, e)
splits [] ys (z ∷ zs) rest e = inr (0, omega arith, refl)
splits (x ∷ xs) ys (z ∷ zs) rest e = elim (splits xs ys zs rest (cc e)) [
  | inl (after, front, back) ↦ inl (after, cc, back)
  | inr (n, short, front) ↦ inr (suc n, omega arith, cc)
]

module _ {Value : Type 0} (json : JsonCodec Value) where
  -- The bytes of several frames, one after the other.
  abbrev pub encode_all : List (EventEnvelope Value) → List ℕ
  encode_all [] = []
  encode_all (e ∷ es) = encode json e ++ encode_all es

  abbrev pub Fit : List (EventEnvelope Value) → Type 0
  Fit [] = Unit
  Fit (e ∷ es) = (length (json.to_vec e) < 4294967296) × Fit es

module _ {Value : Type 0} (json : JsonCodec Value) (laws : RoundTrips json) where
  -- The state of a reader: the bytes in its buffer and on their way.
  abbrev Holds : List ℕ → List Read → List ℕ → Type 0
  Holds buf reads rest = (later : List ℕ) × (buf ++ later ≡ rest) × Delivers reads later

  abbrev Framed : EventEnvelope Value → List ℕ → FrameRead Value × (List ℕ × List Read) → Type 0
  Framed e rest (r, (buf, reads)) = (r ≡ frame e) × Holds buf reads rest

  -- The buffer begins with the frame, or holds only a part of it.
  buffered-cases :
      (e : EventEnvelope Value) (rest buf later : List ℕ)
      → length (json.to_vec e) < 4294967296
      → buf ++ later ≡ encode json e ++ rest
      → ((after : List ℕ) × (buffered json buf ≡ some (frame e, after)) × (after ++ later ≡ rest))
        ⊎ ((buffered json buf ≡ none) × (length buf < length (encode json e)))
  buffered-cases e rest buf later h same = elim (splits buf later (encode json e) rest same) [
    | inl (after, front, back) ↦ inl (after, rw front (buffered-encode json laws e after h), back)
    | inr (n, short, front) ↦ inr (
      rw front (buffered-take-encode json laws e n h short),
      rw front (omega (arith, length-take-le n (encode json e))),
    )
  ]

  read_frame-Framed :
      (e : EventEnvelope Value) (rest buf : List ℕ) (reads : List Read) (later : List ℕ)
      → length (json.to_vec e) < 4294967296
      → buf ++ later ≡ encode json e ++ rest
      → Delivers reads later
      → Framed e rest (read_frame json buf reads)
  unfolding read_frame
  read_frame-Framed e rest buf [] later h same d = elim (buffered-cases e rest buf later h same) [
    | inl (after, whole, back) ↦ rw (whole, read_frame) (refl, (later, back, d))
    | inr (part, short) ↦ absurd (
        omega (
          arith,
          ap length same,
          ap length d,
          length-append buf later,
          length-append (encode json e) rest,
        ))
  ]
  read_frame-Framed e rest buf (bytes [] ∷ reads) later h same d = absurd d
  read_frame-Framed e rest buf (bytes (b ∷ bs) ∷ reads) later h same (later', split, d) =
      elim (buffered-cases e rest buf later h same) [
        | inl (after, whole, back) ↦
            rw (whole, read_frame) (refl, (later, back, (later', split, d)))
        | inr (part, short) ↦
            rw (part, read_frame)
              (read_frame-Framed e rest (buf ++ b ∷ bs) reads later' h
                (append_assoc buf (b ∷ bs) later' ∙ ap (λ r. buf ++ r) (sym split) ∙ same) d)
      ]
  read_frame-Framed e rest buf (failed x ∷ reads) later h same d = absurd d

  read_frames-from :
      (es : List (EventEnvelope Value)) (buf : List ℕ) (reads : List Read) (later : List ℕ)
      → Fit json es
      → buf ++ later ≡ encode_all json es
      → Delivers reads later
      → (read_frames json (length es) buf reads).0 ≡ map frame es
  unfolding read_frames
  read_frames-from [] buf reads later fit same d = refl
  read_frames-from (e ∷ es) buf reads later (h, fit) same d =
      let (first, (later', back, d')) =
        read_frame-Framed e (encode_all json es) buf reads later h same d in
      ground (arith, read_frames-from es _ _ later' fit back d')

  -- However the bytes of a sequence of frames are cut into reads, none of them empty or failing,
  -- reading as many frames gives exactly their envelopes, in order, where each body is shorter
  -- than 2 ^ 32 bytes and the JSON codec reads what it writes.
  pub read_frames-encode_all :
      (es : List (EventEnvelope Value)) (reads : List Read)
      → Fit json es
      → Delivers reads (encode_all json es)
      → (read_frames json (length es) [] reads).0 ≡ map frame es
  read_frames-encode_all es reads fit d =
      read_frames-from es [] reads (encode_all json es) fit refl d
