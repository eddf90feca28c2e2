-- ===== src/Interface/RawFraming/Sessions.antt =====
-- Whom the events of a session come from.
use alknet.Prelude.{
  ℕ, zero, suc, Option, none, some, Option-cases, List, [], ◌∷◌, map, length, Text, Result, ok, err,
  ◌≡◌, ◌⊎◌, inl, inr, refl, ap, ◌∙◌,
}
use alknet.Auth.Identity.{Identity, IdentityProvider}
use alknet.Call.Envelope.{EventEnvelope, JsonCodec, RoundTrips}
use alknet.Call.Frame
use alknet.Call.Frame.{Read, FrameRead, frame, closed, invalid_data, read_failed, read_frames}
use alknet.Call.Frame.Stream.{Fit, encode_all, Delivers, read_frames-encode_all}
use alknet.Interface.RawFraming.{
  SessionError, closed_while_reading, not_authenticated, io_error, json_decode_error, AuthState,
  pending, failed_auth, authenticated, InterfaceEvent, RawFramingSession, new_session,
  with_identity, read_frame, token_of, logged_in, received, recv, recvs,
}
use alknet.Interface.RawFraming.Reading.{Agree, read_frame-Agree}

-- Each event that is there is this party's.
abbrev pub AllFrom : {Value : Type 0} → Identity → List (Option (InterfaceEvent Value)) → Type 0
AllFrom identity [] = Unit
AllFrom identity (none ∷ events) = AllFrom identity events
AllFrom identity (some event ∷ events) = (event.identity ≡ some identity) × AllFrom identity events

abbrev pub AllNone : {Value : Type 0} → List (Option (InterfaceEvent Value)) → Type 0
AllNone [] = Unit
AllNone (none ∷ events) = AllNone events
AllNone (some event ∷ events) = ⊥

module _ {Value : Type 0} (json : JsonCodec Value) (as_str : Value → Option Text)
    (provider : IdentityProvider) where
  abbrev recvs_of : ℕ → RawFramingSession → List (Option (InterfaceEvent Value)) × RawFramingSession
  recvs_of n s = recvs json as_str provider n s

  abbrev at : AuthState → List ℕ × List Read → List ℕ → RawFramingSession
  at state (buf, reads) written = record {
    auth_state = state;
    read_buf = buf;
    reads = reads;
    written = written;
  }

  recvs-failed :
      (n : ℕ) (rest : List ℕ × List Read) (written : List ℕ)
      → AllNone (recvs_of n (at failed_auth rest written)).0
  unfolding recvs recv
  recvs-failed zero rest written = tt
  recvs-failed (suc n) rest written = recvs-failed n rest written

  abbrev then_recvs :
      ℕ → Option (InterfaceEvent Value) × RawFramingSession → List (Option (InterfaceEvent Value))
  then_recvs n (event, s) = event ∷ (recvs_of n s).0

  recvs-authenticated :
      (identity : Identity) (n : ℕ) (rest : List ℕ × List Read) (written : List ℕ)
      → AllFrom identity (recvs_of n (at (authenticated identity) rest written)).0
  unfolding recvs recv
  recvs-authenticated identity zero rest written = tt
  recvs-authenticated identity (suc n) (buf, reads) written =
      let (outcome, rest') = read_frame json buf reads in
      next outcome rest' (recvs-authenticated identity n rest' written)
    where
      next :
          (outcome : Result (EventEnvelope Value) SessionError) (rest' : List ℕ × List Read)
          → AllFrom identity (recvs_of n (at (authenticated identity) rest' written)).0
          → AllFrom identity (
              then_recvs n (
                received json as_str provider
                  (authenticated identity)
                  outcome
                  (at (authenticated identity) rest' written)))
      next (ok e) rest' later = (refl, later)
      next (err e) rest' later = later

  abbrev pub OneIdentity :
      Result (EventEnvelope Value) SessionError → List (Option (InterfaceEvent Value)) → Type 0
  OneIdentity first events =
      ((identity : Identity) × (e : EventEnvelope Value) × (first ≡ ok e)
        × (provider.resolve_from_token (token_of json as_str provider e) ≡ some identity)
        × AllFrom identity events)
      ⊎ AllNone events

  first_of :
      (n : ℕ) (outcome : Result (EventEnvelope Value) SessionError) (rest : List ℕ × List Read)
      → OneIdentity outcome
          (then_recvs n (received json as_str provider pending outcome (at pending rest [])))
  first_of n (err e) rest = inr (recvs-failed n rest [])
  first_of n (ok e) rest =
      elim (Option-cases (provider.resolve_from_token (token_of json as_str provider e))) [
        | inl unknown ↦ inr (rw unknown (recvs-failed n rest []))
        | inr (identity, known) ↦
            inl (identity, e, refl, known, rw known (refl, recvs-authenticated identity n rest []))
      ]

  -- All the events that a session ever gives are those of one party, the one that the provider knows
  -- by the token in the first frame; without such a frame there is no event at all.
  pub recvs-OneIdentity :
      (n : ℕ) (reads : List Read)
      → OneIdentity (read_frame json [] reads).0 (recvs_of n (new_session reads)).0
  unfolding recvs recv
  recvs-OneIdentity zero reads = inr tt
  recvs-OneIdentity (suc n) reads =
      let (outcome, rest) = read_frame json [] reads in first_of n outcome rest

  abbrev pub events_from :
      Identity → List (EventEnvelope Value) → List (Option (InterfaceEvent Value))
  events_from identity es = map (λ e. some (with_identity e identity)) es

  frame_injective :
      {x y : EventEnvelope Value} → ◌≡◌ {A = FrameRead Value} (frame x) (frame y) → x ≡ y
  frame_injective h = cc

  first_event :
      (identity : Identity) (e : EventEnvelope Value) (n : ℕ) (written : List ℕ)
      (raw : Result (EventEnvelope Value) SessionError × (List ℕ × List Read))
      (rest : List ℕ × List Read)
      → raw ≡ (ok e, rest)
      → then_recvs n (
          received json as_str provider
            (authenticated identity)
            raw.0
            (at (authenticated identity) raw.1 written))
        ≡ some (with_identity e identity)
          ∷ (recvs_of n (at (authenticated identity) rest written)).0
  first_event identity e n written raw rest same =
      ap
        (λ (r : Result (EventEnvelope Value) SessionError × (List ℕ × List Read)). then_recvs n (
          received json as_str provider (authenticated identity) r.0
            (at (authenticated identity) r.1 written)))
        same

  -- A frame that the framed reader reads is read by the session too, with the same rest.
  reads_frame :
      (e : EventEnvelope Value)
      (raw : Result (EventEnvelope Value) SessionError × (List ℕ × List Read))
      (framed : FrameRead Value × (List ℕ × List Read))
      → Agree raw framed
      → framed.0 ≡ frame e
      → raw ≡ (ok e, framed.1)
  reads_frame e (ok e', rest) (frame x, rest') (same, left_same) h =
      ap (λ r. (ok e', r)) left_same ∙ ap (λ x. (ok x, rest')) (same ∙ frame_injective h)
  reads_frame e (err closed_while_reading, rest) (frame y, rest') agree h = absurd agree
  reads_frame e (err not_authenticated, rest) (frame y, rest') agree h = absurd agree
  reads_frame e (err (io_error x), rest) (frame y, rest') agree h = absurd agree
  reads_frame e (err (json_decode_error x), rest) (frame y, rest') agree h = absurd agree
  reads_frame e raw (closed, rest') agree h = cc
  reads_frame e raw (invalid_data x, rest') agree h = cc
  reads_frame e raw (read_failed x, rest') agree h = cc

  recvs-frames :
      (identity : Identity) (es : List (EventEnvelope Value)) (buf : List ℕ) (reads : List Read)
      (written : List ℕ)
      → (read_frames json (length es) buf reads).0 ≡ map frame es
      → (recvs_of (length es) (at (authenticated identity) (buf, reads) written)).0
        ≡ events_from identity es
  unfolding recvs recv read_frames
  recvs-frames identity [] buf reads written h = refl
  recvs-frames identity (e ∷ es) buf reads written h =
      let (framed, rest) = Frame.read_frame json buf reads in
      let same =
        reads_frame e (read_frame json buf reads) (framed, rest) (read_frame-Agree json buf reads)
          (cc) in
      first_event identity e (length es) written (read_frame json buf reads) rest same
      ∙ ap (λ events. some (with_identity e identity) ∷ events)
          (recvs-frames identity es rest.0 rest.1 written (cc))

  login_event :
      (identity : Identity) (e : EventEnvelope Value) (n : ℕ)
      (raw : Result (EventEnvelope Value) SessionError × (List ℕ × List Read))
      (rest : List ℕ × List Read)
      → raw ≡ (ok e, rest)
      → provider.resolve_from_token (token_of json as_str provider e) ≡ some identity
      → then_recvs n (received json as_str provider pending raw.0 (at pending raw.1 []))
        ≡ some (with_identity e identity) ∷ (recvs_of n (at (authenticated identity) rest [])).0
  login_event identity e n raw rest same known =
      ap
        (λ (r : Result (EventEnvelope Value) SessionError × (List ℕ × List Read)).
          then_recvs n (received json as_str provider pending r.0 (at pending r.1 [])))
        same
      ∙ ap (λ found. then_recvs n (logged_in json as_str provider found e (at pending rest [])))
          known

-- However the bytes of frames are cut into reads, none of them empty or failing, as many calls of
-- `recv` give their envelopes in order, all with the identity that the provider knows by the token in
-- the first, where each body is shorter than 2 ^ 32 bytes and the JSON codec reads what it writes.
pub recvs-encode_all :
    {Value : Type 0} (json : JsonCodec Value) (laws : RoundTrips json)
    (as_str : Value → Option Text) (provider : IdentityProvider) (e : EventEnvelope Value)
    (es : List (EventEnvelope Value)) (reads : List Read) (identity : Identity)
    → Fit json (e ∷ es)
    → Delivers reads (encode_all json (e ∷ es))
    → provider.resolve_from_token (token_of json as_str provider e) ≡ some identity
    → (recvs json as_str provider (length (e ∷ es)) (new_session reads)).0
      ≡ map (λ x. some (with_identity x identity)) (e ∷ es)
unfolding recvs recv read_frames
recvs-encode_all json laws as_str provider e es reads identity fit delivers known =
    let framed = Frame.read_frame json [] reads in
    let h = read_frames-encode_all json laws (e ∷ es) reads fit delivers in
    let same =
      reads_frame json as_str provider e (read_frame json [] reads) framed
        (read_frame-Agree json [] reads) (cc) in
    login_event json as_str provider identity e (length es) (read_frame json [] reads) framed.1 same
      known
    ∙ ap (λ events. some (with_identity e identity) ∷ events)
        (recvs-frames json as_str provider identity es framed.1.0 framed.1.1 [] (cc))
