-- ===== src/Interface/RawFraming.antt =====
-- crates/alknet-core/src/interface/raw_framing.rs: call frames directly on a stream, where the first
-- frame carries the token of the peer. A stream is the list of what its reads give.
pub mod Reading
pub mod Sessions
use alknet.Prelude.{
  ℕ, zero, suc, Bool, true, false, Option, none, some, List, [], ◌∷◌, ◌++◌, Text, text, Result, ok,
  err, ◌>>=◌, drop,
}
use alknet.Auth.Identity.{Identity, IdentityProvider}
use alknet.Call.Envelope.{EventEnvelope, JsonCodec}
use alknet.Call.Frame.{
  Read, bytes, failed, FrameDecodeError, too_short, incomplete, json_error, encode,
  decode_with_remainder,
}

-- The errors of `read_frame` and `send`.
pub data SessionError : Type 0 where
  closed_while_reading not_authenticated : SessionError
  io_error json_decode_error : Text → SessionError

pub data AuthState : Type 0 where
  pending failed_auth : AuthState
  authenticated : Identity → AuthState

-- `InterfaceEvent` of session.rs
pub record InterfaceEvent (Value : Type 0) : Type 0 where
  pub envelope : EventEnvelope Value
  pub identity : Option Identity

-- A session: the state of its login, the bytes read and not yet used, the reads to come, and the
-- bytes written and flushed.
pub record RawFramingSession : Type 0 where
  pub auth_state : AuthState
  pub read_buf : List ℕ
  pub reads : List Read
  pub written : List ℕ

abbrev pub new_session : List Read → RawFramingSession
new_session reads = record { auth_state = pending; read_buf = []; reads = reads; written = [] }

module _ {Value : Type 0} where
  -- `InterfaceEvent::with_identity`
  abbrev pub with_identity : EventEnvelope Value → Identity → InterfaceEvent Value
  with_identity envelope identity = record { envelope = envelope; identity = some identity }

  -- A turn of the loop of `read_frame`: what the decoder found in the buffer decides, and `more` is
  -- what the loop comes to when it must read.
  abbrev pub decoded :
      Result (EventEnvelope Value × ℕ) FrameDecodeError
      → List ℕ
      → List Read
      → Result (EventEnvelope Value) SessionError × (List ℕ × List Read)
      → Result (EventEnvelope Value) SessionError × (List ℕ × List Read)
  decoded (ok (envelope, consumed)) buf reads more = (ok envelope, (drop consumed buf, reads))
  decoded (err (json_error e)) buf reads more = (err (json_decode_error e), (buf, reads))
  decoded (err (too_short _ _)) buf reads more = more
  decoded (err (incomplete _ _)) buf reads more = more

module _ {Value : Type 0} (json : JsonCodec Value) where
  unfoldable pub read_frame :
      List ℕ → List Read → Result (EventEnvelope Value) SessionError × (List ℕ × List Read)
  unfolding decode_with_remainder
  read_frame buf [] =
      decoded (decode_with_remainder json buf) buf [] (err closed_while_reading, (buf, []))
  read_frame buf (bytes [] ∷ reads) =
      decoded (decode_with_remainder json buf) buf (bytes [] ∷ reads)
        (err closed_while_reading, (buf, reads))
  read_frame buf (bytes (b ∷ bs) ∷ reads) =
      decoded (decode_with_remainder json buf) buf (bytes (b ∷ bs) ∷ reads)
        (read_frame (buf ++ b ∷ bs) reads)
  read_frame buf (failed e ∷ reads) =
      decoded (decode_with_remainder json buf) buf (failed e ∷ reads)
        (err (io_error e), (buf, reads))

  -- `send`, with the error of the writer, where it has one.
  unfoldable pub send :
      RawFramingSession
      → EventEnvelope Value
      → Option Text
      → Result (Unit {0}) SessionError × RawFramingSession
  unfolding encode
  send s envelope fault = elim s.auth_state [
    | failed_auth ↦ (err not_authenticated, s)
    | _ ↦ elim fault [
      | some e ↦ (err (io_error e), s)
      | none ↦ (ok tt, record s { written = s.written ++ encode json envelope })
    ]
  ]

  -- The session with what a read has left.
  abbrev pub left : RawFramingSession → List ℕ × List Read → RawFramingSession
  left s (buf, reads) = record s { read_buf = buf; reads = reads }

  abbrev pub set_state : AuthState → RawFramingSession → RawFramingSession
  set_state state s = record s { auth_state = state }

  -- `payload.as_str()` of serde_json is a parameter.
  module _ (as_str : Value → Option Text) (provider : IdentityProvider) where
    abbrev pub token_of : EventEnvelope Value → List ℕ
    token_of envelope = elim (as_str envelope.payload) [ some t ↦ t | none ↦ [] ]

    abbrev pub logged_in :
        Option Identity
        → EventEnvelope Value
        → RawFramingSession
        → Option (InterfaceEvent Value) × RawFramingSession
    logged_in none envelope s = (none, set_state failed_auth s)
    logged_in (some identity) envelope s =
        (some (with_identity envelope identity), set_state (authenticated identity) s)

    -- What `recv` makes of a frame that it read, or failed to read, in each state.
    abbrev pub received :
        AuthState
        → Result (EventEnvelope Value) SessionError
        → RawFramingSession
        → Option (InterfaceEvent Value) × RawFramingSession
    received failed_auth _ s = (none, s)
    received (authenticated identity) (ok envelope) s = (some (with_identity envelope identity), s)
    received (authenticated identity) (err e) s = (none, s)
    received pending (ok envelope) s =
        logged_in (provider.resolve_from_token (token_of envelope)) envelope s
    received pending (err e) s = (none, set_state failed_auth s)

    unfoldable pub recv : RawFramingSession → Option (InterfaceEvent Value) × RawFramingSession
    unfolding read_frame
    recv s = elim s.auth_state [
      | failed_auth ↦ (none, s)
      | state ↦
          let (outcome, after) = read_frame s.read_buf s.reads in
          received state outcome (left s after)
    ]

    -- Successive calls of `recv`.
    unfoldable pub recvs :
        ℕ → RawFramingSession → List (Option (InterfaceEvent Value)) × RawFramingSession
    unfolding recv
    recvs zero s = ([], s)
    recvs (suc n) s =
        let (event, s') = recv s in let (events, after) = recvs n s' in (event ∷ events, after)
