-- ===== src/Call/Envelope.antt =====
-- crates/alknet-core/src/call/envelope.rs, events.rs and response.rs: the messages of the call
-- protocol. JSON values and their codec are those of serde_json, and a parameter here.
use alknet.Prelude.{ℕ, Bool, List, Text, Result, ok, err, ◌≡◌}

-- `CallError` of response.rs
pub record CallError : Type 0 where
  pub code : Text
  pub message : Text
  pub retryable : Bool

-- `EventEnvelope`, over the type of JSON values.
pub record EventEnvelope (Value : Type 0) : Type 0 where
  pub event_type : Text
  pub id : Text
  pub payload : Value

-- `ResponseEnvelope` of response.rs
pub record ResponseEnvelope (Value : Type 0) : Type 0 where
  pub request_id : Text
  pub result : Result Value CallError

abbrev pub call_error : Text → Text → Bool → CallError
call_error code message retryable = record { code = code; message = message; retryable = retryable }

module _ {Value : Type 0} where
  -- `ResponseEnvelope::ok`
  abbrev pub response_ok : Text → Value → ResponseEnvelope Value
  response_ok request_id value = record { request_id = request_id; result = ok value }

  -- `ResponseEnvelope::err`
  abbrev pub response_err : Text → Text → Text → Bool → ResponseEnvelope Value
  response_err request_id code message retryable = record {
    request_id = request_id;
    result = err (call_error code message retryable);
  }

-- serde_json, as the frames use it.
pub record JsonCodec (Value : Type 0) : Type 0 where
  pub to_vec : EventEnvelope Value → List ℕ
  pub from_slice : List ℕ → Result (EventEnvelope Value) Text

-- Documented behaviour: what is serialized is deserialized.
pub record RoundTrips {Value : Type 0} (json : JsonCodec Value) : Type 0 where
  pub from_slice-to_vec : (e : EventEnvelope Value) → json.from_slice (json.to_vec e) ≡ ok e
