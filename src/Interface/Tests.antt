-- ===== src/Interface/Tests.antt =====
-- The theorems on sessions of raw framing at concrete inputs, with the frames and reads of the tests
-- of the call frames; the token is the payload, a number, as one byte.
use alknet.Prelude.{
  ℕ, ◌≡◌, if◌then◌else◌, refl, Option, none, some, [], ◌∷◌, Text, text, text_eq, arith,
}
use alknet.Prelude.HashMap
use alknet.Auth.Identity.{Identity, IdentityProvider}
use alknet.Call.Frame
use alknet.Call.Tests.{event, json, json-RoundTrips, reads, reads-Delivers}
use alknet.Interface.RawFraming.{read_frame, recvs, new_session, with_identity}
use alknet.Interface.RawFraming.Reading.{Agree, read_frame-Agree}
use alknet.Interface.RawFraming.Sessions.{OneIdentity, recvs-OneIdentity, recvs-encode_all}

abbrev as_str : ℕ → Option Text
as_str n = some (n ∷ [])

abbrev ann : Identity
ann = record { id = text "ann"; scopes = []; resources = HashMap.new }

-- Knows the token 8.
abbrev provider : IdentityProvider
provider = record {
  resolve_from_fingerprint = λ f. none;
  resolve_from_token = λ t. if text_eq t (8 ∷ []) then some ann else none;
}

read_frame-Agree_example : Agree (read_frame json [] reads) (Frame.read_frame json [] reads)
read_frame-Agree_example = read_frame-Agree json [] reads

recvs-OneIdentity_example :
    OneIdentity json as_str provider
      (read_frame json [] reads).0
      (recvs json as_str provider 3 (new_session reads)).0
recvs-OneIdentity_example = recvs-OneIdentity json as_str provider 3 reads

recvs-encode_all_example :
    (recvs json as_str provider 2 (new_session reads)).0
    ≡ some (with_identity (event 7 8) ann) ∷ some (with_identity (event 5 6) ann) ∷ []
unfolding text_eq
recvs-encode_all_example =
    recvs-encode_all json json-RoundTrips as_str provider (event 7 8) (event 5 6 ∷ []) reads ann
      (omega arith, (omega arith, tt)) reads-Delivers refl
