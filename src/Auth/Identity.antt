-- ===== src/Auth/Identity.antt =====
-- `Identity` of crates/alknet-core/src/auth/identity.rs.
use alknet.Prelude.{ℕ, Option, List, Text}
use alknet.Prelude.HashMap.{HashMap}

-- An authenticated party: its id, its scopes, and for each type of resource the allowed actions.
pub record Identity : Type 0 where
  pub id : Text
  pub scopes : List Text
  pub resources : HashMap (List Text)

-- `IdentityProvider`, where its calls return. A fingerprint is a text, and a token its raw bytes.
pub record IdentityProvider : Type 0 where
  pub resolve_from_fingerprint : Text → Option Identity
  pub resolve_from_token : List ℕ → Option Identity
