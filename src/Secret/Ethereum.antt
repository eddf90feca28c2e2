-- ===== src/Secret/Ethereum.antt =====
-- crates/alknet-secret/src/ethereum.rs: BIP-0032 derivation on secp256k1. The HMAC and the curve are
-- parameters (`Crypto`).
use alknet.Prelude.{
  ℕ, ◌/◌, ◌%◌, ◌^◌, List, [], ◌∷◌, ◌++◌, Text, text, take, drop, leb, if◌then◌else◌, Result, ok,
  ◌>>=◌, map_err,
}
use alknet.Secret.Crypto.{Crypto}
use alknet.Secret.Derivation.{
  DerivationError, hmac_error, secp256k1_error, parse_derivation_path, hardened_offset,
}

pub record Secp256k1ExtendedPrivKey : Type 0 where
  pub private_key : List ℕ
  pub public_key : List ℕ
  pub chain_code : List ℕ

-- `index.to_be_bytes()`
abbrev pub be_bytes : ℕ → List ℕ
be_bytes n = (n / 2 ^ 24 % 256) ∷ (n / 2 ^ 16 % 256) ∷ (n / 2 ^ 8 % 256) ∷ (n % 256) ∷ []

module _ (crypto : Crypto) where
  open crypto use {hmac_sha512, from_slice, secret_bytes, add_tweak, public_key}

  derive_secp256k1_master_key : List ℕ → Result Secp256k1ExtendedPrivKey DerivationError
  derive_secp256k1_master_key seed = do
    result ← map_err hmac_error (hmac_sha512 (text "Bitcoin seed") seed)
    secret_key ← map_err secp256k1_error (from_slice (take 32 result))
    ok (record {
      private_key = secret_bytes secret_key;
      public_key = public_key secret_key;
      chain_code = drop 32 result;
    })

  -- What goes into the HMAC in front of the index: the private key of a hardened child's parent,
  -- the public key else.
  child_data : Secp256k1ExtendedPrivKey → ℕ → List ℕ
  child_data parent index =
      (if leb hardened_offset index then 0 ∷ parent.private_key else parent.public_key)
      ++ be_bytes index

  derive_child : Secp256k1ExtendedPrivKey → ℕ → Result Secp256k1ExtendedPrivKey DerivationError
  unfolding child_data
  derive_child parent index = do
    result ← map_err hmac_error (hmac_sha512 parent.chain_code (child_data parent index))
    parent_secret ← map_err secp256k1_error (from_slice parent.private_key)
    child_key_raw ← map_err secp256k1_error (from_slice (take 32 result))
    child_secret ← map_err secp256k1_error (add_tweak parent_secret child_key_raw)
    ok (record {
      private_key = secret_bytes child_secret;
      public_key = public_key child_secret;
      chain_code = drop 32 result;
    })

  -- The loop over the indices.
  derive_children :
      Secp256k1ExtendedPrivKey → List ℕ → Result Secp256k1ExtendedPrivKey DerivationError
  unfolding derive_child
  derive_children current [] = ok current
  derive_children current (index ∷ indices) = do
    child ← derive_child current index
    derive_children child indices

  unfoldable pub derive_secp256k1_path :
      List ℕ → Text → Result Secp256k1ExtendedPrivKey DerivationError
  unfolding derive_secp256k1_master_key derive_children
  derive_secp256k1_path seed path = do
    indices ← parse_derivation_path path
    master ← derive_secp256k1_master_key seed
    derive_children master indices
