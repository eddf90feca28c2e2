-- ===== src/Secret/Derivation/Keys.antt =====
-- `derive_path_from_seed` and `derive_master_key` of derivation.rs.
use alknet.Prelude.{ℕ, List, [], ◌∷◌, Text, text, take, drop, Result, ok, ◌>>=◌, map_err}
use alknet.Secret.Crypto.{Crypto}
use alknet.Secret.Derivation.{DerivationError, hmac_error, parse_derivation_path}

pub record ExtendedPrivKey : Type 0 where
  pub private_key : List ℕ
  pub public_key : List ℕ
  pub chain_code : List ℕ
  pub path : Text

module _ (crypto : Crypto) where
  open crypto use {
    hmac_sha512, XPrv, from_nonextended_force, derive, extended_secret_key_bytes, public,
    xprv_chain_code,
  }

  derive_master_key : List ℕ → Result XPrv DerivationError
  derive_master_key seed = do
    result ← map_err hmac_error (hmac_sha512 (text "ed25519 seed") seed)
    ok (from_nonextended_force (take 32 result) (drop 32 result))

  -- The loop over the indices.
  derive_along : XPrv → List ℕ → XPrv
  derive_along current [] = current
  derive_along current (index ∷ indices) = derive_along (derive current index) indices

  unfoldable pub derive_path_from_seed : List ℕ → Text → Result ExtendedPrivKey DerivationError
  unfolding derive_master_key derive_along
  derive_path_from_seed seed path = do
    indices ← parse_derivation_path path
    xprv ← derive_master_key seed
    let current = derive_along xprv indices
    ok (record {
      private_key = take 32 (extended_secret_key_bytes current);
      public_key = take 32 (public current);
      chain_code = xprv_chain_code current;
      path = path;
    })
