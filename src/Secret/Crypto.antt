-- ===== src/Secret/Crypto.antt =====
-- The cryptography that alknet-secret calls, as a parameter of the model: the crates hmac,
-- ed25519-bip32, secp256k1, bip39, aes-gcm and base64. Errors carry the text of the crate's error.
use alknet.Prelude.{ℕ, ◌≡◌, List, Text, Result, ok}

pub record Crypto : Type 1 where
  -- `HmacSha512::new_from_slice(key)`, `update(data)`, `finalize()`
  pub hmac_sha512 : List ℕ → List ℕ → Result (List ℕ) Text
  -- `XPrv` of ed25519-bip32, with `derive(DerivationScheme::V2, index)`
  pub XPrv : Type 0
  pub from_nonextended_force : List ℕ → List ℕ → XPrv
  pub derive : XPrv → ℕ → XPrv
  pub extended_secret_key_bytes : XPrv → List ℕ
  pub public : XPrv → List ℕ
  pub xprv_chain_code : XPrv → List ℕ
  -- `SecretKey` of secp256k1; `public_key` is the serialized `PublicKey::from_secret_key`
  pub SecretKey : Type 0
  pub from_slice : List ℕ → Result SecretKey Text
  pub secret_bytes : SecretKey → List ℕ
  pub add_tweak : SecretKey → SecretKey → Result SecretKey Text
  pub public_key : SecretKey → List ℕ
  -- bip39: `generate(word_count)` over the given randomness, `parse_normalized`, `to_seed_normalized`
  pub generate : ℕ → ℕ → Result Text Text
  pub parse_normalized : Text → Result Text Text
  pub to_seed_normalized : Text → Text → List ℕ
  -- aes-gcm over a 32-byte key, a nonce and a text
  pub Cipher : Type 0
  pub new_cipher : List ℕ → Result Cipher Text
  pub seal : Cipher → List ℕ → List ℕ → Result (List ℕ) Text
  pub unseal : Cipher → List ℕ → List ℕ → Result (List ℕ) Text
  -- base64, the standard alphabet
  pub base64_encode : List ℕ → Text
  pub base64_decode : List ℕ → Result (List ℕ) Text
  -- `String::from_utf8`
  pub from_utf8 : List ℕ → Result Text Text

-- Documented behaviour: what is sealed under a key and a nonce is unsealed by them, and what is
-- encoded in base64 is decoded.
pub record SealsAndEncodes (c : Crypto) : Type 0 where
  pub unseal-seal :
      (k : c.Cipher) (nonce plain sealed : List ℕ)
      → c.seal k nonce plain ≡ ok sealed
      → c.unseal k nonce sealed ≡ ok plain
  pub base64_decode-encode : (bytes : List ℕ) → c.base64_decode (c.base64_encode bytes) ≡ ok bytes
