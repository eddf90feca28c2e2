-- ===== src/Secret/Encryption.antt =====
-- crates/alknet-secret/src/encryption.rs: AES-256-GCM over a derived key. The cipher and base64 are
-- parameters (`Crypto`); the random nonce and salt are arguments. `Nonce::from_slice` panics where
-- the decoded nonce is not 12 bytes long.
pub mod RoundTrip
pub use alknet.Prelude.{Run, returned, panicked}
use alknet.Prelude.{
  ℕ, List, Text, text, take, length, ◌==◌, if◌then◌else◌, Result, ok, err, ◌>>=◌, map_err, ◌++◌,
}
use alknet.Secret.Crypto.{Crypto}

pub record EncryptedData : Type 0 where
  pub key_version : ℕ
  pub salt : Text
  pub iv : Text
  pub sealed : Text

pub record EncryptionKey : Type 0 where
  pub key_bytes : List ℕ
  pub key_version : ℕ

pub data EncryptionError : Type 0 where
  encryption : Text → EncryptionError
  decryption : Text → EncryptionError
  decoding : Text → EncryptionError
  key_version_mismatch : ℕ → ℕ → EncryptionError

abbrev pub from_derived_bytes : List ℕ → ℕ → EncryptionKey
from_derived_bytes bytes key_version = record {
  key_bytes = take 32 bytes;
  key_version = key_version;
}

abbrev invalid_key : Text → Text
invalid_key e = text "invalid key length: " ++ e

module _ (crypto : Crypto) where
  open crypto use {Cipher, new_cipher, seal, unseal, base64_encode, base64_decode, from_utf8}

  unfoldable pub encrypt :
      Text → EncryptionKey → List ℕ → List ℕ → Result EncryptedData EncryptionError
  encrypt plaintext key iv_bytes salt_bytes = do
    cipher ← map_err (λ e. encryption (invalid_key e)) (new_cipher key.key_bytes)
    ciphertext ← map_err encryption (seal cipher iv_bytes plaintext)
    ok (record {
      key_version = key.key_version;
      salt = base64_encode salt_bytes;
      iv = base64_encode iv_bytes;
      sealed = base64_encode ciphertext;
    })

  -- What follows `Nonce::from_slice`.
  unseal_text : Cipher → List ℕ → Text → Result Text EncryptionError
  unseal_text cipher nonce sealed = do
    ciphertext ← map_err decoding (base64_decode sealed)
    plaintext ← map_err decryption (unseal cipher nonce ciphertext)
    map_err decryption (from_utf8 plaintext)

  decrypt_with : Cipher → EncryptedData → Run (Result Text EncryptionError)
  unfolding unseal_text
  decrypt_with cipher encrypted = elim (base64_decode encrypted.iv) [
    | err e ↦ returned (err (decoding e))
    | ok iv_bytes ↦
        if length iv_bytes == 12
        then returned (unseal_text cipher iv_bytes encrypted.sealed)
        else panicked
  ]

  unfoldable pub decrypt : EncryptedData → EncryptionKey → Run (Result Text EncryptionError)
  unfolding decrypt_with
  decrypt encrypted key = elim (new_cipher key.key_bytes) [
    | err e ↦ returned (err (decryption (invalid_key e)))
    | ok cipher ↦ decrypt_with cipher encrypted
  ]
