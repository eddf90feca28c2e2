-- ===== src/Secret/Encryption/RoundTrip.antt =====
-- Decryption undoes encryption.
use alknet.Prelude.{ℕ, List, ◌≡◌, Text, length, ok, arith, Result-cases, inl, inr}
use alknet.Secret.Crypto.{Crypto, SealsAndEncodes}
use alknet.Secret.Encryption.{EncryptedData, EncryptionKey, returned, encrypt, decrypt}

-- What was encrypted under a key with a 12-byte nonce is decrypted by every key with the same
-- bytes, whatever its version, to the text, where the text is valid UTF-8 and the cipher and base64
-- undo themselves.
pub decrypt-encrypt :
    (crypto : Crypto) (laws : SealsAndEncodes crypto) (plaintext : Text) (key key' : EncryptionKey)
    (iv salt : List ℕ) (blob : EncryptedData)
    → length iv ≡ 12
    → crypto.from_utf8 plaintext ≡ ok plaintext
    → key'.key_bytes ≡ key.key_bytes
    → encrypt crypto plaintext key iv salt ≡ ok blob
    → decrypt crypto blob key' ≡ returned (ok plaintext)
unfolding encrypt decrypt
decrypt-encrypt crypto laws plaintext key key' iv salt blob hiv utf same e =
    elim (Result-cases (crypto.new_cipher key.key_bytes)) [
      | inl (cipher, made) ↦ elim (Result-cases (crypto.seal cipher iv plaintext)) [
        | inl (ciphertext, sealed) ↦ ground (
          arith,
          laws.unseal-seal cipher iv plaintext ciphertext sealed,
          laws.base64_decode-encode iv,
          laws.base64_decode-encode ciphertext,
        )
        | inr (x, bad) ↦ ground arith
      ]
      | inr (x, bad) ↦ ground arith
    ]
