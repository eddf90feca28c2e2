-- ===== src/Secret/Service.antt =====
-- crates/alknet-secret/src/service.rs: the state of the secret service and its methods. A method
-- takes the state that its lock guards, and gives its result with the new state; the arguments
-- `now`, `entropy`, `iv` and `salt` are the clock and the randomness that the source reads.
pub mod Invariant
pub mod Keeps
pub mod Locking
pub mod Keys
pub mod Storage
use Prim.Native.Nat.{min}
use alknet.Prelude.{
  ℕ, Bool, true, false, not, Option, none, some, List, Text, text, ◌++◌, take, length, Result, ok,
  err, ◌>>=◌, map_err, if◌then◌else◌,
}
use alknet.Prelude.Decimal.{decimal}
use alknet.Secret.Crypto.{Crypto}
use alknet.Secret.Cache
use alknet.Secret.Cache.{
  KeyType, ed25519, aes256_gcm, secp256k1, CachedKey, cached_key, CacheConfig, KeyCache,
}
use alknet.Secret.Derivation.{
  DerivationError, invalid_path, hmac_error, key_derivation, locked, secp256k1_error,
  unsupported_key_type, encryption_path,
}
use alknet.Secret.Derivation.Keys.{derive_path_from_seed}
use alknet.Secret.Ethereum.{derive_secp256k1_path}
use alknet.Secret.Mnemonic
use alknet.Secret.Mnemonic.{MnemonicError, generation, invalid_phrase}
use alknet.Secret.Encryption
use alknet.Secret.Encryption.{
  EncryptedData, EncryptionError, encryption, decryption, decoding, key_version_mismatch, Run,
  returned, panicked, from_derived_bytes,
}

pub record ServiceInner : Type 0 where
  pub mnemonic : Option Text
  pub seed : Option (List ℕ)
  pub unlocked : Bool
  pub cache : KeyCache

-- `DerivedKey` of protocol.rs
pub record DerivedKey : Type 0 where
  pub key_type : KeyType
  pub private_key : List ℕ
  pub public_key : List ℕ

pub data SecretServiceError : Type 0 where
  service_locked already_unlocked : SecretServiceError
  mnemonic_error derivation_error encryption_error invalid_path_error : Text → SecretServiceError
  unsupported : SecretServiceError

-- `From<MnemonicError>`, through `to_string`
unfoldable pub from_mnemonic : MnemonicError → SecretServiceError
from_mnemonic (generation e) = mnemonic_error (text "failed to generate mnemonic: " ++ e)
from_mnemonic (invalid_phrase e) = mnemonic_error (text "invalid mnemonic phrase: " ++ e)

-- `From<DerivationError>`, through `to_string`
unfoldable pub from_derivation : DerivationError → SecretServiceError
from_derivation (invalid_path e) = derivation_error (text "invalid derivation path: " ++ e)
from_derivation (hmac_error e) = derivation_error (text "HMAC error: " ++ e)
from_derivation (key_derivation e) = derivation_error (text "key derivation error: " ++ e)
from_derivation locked = derivation_error (text "seed is not unlocked")
from_derivation (secp256k1_error e) = derivation_error (text "secp256k1 error: " ++ e)
from_derivation unsupported_key_type = derivation_error (text "unsupported key type")

-- `From<EncryptionError>`, through `to_string`
unfoldable pub from_encryption : EncryptionError → SecretServiceError
from_encryption (encryption e) = encryption_error (text "encryption error: " ++ e)
from_encryption (decryption e) = encryption_error (text "decryption error: " ++ e)
from_encryption (decoding e) = encryption_error (text "base64 decoding error: " ++ e)
from_encryption (key_version_mismatch expected actual) = encryption_error (
    text "key version mismatch: expected "
    ++ (decimal expected ++ (text ", got " ++ decimal actual)))

abbrev pub Answer : Type 0 → Type 0
Answer A = Result A SecretServiceError × ServiceInner

-- A private and a public key.
abbrev pub KeyPair : Type 0
KeyPair = List ℕ × List ℕ

unfoldable pub with_cache_config : CacheConfig → ServiceInner
with_cache_config config = record {
  mnemonic = none;
  seed = none;
  unlocked = false;
  cache = Cache.new config;
}

unfoldable pub lock : ServiceInner → ServiceInner
lock s = record { mnemonic = none; seed = none; unlocked = false; cache = Cache.clear s.cache }

abbrev pub from_cached : CachedKey → DerivedKey
from_cached k = record {
  key_type = k.key_type;
  private_key = k.private_key;
  public_key = k.public_key;
}

-- The part that the three key methods, `encrypt` and `decrypt` share: look the path up in the cache,
-- else derive the pair by `make` and write it there as a key of the given type.
unfoldable pub cached_or_derived :
    KeyType
    → (List ℕ → Text → Result KeyPair DerivationError)
    → ServiceInner
    → Text
    → ℕ
    → Answer DerivedKey
cached_or_derived key_type make s path now =
    let (cache, hit) = Cache.get s.cache path now in
    let s' = record s { cache = cache } in
    elim hit [
      | some cached ↦ (ok (from_cached cached), s')
      | none ↦ elim s.seed [
        | none ↦ (err service_locked, s')
        | some seed ↦ elim (make seed path) [
          | err e ↦ (err (from_derivation e), s')
          | ok (private_key, public_key) ↦ (
            ok (record { key_type = key_type; private_key = private_key; public_key = public_key }),
            record s {
              cache = Cache.insert cache path (cached_key key_type private_key public_key now);
            },
          )
        ]
      ]
    ]

module _ (crypto : Crypto) where
  abbrev pub make_ed25519 : List ℕ → Text → Result KeyPair DerivationError
  make_ed25519 seed path = do
    key ← derive_path_from_seed crypto seed path
    ok (key.private_key, key.public_key)

  abbrev pub make_secp256k1 : List ℕ → Text → Result KeyPair DerivationError
  make_secp256k1 seed path = do
    key ← derive_secp256k1_path crypto seed path
    ok (key.private_key, key.public_key)

  unfoldable pub unlock : ServiceInner → Text → Option Text → Answer (Unit {0})
  unlock s phrase passphrase =
      if s.unlocked then (err already_unlocked, s) else elim (Mnemonic.from_phrase crypto phrase) [
        | err e ↦ (err (from_mnemonic e), s)
        | ok mnemonic ↦ (
          ok tt,
          record s {
            mnemonic = some mnemonic;
            seed = some (Mnemonic.to_seed crypto mnemonic passphrase);
            unlocked = true;
          },
        )
      ]

  unfoldable pub unlock_new : ServiceInner → ℕ → ℕ → Answer Text
  unlock_new s word_count entropy =
      if s.unlocked
      then (err already_unlocked, s)
      else elim (Mnemonic.generate crypto word_count entropy) [
        | err e ↦ (err (from_mnemonic e), s)
        | ok mnemonic ↦ (
          ok mnemonic,
          record s {
            mnemonic = some mnemonic;
            seed = some (Mnemonic.to_seed crypto mnemonic none);
            unlocked = true;
          },
        )
      ]

  unfoldable pub derive_ed25519 : ServiceInner → Text → ℕ → Answer DerivedKey
  derive_ed25519 s path now =
      if not s.unlocked
      then (err service_locked, s)
      else cached_or_derived ed25519 make_ed25519 s path now

  unfoldable pub derive_encryption_key : ServiceInner → Text → ℕ → Answer DerivedKey
  derive_encryption_key s path now =
      if not s.unlocked
      then (err service_locked, s)
      else cached_or_derived aes256_gcm make_ed25519 s path now

  -- `enabled` is the feature `secp256k1`.
  unfoldable pub derive_ethereum_key : Bool → ServiceInner → Text → ℕ → Answer DerivedKey
  derive_ethereum_key enabled s path now =
      if not enabled
      then (err unsupported, s)
      else if not s.unlocked
      then (err service_locked, s)
      else cached_or_derived secp256k1 make_secp256k1 s path now

  unfoldable pub derive_password : ServiceInner → Text → ℕ → Answer (List ℕ)
  derive_password s path wanted = if not s.unlocked then (err service_locked, s) else elim s.seed [
    | none ↦ (err service_locked, s)
    | some seed ↦ elim (derive_path_from_seed crypto seed path) [
      | err e ↦ (err (from_derivation e), s)
      | ok key ↦ (ok (take (min wanted (length key.private_key)) key.private_key), s)
    ]
  ]

  unfoldable pub encrypt : ServiceInner → Text → ℕ → ℕ → List ℕ → List ℕ → Answer EncryptedData
  encrypt s plaintext key_version now iv salt =
      if not s.unlocked
      then (err service_locked, s)
      else (let (found, s') = cached_or_derived aes256_gcm make_ed25519 s encryption_path now in
          elim found [
            | err e ↦ (err e, s')
            | ok key ↦
                (let enc_key = from_derived_bytes key.private_key key_version in
                  (
                    map_err from_encryption (Encryption.encrypt crypto plaintext enc_key iv salt),
                    s',
                  ))
          ])

  abbrev map_run : Run (Result Text EncryptionError) → Run (Result Text SecretServiceError)
  map_run (returned r) = returned (map_err from_encryption r)
  map_run panicked = panicked

  unfoldable pub decrypt :
      ServiceInner → EncryptedData → ℕ → Run (Result Text SecretServiceError) × ServiceInner
  decrypt s encrypted now =
      if not s.unlocked
      then (returned (err service_locked), s)
      else (let (found, s') = cached_or_derived aes256_gcm make_ed25519 s encryption_path now in
          elim found [
            | err e ↦ (returned (err e), s')
            | ok key ↦
                (let enc_key = from_derived_bytes key.private_key encrypted.key_version in
                  (map_run (Encryption.decrypt crypto encrypted enc_key), s'))
          ])
