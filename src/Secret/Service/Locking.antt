-- ===== src/Secret/Service/Locking.antt =====
-- What a locked service refuses, and what locking forgets.
use alknet.Prelude.{ℕ, ◌≡◌, refl, Bool, true, false, none, List, Text, err, if◌then◌else◌, not}
use alknet.Secret.Crypto.{Crypto}
use alknet.Prelude.HashMap
use alknet.Secret.Cache
use alknet.Secret.Encryption.{EncryptedData, returned}
use alknet.Secret.Service.{
  ServiceInner, SecretServiceError, service_locked, unsupported, lock, derive_ed25519,
  derive_encryption_key, derive_ethereum_key, derive_password, encrypt, decrypt,
}

refused : {A : Type 0} (b : Bool) (x y : A) → b ≡ false → (if not b then x else y) ≡ x
refused false x y e = refl
refused true x y e = cc

-- What a locked service answers for an Ethereum key: a build without the feature has none.
abbrev pub refusal : Bool → SecretServiceError
refusal true = service_locked
refusal false = unsupported

module _ (crypto : Crypto) (s : ServiceInner) (shut : s.unlocked ≡ false) where
  derive_ed25519_refused :
      (path : Text) (now : ℕ) → derive_ed25519 crypto s path now ≡ (err service_locked, s)
  unfolding derive_ed25519
  derive_ed25519_refused path now = refused s.unlocked _ _ shut

  derive_encryption_key_refused :
      (path : Text) (now : ℕ) → derive_encryption_key crypto s path now ≡ (err service_locked, s)
  unfolding derive_encryption_key
  derive_encryption_key_refused path now = refused s.unlocked _ _ shut

  derive_ethereum_key_refused :
      (secp256k1 : Bool) (path : Text) (now : ℕ)
      → derive_ethereum_key crypto secp256k1 s path now ≡ (err (refusal secp256k1), s)
  unfolding derive_ethereum_key
  derive_ethereum_key_refused true path now = refused s.unlocked _ _ shut
  derive_ethereum_key_refused false path now = refl

  derive_password_refused :
      (path : Text) (wanted : ℕ) → derive_password crypto s path wanted ≡ (err service_locked, s)
  unfolding derive_password
  derive_password_refused path wanted = refused s.unlocked _ _ shut

  encrypt_refused :
      (plaintext : Text) (key_version now : ℕ) (iv salt : List ℕ)
      → encrypt crypto s plaintext key_version now iv salt ≡ (err service_locked, s)
  unfolding encrypt
  encrypt_refused plaintext key_version now iv salt = refused s.unlocked _ _ shut

  decrypt_refused :
      (encrypted : EncryptedData) (now : ℕ)
      → decrypt crypto s encrypted now ≡ (returned (err service_locked), s)
  unfolding decrypt
  decrypt_refused encrypted now = refused s.unlocked _ _ shut

-- What a locked service answers, and the state it is left in.
pub record Refuses (crypto : Crypto) (s : ServiceInner) : Type 0 where
  ed25519 : (path : Text) (now : ℕ) → derive_ed25519 crypto s path now ≡ (err service_locked, s)
  encryption :
      (path : Text) (now : ℕ) → derive_encryption_key crypto s path now ≡ (err service_locked, s)
  ethereum :
      (secp256k1 : Bool) (path : Text) (now : ℕ)
      → derive_ethereum_key crypto secp256k1 s path now ≡ (err (refusal secp256k1), s)
  password :
      (path : Text) (wanted : ℕ) → derive_password crypto s path wanted ≡ (err service_locked, s)
  sealing :
      (plaintext : Text) (key_version now : ℕ) (iv salt : List ℕ)
      → encrypt crypto s plaintext key_version now iv salt ≡ (err service_locked, s)
  unsealing :
      (encrypted : EncryptedData) (now : ℕ)
      → decrypt crypto s encrypted now ≡ (returned (err service_locked), s)

-- While the service is locked each of its six key methods answers ServiceLocked, whatever its
-- arguments, but that the one for Ethereum keys answers UnsupportedKeyType in a build without the
-- feature secp256k1, and leaves the state as it is, the cache included.
pub locked-Refuses : (crypto : Crypto) (s : ServiceInner) → s.unlocked ≡ false → Refuses crypto s
locked-Refuses crypto s shut = record {
  ed25519 = derive_ed25519_refused crypto s shut;
  encryption = derive_encryption_key_refused crypto s shut;
  ethereum = derive_ethereum_key_refused crypto s shut;
  password = derive_password_refused crypto s shut;
  sealing = encrypt_refused crypto s shut;
  unsealing = decrypt_refused crypto s shut;
}

-- After `lock` the mnemonic and the seed are gone, no key is left in the cache, and each key method
-- answers ServiceLocked and changes nothing, whatever the state before; in a build without the
-- feature secp256k1 the method for Ethereum keys answers UnsupportedKeyType.
pub lock-Refuses :
    (crypto : Crypto) (s : ServiceInner)
    → ((lock s).mnemonic ≡ none)
      × ((lock s).seed ≡ none)
      × (Cache.len (lock s).cache ≡ 0)
      × Refuses crypto (lock s)
unfolding lock Cache.clear Cache.len HashMap.new HashMap.len
lock-Refuses crypto s = (refl, refl, refl, locked-Refuses crypto (lock s) refl)
