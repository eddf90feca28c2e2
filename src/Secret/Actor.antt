-- ===== src/Secret/Actor.antt =====
-- `SecretServiceHandle` and `SecretServiceActor` of crates/alknet-secret/src/service.rs, with the
-- messages of protocol.rs: every method runs under a lock, which a panic poisons, and a poisoned
-- lock makes each later `read().unwrap()` or `write().unwrap()` panic.
pub mod Laws
use alknet.Prelude.{ℕ, Bool, true, false, Option, List, [], ◌∷◌, Text, Result, ok, if◌then◌else◌}
use alknet.Secret.Crypto.{Crypto}
use alknet.Secret.Cache.{CacheConfig, default_config}
use alknet.Secret.Encryption.{EncryptedData, Run, returned, panicked}
use alknet.Secret.Service.{
  ServiceInner, DerivedKey, SecretServiceError, with_cache_config, lock, unlock, derive_ed25519,
  derive_encryption_key, derive_ethereum_key, derive_password, encrypt, decrypt,
}

-- `SecretProtocol`
pub data Message : Type 0 where
  derive_ed25519_at derive_encryption_key_at derive_ethereum_key_at : Text → Message
  derive_password_at : Text → ℕ → Message
  encrypt_text : Text → ℕ → Message
  decrypt_blob : EncryptedData → Message
  lock_service : Message
  unlock_with : Text → Option Text → Message

-- What is sent through the oneshot channel of a message.
pub data Reply : Type 0 where
  key_reply : Result DerivedKey SecretServiceError → Reply
  bytes_reply : Result (List ℕ) SecretServiceError → Reply
  blob_reply : Result EncryptedData SecretServiceError → Reply
  text_reply : Result Text SecretServiceError → Reply
  done_reply : Result (Unit {0}) SecretServiceError → Reply

-- What a call reads beside its arguments: the clock and the randomness.
pub record Ambient : Type 0 where
  pub now : ℕ
  pub iv : List ℕ
  pub salt : List ℕ

abbrev reply_text : Run (Result Text SecretServiceError) → Run Reply
reply_text (returned r) = returned (text_reply r)
reply_text panicked = panicked

-- The service behind its lock.
pub record Handle : Type 0 where
  pub inner : ServiceInner
  pub poisoned : Bool

unfoldable pub new : Handle
new = record { inner = with_cache_config default_config; poisoned = false }

abbrev pub is_panic : {A : Type 0} → Run A → Bool
is_panic (returned _) = false
is_panic panicked = true

module _ (crypto : Crypto) (secp256k1_enabled : Bool) where
  -- The call that a message is dispatched to, on the state that the lock guards.
  unfoldable pub dispatch : ServiceInner → Message → Ambient → Run Reply × ServiceInner
  dispatch s (derive_ed25519_at path) a =
      let (r, s') = derive_ed25519 crypto s path a.now in (returned (key_reply r), s')
  dispatch s (derive_encryption_key_at path) a =
      let (r, s') = derive_encryption_key crypto s path a.now in (returned (key_reply r), s')
  dispatch s (derive_ethereum_key_at path) a =
      let (r, s') = derive_ethereum_key crypto secp256k1_enabled s path a.now in
      (returned (key_reply r), s')
  dispatch s (derive_password_at path wanted) a =
      let (r, s') = derive_password crypto s path wanted in (returned (bytes_reply r), s')
  dispatch s (encrypt_text plaintext key_version) a =
      let (r, s') = encrypt crypto s plaintext key_version a.now a.iv a.salt in
      (returned (blob_reply r), s')
  dispatch s (decrypt_blob encrypted) a =
      let (r, s') = decrypt crypto s encrypted a.now in (reply_text r, s')
  dispatch s lock_service a = (returned (done_reply (ok tt)), lock s)
  dispatch s (unlock_with phrase passphrase) a =
      let (r, s') = unlock crypto s phrase passphrase in (returned (done_reply r), s')

  unfoldable pub handle_message : Handle → Message → Ambient → Run Reply × Handle
  unfolding dispatch
  handle_message h msg a =
      if h.poisoned
      then (panicked, h)
      else (let (r, s') = dispatch h.inner msg a in
          (r, record { inner = s'; poisoned = is_panic r }))

  -- The calls of several holders of the handle, in the order in which they take the lock.
  unfoldable pub run : Handle → List (Message × Ambient) → Handle
  unfolding handle_message
  run h [] = h
  run h ((msg, a) ∷ calls) = run (handle_message h msg a).1 calls
