-- ===== src/Secret/Service/Storage.antt =====
-- What was encrypted by the service is decrypted by it, also after other calls.
use alknet.Prelude.{
  ℕ, ◌≡◌, refl, true, Option, some, List, Text, Result, ok, arith, Option-cases, Result-cases, inl,
  inr, subst, map_err, length,
}
use alknet.Secret.Crypto.{Crypto, SealsAndEncodes}
use alknet.Secret.Cache
use alknet.Secret.Cache.{aes256_gcm, secp256k1, KeyCache}
use alknet.Secret.Derivation.{encryption_path}
use alknet.Secret.Encryption
use alknet.Secret.Encryption.{EncryptedData, EncryptionKey, Run, returned, from_derived_bytes}
use alknet.Secret.Encryption.RoundTrip.{decrypt-encrypt}
use alknet.Secret.Service.{
  ServiceInner, DerivedKey, from_cached, from_encryption, cached_or_derived, make_ed25519, encrypt,
  decrypt,
}
use alknet.Secret.Service.Invariant.{IsKeyOf, IsConsistent, cached_or_derived-IsKeyOf}
use alknet.Secret.Service.Keys.{NotSecp256k1, cached_or_derived-NotSecp256k1, IsKeyOf-make_ed25519}

-- The state in which `encrypt` or `decrypt` finds the key that the seed derives.
pub record IsReady (crypto : Crypto) (seed : List ℕ) (s : ServiceInner) : Type 0 where
  pub consistent : IsConsistent crypto s
  pub unlocked : s.unlocked ≡ true
  pub seeded : s.seed ≡ some seed
  pub not_secp : NotSecp256k1 encryption_path s.cache

module _ (crypto : Crypto) (seed : List ℕ) where
  -- The key found at the encryption path is the one that SLIP-0010 derives there.
  found-make_ed25519 :
      (s : ServiceInner) (now : ℕ) (d : DerivedKey)
      → IsReady crypto seed s
      → (cached_or_derived aes256_gcm (make_ed25519 crypto) s encryption_path now).0 ≡ ok d
      → make_ed25519 crypto seed encryption_path ≡ ok (d.private_key, d.public_key)
  found-make_ed25519 s now d r e =
      IsKeyOf-make_ed25519 crypto seed encryption_path d
        (cached_or_derived-NotSecp256k1 crypto aes256_gcm s encryption_path now d r.not_secp
          (λ p. ground arith) e)
        (subst (λ (o : Option (List ℕ)). IsKeyOf crypto o encryption_path d) r.seeded
          (cached_or_derived-IsKeyOf crypto aes256_gcm s encryption_path now d r.consistent e))

  -- If the derivation works, a key is found.
  found_of_made :
      (s : ServiceInner) (now : ℕ) (pair : List ℕ × List ℕ)
      → IsReady crypto seed s
      → make_ed25519 crypto seed encryption_path ≡ ok pair
      → (d : DerivedKey) × ((cached_or_derived aes256_gcm
            (make_ed25519 crypto)
            s
            encryption_path
            now).0
          ≡ ok d)
  unfolding cached_or_derived
  found_of_made s now pair r e = elim (Option-cases (Cache.get s.cache encryption_path now).1) [
    | inr (k, hit) ↦ (from_cached k, rw (hit, cached_or_derived) refl)
    | inl miss ↦ (
      record { key_type = aes256_gcm; private_key = pair.0; public_key = pair.1 },
      rw (miss, r.seeded, e, cached_or_derived) refl,
    )
  ]

  map_err-eq-ok :
      {A E F : Type 0} (f : E → F) (r : Result A E) (x : A) → map_err f r ≡ ok x → r ≡ ok x
  map_err-eq-ok f r x e = ground arith

  -- What `encrypt` returns in one consistent unlocked state of the service, `decrypt` takes back to
  -- the text in any other, at any time, where the two have the same seed, no Ethereum key is cached at
  -- the encryption path in either, the nonce has 12 bytes, the text is valid UTF-8, and the cipher
  -- and base64 undo themselves. So locking and unlocking with the same phrase loses nothing.
  pub decrypt-encrypt_of_seed :
      (laws : SealsAndEncodes crypto) (s s' : ServiceInner) (plaintext : Text)
      (key_version now now' : ℕ) (iv salt : List ℕ) (blob : EncryptedData)
      → IsReady crypto seed s
      → IsReady crypto seed s'
      → length iv ≡ 12
      → crypto.from_utf8 plaintext ≡ ok plaintext
      → (encrypt crypto s plaintext key_version now iv salt).0 ≡ ok blob
      → (decrypt crypto s' blob now').0 ≡ returned (ok plaintext)
  unfolding encrypt decrypt
  decrypt-encrypt_of_seed laws s s' plaintext key_version now now' iv salt blob r r' hiv utf e =
      elim (Result-cases
        (cached_or_derived aes256_gcm (make_ed25519 crypto) s encryption_path now).0) [
          | inr (x, bad) ↦ absurd (ground (arith, r.unlocked))
          | inl (d, found) ↦
              let made = found-make_ed25519 s now d r found in
              let (d', found') = found_of_made s' now' (d.private_key, d.public_key) r' made in
              let made' = found-make_ed25519 s' now' d' r' found' in
              let same : d'.private_key ≡ d.private_key = ground arith in
              let sealed : Encryption.encrypt crypto plaintext
                    (from_derived_bytes d.private_key key_version) iv salt
                  ≡ ok blob =
                map_err-eq-ok from_encryption _ blob (ground (arith, r.unlocked)) in
              let unsealed =
                decrypt-encrypt crypto laws plaintext (from_derived_bytes d.private_key key_version)
                  (from_derived_bytes d'.private_key blob.key_version) iv salt blob hiv utf
                  (ground arith) sealed in
              ground (arith, r'.unlocked)
        ]
