-- ===== src/Secret/Service/Keeps.antt =====
-- Every method keeps the invariant.
use alknet.Prelude.{
  ℕ, ◌≡◌, refl, Bool, true, false, Option, none, some, List, Text, arith, if◌then◌else◌, not,
  Result-cases, inl, inr,
}
use alknet.Secret.Crypto.{Crypto}
use alknet.Secret.Cache.{ed25519, aes256_gcm, secp256k1, KeyCache}
use alknet.Secret.Cache.Contents.{Holds}
use alknet.Secret.Derivation.{encryption_path}
use alknet.Secret.Encryption.{EncryptedData}
use alknet.Secret.Mnemonic
use alknet.Secret.Service.{
  ServiceInner, make_ed25519, cached_or_derived, unlock, unlock_new, derive_ed25519,
  derive_encryption_key, derive_ethereum_key, derive_password, encrypt, decrypt,
}
use alknet.Secret.Service.Invariant.{
  Lifecycle, IsDerived, IsConsistent, cached_or_derived-IsConsistent,
}

if_keeps :
    {A : Type 0} (P : ServiceInner → Type 0) (b : Bool) (x y : A × ServiceInner)
    → (b ≡ true → P x.1)
    → (b ≡ false → P y.1)
    → P (if b then x else y).1
if_keeps P true x y h k = h refl
if_keeps P false x y h k = k refl

seed_of_Lifecycle :
    (m : Option Text) (seed : Option (List ℕ)) (unlocked : Bool)
    → Lifecycle m seed unlocked
    → unlocked ≡ false
    → seed ≡ none
seed_of_Lifecycle none none b h e = refl
seed_of_Lifecycle (some m) (some seed) true h e = cc
seed_of_Lifecycle (some m) (some seed) false h e = absurd h
seed_of_Lifecycle none (some seed) b h e = absurd h
seed_of_Lifecycle (some m) none b h e = refl

not_IsDerived-none :
    (crypto : Crypto) (seed : Option (List ℕ)) (c : KeyCache)
    → seed ≡ none
    → Holds (IsDerived crypto seed) c
    → (P : Option (List ℕ)) → Holds (IsDerived crypto P) c
not_IsDerived-none crypto none c e h P = record { at = λ q k f. absurd (h.at q k f) }
not_IsDerived-none crypto (some seed) c e h P = absurd (ground arith)

module _ (crypto : Crypto) {s : ServiceInner} (v : IsConsistent crypto s) where
  -- A locked service has nothing in its cache, so it may be given any seed.
  opened-IsConsistent :
      (mnemonic : Text) (seed : List ℕ)
      → s.unlocked ≡ false
      → IsConsistent crypto
          (record s { mnemonic = some mnemonic; seed = some seed; unlocked = true })
  opened-IsConsistent mnemonic seed shut = record {
    lifecycle = tt;
    valid = v.valid;
    derived =
        not_IsDerived-none crypto s.seed s.cache
          (seed_of_Lifecycle s.mnemonic s.seed s.unlocked v.lifecycle shut) v.derived (some seed);
  }

  pub unlock-IsConsistent :
      (phrase : Text) (passphrase : Option Text)
      → IsConsistent crypto (unlock crypto s phrase passphrase).1
  unfolding unlock
  unlock-IsConsistent phrase passphrase =
      if_keeps (IsConsistent crypto) s.unlocked _ _ (λ _. v)
        λ shut. elim (Result-cases (Mnemonic.from_phrase crypto phrase)) [
          | inl (m, parsed) ↦
              rw parsed (opened-IsConsistent m (Mnemonic.to_seed crypto m passphrase) shut)
          | inr (e, bad) ↦ rw bad v
        ]

  pub unlock_new-IsConsistent :
      (word_count entropy : ℕ) → IsConsistent crypto (unlock_new crypto s word_count entropy).1
  unfolding unlock_new
  unlock_new-IsConsistent word_count entropy =
      if_keeps (IsConsistent crypto) s.unlocked _ _ (λ _. v)
        λ shut. elim (Result-cases (Mnemonic.generate crypto word_count entropy)) [
          | inl (m, made) ↦ rw made (opened-IsConsistent m (Mnemonic.to_seed crypto m none) shut)
          | inr (e, bad) ↦ rw bad v
        ]

  pub derive_ed25519-IsConsistent :
      (path : Text) (now : ℕ) → IsConsistent crypto (derive_ed25519 crypto s path now).1
  unfolding derive_ed25519
  derive_ed25519-IsConsistent path now =
      if_keeps (IsConsistent crypto) (not s.unlocked) _ _ (λ _. v)
        (λ _. cached_or_derived-IsConsistent crypto ed25519 s path now v)

  pub derive_encryption_key-IsConsistent :
      (path : Text) (now : ℕ) → IsConsistent crypto (derive_encryption_key crypto s path now).1
  unfolding derive_encryption_key
  derive_encryption_key-IsConsistent path now =
      if_keeps (IsConsistent crypto) (not s.unlocked) _ _ (λ _. v)
        (λ _. cached_or_derived-IsConsistent crypto aes256_gcm s path now v)

  pub derive_ethereum_key-IsConsistent :
      (enabled : Bool) (path : Text) (now : ℕ)
      → IsConsistent crypto (derive_ethereum_key crypto enabled s path now).1
  unfolding derive_ethereum_key
  derive_ethereum_key-IsConsistent enabled path now =
      if_keeps (IsConsistent crypto) (not enabled) _ _ (λ _. v)
        (λ _.
          if_keeps (IsConsistent crypto) (not s.unlocked) _ _ (λ _. v)
            (λ _. cached_or_derived-IsConsistent crypto secp256k1 s path now v))

  pub encrypt-IsConsistent :
      (plaintext : Text) (key_version now : ℕ) (iv salt : List ℕ)
      → IsConsistent crypto (encrypt crypto s plaintext key_version now iv salt).1
  unfolding encrypt
  encrypt-IsConsistent plaintext key_version now iv salt =
      let next = cached_or_derived-IsConsistent crypto aes256_gcm s encryption_path now v in
      if_keeps (IsConsistent crypto) (not s.unlocked) _ _ (λ _. v)
        λ _.
          elim (Result-cases
            (cached_or_derived aes256_gcm (make_ed25519 crypto) s encryption_path now).0) [
              | inl (key, found) ↦ rw found next
              | inr (e, bad) ↦ rw bad next
            ]

  pub decrypt-IsConsistent :
      (encrypted : EncryptedData) (now : ℕ) → IsConsistent crypto (decrypt crypto s encrypted now).1
  unfolding decrypt
  decrypt-IsConsistent encrypted now =
      let next = cached_or_derived-IsConsistent crypto aes256_gcm s encryption_path now v in
      if_keeps (IsConsistent crypto) (not s.unlocked) _ _ (λ _. v)
        λ _.
          elim (Result-cases
            (cached_or_derived aes256_gcm (make_ed25519 crypto) s encryption_path now).0) [
              | inl (key, found) ↦ rw found next
              | inr (e, bad) ↦ rw bad next
            ]

  pub derive_password-keeps :
      (path : Text) (wanted : ℕ) → (derive_password crypto s path wanted).1 ≡ s
  unfolding derive_password
  derive_password-keeps path wanted = ground arith
