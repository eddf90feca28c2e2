-- ===== src/Secret/Tests.antt =====
-- The theorems on the secret service at concrete inputs, with a toy cryptography.
use alknet.Prelude.{
  ℕ, ◌+◌, ◌-◌, ◌↔◌, ◌≡◌, ◌≢◌, ◌⊎◌, refl, inl, inr, Bool, true, false, Option, none, some, List, [],
  ◌∷◌, ◌++◌, map, Text, text, Result, ok, err, length, take, arith, ◌<◌, ◌≤◌, ltb, if◌then◌else◌,
}
use Prim.Native.Nat.{max}
use alknet.Prelude.HashMap
use alknet.Secret.Crypto.{Crypto, SealsAndEncodes}
use alknet.Secret.Cache
use alknet.Secret.Cache.{
  KeyType, ed25519, aes256_gcm, secp256k1, CachedKey, cached_key, CacheConfig, default_config,
  KeyCache,
}
use alknet.Secret.Cache.Contents.{Holds-new}
use alknet.Secret.Cache.Trace
use alknet.Secret.Cache.Trace.{get_key, put_key, evict_stale, run-eq-spec_run}
use alknet.Secret.Derivation.{parse_derivation_path, device_path, encryption_path, identity_path}
use alknet.Secret.Derivation.Paths.{
  device_path-IsHardened_iff, parse_derivation_path-print_path, print_path,
}
use alknet.Secret.Encryption
use alknet.Secret.Encryption.{EncryptedData, EncryptionKey, returned, panicked}
use alknet.Secret.Service.{
  ServiceInner, DerivedKey, with_cache_config, lock, unlock, encrypt, decrypt, derive_ed25519,
  cached_or_derived,
}
use alknet.Secret.Service.Invariant.{
  IsConsistent, with_cache_config-IsConsistent, lock-IsConsistent, IsKeyOf,
}
use alknet.Secret.Service.Keeps.{unlock-IsConsistent}
use alknet.Secret.Service.Keys.{derive-IsKeyOf}
use alknet.Secret.Service.Locking.{lock-Refuses, Refuses}
use alknet.Secret.Service.Storage.{IsReady, decrypt-encrypt_of_seed}
use alknet.Secret.Actor.{
  Handle, Ambient, Message, unlock_with, derive_ed25519_at, decrypt_blob, new, run,
}
use alknet.Secret.Actor.Laws.{run-IsConsistent}

-- Keys are sums, sealing appends nothing, and base64 is the identity.
abbrev toy : Crypto
toy = record {
  hmac_sha512 = λ key message. ok (key ++ message);
  XPrv = List ℕ;
  from_nonextended_force = λ key code. key ++ code;
  derive = λ key index. index ∷ key;
  extended_secret_key_bytes = λ key. key;
  public = λ key. 1 ∷ key;
  xprv_chain_code = λ key. key;
  SecretKey = List ℕ;
  from_slice = λ bytes. ok bytes;
  secret_bytes = λ key. key;
  add_tweak = λ key tweak. ok (key ++ tweak);
  public_key = λ key. 2 ∷ key;
  generate = λ words entropy. ok (words ∷ entropy ∷ []);
  parse_normalized = λ phrase. ok phrase;
  to_seed_normalized = λ phrase passphrase. phrase ++ passphrase;
  Cipher = List ℕ;
  new_cipher = λ key. ok key;
  seal = λ key nonce plain. ok plain;
  unseal = λ key nonce sealed. ok sealed;
  base64_encode = λ bytes. bytes;
  base64_decode = λ encoded. ok encoded;
  from_utf8 = λ bytes. ok bytes;
}

toy-SealsAndEncodes : SealsAndEncodes toy
toy-SealsAndEncodes = record {
  unseal-seal = λ k nonce plain sealed e. cc;
  base64_decode-encode = λ bytes. refl;
}

abbrev nonce : List ℕ
nonce = 1 ∷ 2 ∷ 3 ∷ 4 ∷ 5 ∷ 6 ∷ 7 ∷ 8 ∷ 9 ∷ 10 ∷ 11 ∷ 12 ∷ []

abbrev key_of : ℕ → EncryptionKey
key_of version = record { key_bytes = 7 ∷ []; key_version = version }

abbrev blob : EncryptedData
blob = record { key_version = 1; salt = 9 ∷ []; iv = nonce; sealed = text "hi" }

sealed_blob : Encryption.encrypt toy (text "hi") (key_of 1) nonce (9 ∷ []) ≡ ok blob
unfolding Encryption.encrypt
sealed_blob = refl

abbrev opened : ServiceInner
opened = (unlock toy (with_cache_config default_config) (text "words") none).1

opened-IsReady : IsReady toy (text "words") opened
unfolding unlock with_cache_config alknet.Secret.Mnemonic.from_phrase alknet.Secret.Mnemonic.to_seed
opened-IsReady = record {
  consistent =
      unlock-IsConsistent toy (with_cache_config-IsConsistent toy default_config) (text "words")
        none;
  unlocked = refl;
  seeded = refl;
  not_secp = Holds-new _ default_config;
}

opened_encrypts : (encrypt toy opened (text "hi") 1 0 nonce (9 ∷ [])).0 ≡ ok blob
unfolding encrypt unlock with_cache_config alknet.Secret.Mnemonic.from_phrase cached_or_derived
    Cache.get HashMap.get Cache.new HashMap.new alknet.Secret.Derivation.Keys.derive_path_from_seed
    parse_derivation_path alknet.Prelude.split_on alknet.Prelude.Decimal.parse_uint
    alknet.Prelude.Split.trim_end Encryption.encrypt
opened_encrypts = refl

-- The service locked and unlocked again with the same phrase.
abbrev reopened : ServiceInner
reopened = (unlock toy (lock opened) (text "words") none).1

reopened-IsReady : IsReady toy (text "words") reopened
unfolding unlock with_cache_config lock Cache.clear alknet.Secret.Mnemonic.from_phrase
    alknet.Secret.Mnemonic.to_seed Cache.new
reopened-IsReady = record {
  consistent = unlock-IsConsistent toy (lock-IsConsistent toy opened) (text "words") none;
  unlocked = refl;
  seeded = refl;
  not_secp = Holds-new _ default_config;
}

decrypt-encrypt_of_seed_example : (decrypt toy reopened blob 7).0 ≡ returned (ok (text "hi"))
decrypt-encrypt_of_seed_example =
    decrypt-encrypt_of_seed toy (text "words") toy-SealsAndEncodes opened reopened (text "hi") 1 0 7
      nonce (9 ∷ []) blob opened-IsReady reopened-IsReady refl refl opened_encrypts

abbrev toy_bytes : List ℕ
toy_bytes =
    0x80000000 ∷ 0x80000000 ∷ 0x80000000 ∷ 0x8000004a ∷ (text "ed25519 seed" ++ text "words")

abbrev toy_key : DerivedKey
toy_key = record {
  key_type = ed25519;
  private_key = take 32 toy_bytes;
  public_key = take 32 (1 ∷ toy_bytes);
}

derived_toy : (derive_ed25519 toy opened identity_path 0).0 ≡ ok toy_key
unfolding derive_ed25519 unlock with_cache_config alknet.Secret.Mnemonic.from_phrase
    cached_or_derived Cache.get HashMap.get Cache.new HashMap.new
    alknet.Secret.Derivation.Keys.derive_path_from_seed parse_derivation_path
    alknet.Prelude.split_on alknet.Prelude.Decimal.parse_uint alknet.Prelude.Split.trim_end
    alknet.Prelude.Split.ends_with_byte alknet.Secret.Mnemonic.to_seed
derived_toy = refl

derive-IsKeyOf_example : IsKeyOf toy opened.seed identity_path toy_key
derive-IsKeyOf_example =
    derive-IsKeyOf toy opened identity_path 0 toy_key opened-IsReady.consistent (inl derived_toy)

lock-Refuses_example :
    ((lock opened).mnemonic ≡ none)
    × ((lock opened).seed ≡ none)
    × (Cache.len (lock opened).cache ≡ 0)
    × Refuses toy (lock opened)
lock-Refuses_example = lock-Refuses toy opened

abbrev at_zero : Ambient
at_zero = record { now = 0; iv = nonce; salt = 9 ∷ [] }

abbrev bad_blob : EncryptedData
bad_blob = record { key_version = 1; salt = []; iv = 1 ∷ []; sealed = text "hi" }

-- A blob with a one-byte nonce, which makes the lock poisoned.
abbrev calls : List (Message × Ambient)
calls =
    (unlock_with (text "words") none, at_zero)
    ∷ (derive_ed25519_at identity_path, at_zero)
    ∷ (decrypt_blob bad_blob, at_zero)
    ∷ []

run-IsConsistent_example : IsConsistent toy (run toy true new calls).inner
run-IsConsistent_example = run-IsConsistent toy true calls

abbrev poisoned : Handle
poisoned = record { inner = opened; poisoned = true }

abbrev small : CacheConfig
small = record { ttl = 5; max_entries = 2 }

abbrev some_key : CachedKey
some_key = cached_key ed25519 (1 ∷ []) (2 ∷ []) 0

abbrev trace : List Trace.Op
trace =
    put_key (text "a") some_key
    ∷ put_key (text "b") some_key
    ∷ get_key (text "a") 1
    ∷ put_key (text "c") some_key
    ∷ get_key (text "b") 2
    ∷ evict_stale 9
    ∷ []

run-eq-spec_run_example : Trace.run (Cache.new small) trace ≡ Trace.spec_run small [] trace
run-eq-spec_run_example = run-eq-spec_run small trace

new-small : Cache.len (Cache.new small) ≤ max 1 2
unfolding Cache.len Cache.new HashMap.len HashMap.new
new-small = omega arith

device_path-IsHardened_iff_example :
    (last : ℕ) × (parse_derivation_path (device_path 0x80000001)
      ≡ ok (0x8000004a ∷ 0x80000000 ∷ 0x80000000 ∷ last ∷ []))
    × ((0x80000000 ≤ last) ↔ (0x80000001 < 0x80000000))
    × (last
        ≡ (if ltb 0x80000001 0x80000000 then 0x80000001 + 0x80000000 else 0x80000001 - 0x80000000))
device_path-IsHardened_iff_example = device_path-IsHardened_iff 0x80000001 (omega arith)

parse_derivation_path-print_path_example :
    parse_derivation_path (print_path ((44, true) ∷ (0, false) ∷ [])) ≡ ok (0x8000002c ∷ 0 ∷ [])
parse_derivation_path-print_path_example =
    parse_derivation_path-print_path ((44, true) ∷ (0, false) ∷ []) (omega arith, (omega arith, tt))

parsed_path : parse_derivation_path (text "m/7/1'") ≡ ok (7 ∷ 0x80000001 ∷ [])
unfolding parse_derivation_path alknet.Prelude.split_on alknet.Prelude.Decimal.parse_uint
    alknet.Prelude.Split.trim_end alknet.Prelude.Split.ends_with_byte
parsed_path = refl
