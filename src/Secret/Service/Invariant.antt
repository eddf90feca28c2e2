-- ===== src/Secret/Service/Invariant.antt =====
-- The invariant of the secret service: the seed is there exactly while it is unlocked, the cache is
-- well formed, and every cached key is the one that its path and its type derive from the seed.
use alknet.Prelude.{
  ℕ, ◌≡◌, Bool, true, false, Option, none, some, List, Text, Result, ok, arith, Option-cases,
  Result-cases, inl, inr, subst,
}
use alknet.Secret.Crypto.{Crypto}
use alknet.Secret.Cache
use alknet.Secret.Cache.{
  KeyType, ed25519, aes256_gcm, secp256k1, CachedKey, cached_key, CacheConfig, KeyCache, touch,
}
use alknet.Secret.Cache.Validity.{IsValid, new-IsValid, insert-IsValid, get-IsValid, clear-IsValid}
use alknet.Secret.Cache.Contents.{Holds, Holds-new, Holds-clear, Holds-insert, Holds-get, hit-Holds}
use alknet.Secret.Derivation.{DerivationError}
use alknet.Secret.Service.{
  ServiceInner, DerivedKey, KeyPair, with_cache_config, lock, from_cached, cached_or_derived,
  make_ed25519, make_secp256k1,
}

-- The derivation that belongs to a type of key.
abbrev pub make : Crypto → KeyType → List ℕ → Text → Result KeyPair DerivationError
make crypto secp256k1 = make_secp256k1 crypto
make crypto _ = make_ed25519 crypto

-- The mnemonic and the seed are there, or both are absent.
abbrev pub Lifecycle : Option Text → Option (List ℕ) → Bool → Type 0
Lifecycle none none false = Unit
Lifecycle (some _) (some _) true = Unit
Lifecycle _ _ _ = ⊥

-- A key is the one that its type, the path and the seed give.
abbrev pub IsKeyOf : Crypto → Option (List ℕ) → Text → DerivedKey → Type 0
IsKeyOf crypto none path d = ⊥
IsKeyOf crypto (some seed) path d =
    make crypto d.key_type seed path ≡ ok (d.private_key, d.public_key)

abbrev pub IsDerived : Crypto → Option (List ℕ) → Text → CachedKey → Type 0
IsDerived crypto seed path k = IsKeyOf crypto seed path (from_cached k)

pub record IsConsistent (crypto : Crypto) (s : ServiceInner) : Type 0 where
  pub lifecycle : Lifecycle s.mnemonic s.seed s.unlocked
  pub valid : IsValid s.cache
  pub derived : Holds (IsDerived crypto s.seed) s.cache

touch-IsDerived :
    (crypto : Crypto) (seed : Option (List ℕ)) (q : Text) (k : CachedKey) (now : ℕ)
    → IsDerived crypto seed q k
    → IsDerived crypto seed q (touch k now)
touch-IsDerived crypto none q k now h = h
touch-IsDerived crypto (some seed) q k now h = h

module _ (crypto : Crypto) where
  pub with_cache_config-IsConsistent :
      (config : CacheConfig) → IsConsistent crypto (with_cache_config config)
  unfolding with_cache_config
  with_cache_config-IsConsistent config = record {
    lifecycle = tt;
    valid = new-IsValid config;
    derived = Holds-new (IsDerived crypto none) config;
  }

  pub lock-IsConsistent : (s : ServiceInner) → IsConsistent crypto (lock s)
  unfolding lock
  lock-IsConsistent s = record {
    lifecycle = tt;
    valid = clear-IsValid s.cache;
    derived = Holds-clear (IsDerived crypto none) s.cache;
  }

  -- A lookup in the cache changes nothing that the invariant speaks of.
  looked_up-IsConsistent :
      (s : ServiceInner) (path : Text) (now : ℕ)
      → IsConsistent crypto s
      → IsConsistent crypto (record s { cache = (Cache.get s.cache path now).0 })
  looked_up-IsConsistent s path now v = record {
    lifecycle = v.lifecycle;
    valid = get-IsValid s.cache path now v.valid;
    derived =
        Holds-get (IsDerived crypto s.seed) (touch-IsDerived crypto s.seed) s.cache path now
          v.derived;
  }

  made-IsDerived :
      (key_type : KeyType) (o : Option (List ℕ)) (seed : List ℕ) (path : Text) (pair : KeyPair)
      (now : ℕ)
      → o ≡ some seed
      → make crypto key_type seed path ≡ ok pair
      → IsDerived crypto o path (cached_key key_type pair.0 pair.1 now)
  made-IsDerived key_type o seed path pair now e h = rw e h

  derived-IsConsistent :
      (key_type : KeyType) (s : ServiceInner) (path : Text) (now : ℕ) (seed : List ℕ)
      (pair : KeyPair)
      → IsConsistent crypto s
      → s.seed ≡ some seed
      → make crypto key_type seed path ≡ ok pair
      → IsConsistent crypto (record s {
        cache =
            Cache.insert
              (Cache.get s.cache path now).0
              path
              (cached_key key_type pair.0 pair.1 now);
      })
  derived-IsConsistent key_type s path now seed pair v there made =
      let kept = looked_up-IsConsistent s path now v in
      let key = cached_key key_type pair.0 pair.1 now in
      let cache = (Cache.get s.cache path now).0 in
      record {
        lifecycle = v.lifecycle;
        valid = insert-IsValid cache path key kept.valid;
        derived =
            Holds-insert (IsDerived crypto s.seed) cache path key
              (made-IsDerived key_type s.seed seed path pair now there made) kept.derived;
      }

  pub cached_or_derived-IsConsistent :
      (key_type : KeyType) (s : ServiceInner) (path : Text) (now : ℕ)
      → IsConsistent crypto s
      → IsConsistent crypto (cached_or_derived key_type (make crypto key_type) s path now).1
  unfolding cached_or_derived
  cached_or_derived-IsConsistent key_type s path now v =
      let kept = looked_up-IsConsistent s path now v in
      elim (Option-cases (Cache.get s.cache path now).1) [
        | inr (k, hit) ↦ rw (hit, cached_or_derived) kept
        | inl miss ↦ elim (Option-cases s.seed) [
          | inl shut ↦ rw (miss, shut, cached_or_derived) kept
          | inr (seed, there) ↦ elim (Result-cases (make crypto key_type seed path)) [
            | inr (e, bad) ↦ rw (miss, there, bad, cached_or_derived) kept
            | inl (pair, made) ↦
                let next = derived-IsConsistent key_type s path now seed pair v there made in
                rw (miss, there, made, cached_or_derived) next
          ]
        ]
      ]

  -- Whatever the methods return as a key is derived from the seed.
  pub cached_or_derived-IsKeyOf :
      (key_type : KeyType) (s : ServiceInner) (path : Text) (now : ℕ) (d : DerivedKey)
      → IsConsistent crypto s
      → (cached_or_derived key_type (make crypto key_type) s path now).0 ≡ ok d
      → IsKeyOf crypto s.seed path d
  unfolding cached_or_derived
  cached_or_derived-IsKeyOf key_type s path now d v e =
      elim (Option-cases (Cache.get s.cache path now).1) [
        | inr (k, hit) ↦ subst (IsKeyOf crypto s.seed path) (ground arith) (
            hit-Holds (IsDerived crypto s.seed) (touch-IsDerived crypto s.seed) s.cache path now k
              v.derived hit)
        | inl miss ↦ elim (Option-cases s.seed) [
          | inl shut ↦ absurd (ground arith)
          | inr (seed, there) ↦ elim (Result-cases (make crypto key_type seed path)) [
            | inr (x, bad) ↦ absurd (ground arith)
            | inl (pair, made) ↦
                subst (IsKeyOf crypto s.seed path) (ground arith)
                  (made-IsDerived key_type s.seed seed path pair now there made)
          ]
        ]
      ]
