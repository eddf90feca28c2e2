-- ===== src/Secret/Service/Keys.antt =====
-- Which key a method returns.
use alknet.Prelude.{
  ℕ, ◌≡◌, ◌≢◌, ◌⊎◌, refl, true, some, List, Text, ok, arith, Bool-cases, Option-cases, Result-cases,
  inl, inr, subst,
}
use alknet.Secret.Crypto.{Crypto}
use alknet.Secret.Cache
use alknet.Secret.Cache.{
  KeyType, ed25519, aes256_gcm, secp256k1, CachedKey, cached_key, KeyCache, touch, is_expired,
}
use alknet.Secret.Cache.Contents.{Holds, hit-Holds}
use alknet.Secret.Service.{
  ServiceInner, DerivedKey, cached_or_derived, make_ed25519, derive_ed25519, derive_encryption_key,
  derive_ethereum_key,
}
use alknet.Secret.Service.Invariant.{make, IsKeyOf, IsConsistent, cached_or_derived-IsKeyOf}

-- No key of the Ethereum method is cached at a path.
abbrev pub NotSecp256k1 : Text → KeyCache → Type 0
NotSecp256k1 path c = Holds (λ q k. q ≡ path → k.key_type ≢ secp256k1) c

pub cached_or_derived-NotSecp256k1 :
    (crypto : Crypto) (wanted : KeyType) (s : ServiceInner) (path : Text) (now : ℕ) (d : DerivedKey)
    → NotSecp256k1 path s.cache
    → wanted ≢ secp256k1
    → (cached_or_derived wanted (make crypto wanted) s path now).0 ≡ ok d
    → d.key_type ≢ secp256k1
unfolding cached_or_derived
cached_or_derived-NotSecp256k1 crypto wanted s path now d h n e =
    elim (Option-cases (Cache.get s.cache path now).1) [
      | inr (k, hit) ↦
          subst (λ (t : KeyType). t ≢ secp256k1) {x = k.key_type} {y = d.key_type} (ground arith)
            (hit-Holds (λ q k. q ≡ path → k.key_type ≢ secp256k1) (λ q k now h. h) s.cache path now
              k h hit refl)
      | inl miss ↦ elim (Option-cases s.seed) [
        | inl shut ↦ absurd (ground arith)
        | inr (seed, there) ↦ elim (Result-cases (make crypto wanted seed path)) [
          | inr (x, bad) ↦ absurd (ground arith)
          | inl (pair, made) ↦ subst (λ (t : KeyType). t ≢ secp256k1) (ground arith) n
        ]
      ]
    ]

-- An Ed25519 or AES-256-GCM key is the one that SLIP-0010 derives.
pub IsKeyOf-make_ed25519 :
    (crypto : Crypto) (seed : List ℕ) (path : Text) (d : DerivedKey)
    → d.key_type ≢ secp256k1
    → IsKeyOf crypto (some seed) path d
    → make_ed25519 crypto seed path ≡ ok (d.private_key, d.public_key)
IsKeyOf-make_ed25519 crypto seed path d other h = of_type d.key_type other h
  where
    of_type :
        (t : KeyType)
        → t ≢ secp256k1
        → make crypto t seed path ≡ ok (d.private_key, d.public_key)
        → make_ed25519 crypto seed path ≡ ok (d.private_key, d.public_key)
    of_type ed25519 n e = e
    of_type aes256_gcm n e = e
    of_type secp256k1 n e = absurd (n refl)

-- In a consistent state, whatever key the three methods return for a path is the one that the key's
-- own type and the path derive from the present seed, also where it comes from the cache.
pub derive-IsKeyOf :
    (crypto : Crypto) (s : ServiceInner) (path : Text) (now : ℕ) (d : DerivedKey)
    → IsConsistent crypto s
    → ((derive_ed25519 crypto s path now).0 ≡ ok d)
      ⊎ (((derive_encryption_key crypto s path now).0 ≡ ok d)
          ⊎ ((derive_ethereum_key crypto true s path now).0 ≡ ok d))
    → IsKeyOf crypto s.seed path d
unfolding derive_ed25519 derive_encryption_key derive_ethereum_key
derive-IsKeyOf crypto s path now d v e = elim (Bool-cases s.unlocked) [
  | inr shut ↦
      absurd
        (elim e [ inl a ↦ ground arith | inr (inl b) ↦ ground arith | inr (inr c) ↦ ground arith ])
  | inl opened ↦ elim e [
    | inl a ↦ cached_or_derived-IsKeyOf crypto ed25519 s path now d v (ground arith)
    | inr (inl b) ↦ cached_or_derived-IsKeyOf crypto aes256_gcm s path now d v (ground arith)
    | inr (inr c) ↦ cached_or_derived-IsKeyOf crypto secp256k1 s path now d v (ground arith)
  ]
]
