-- ===== src/Secret/Cache/Contents.antt =====
-- Properties of the cached keys: a property of every key with its path is kept by each operation.
use alknet.Prelude.{
  ℕ, ◌≡◌, some, List, [], ◌∷◌, arith, leb, Text, text_eq, text_eq_iff, text_eq_refl, Bool-cases,
  Option-cases, inl, inr, subst, subst₂,
}
use alknet.Prelude.HashMap
use alknet.Prelude.HashMap.{HashMap}
use alknet.Prelude.HashMap.Laws.{get-insert, get-remove, get-new}
use alknet.Secret.Cache.{
  CachedKey, CacheConfig, KeyCache, is_expired, touch, new, get, insert, clear, remove_entry,
  evict_first, evict_lru, make_room, move_to_back,
}

-- Every cached key has the property, with its path.
pub record Holds {ℓ} (P : Text → CachedKey → Type ℓ) (c : KeyCache) : Type ℓ where
  pub at : (q : Text) (k : CachedKey) → HashMap.get c.entries q ≡ some k → P q k

module _ {ℓ} (P : Text → CachedKey → Type ℓ) where
  written :
      (m : HashMap CachedKey) (path : Text) (key : CachedKey)
      → P path key
      → ((q : Text) (k : CachedKey) → HashMap.get m q ≡ some k → P q k)
      → (q : Text) (k : CachedKey) → HashMap.get (HashMap.insert m path key) q ≡ some k
      → P q k
  written m path key p h q k e = elim (Bool-cases (text_eq path q)) [
    | inl here ↦ subst₂ P ((text_eq_iff path q).0 here) (ground (arith, get-insert m path q key)) p
    | inr other ↦ h q k (ground (arith, get-insert m path q key))
  ]

  pub Holds-new : (config : CacheConfig) → Holds P (new config)
  unfolding new
  Holds-new config = record { at = λ q k e. cc (get-new {V = CachedKey} q) }

  pub Holds-clear : (c : KeyCache) → Holds P (clear c)
  unfolding clear
  Holds-clear c = record { at = λ q k e. cc (get-new {V = CachedKey} q) }

  Holds-remove_entry : (c : KeyCache) (path : Text) → Holds P c → Holds P (remove_entry c path)
  unfolding remove_entry
  Holds-remove_entry c path h = record {
    at = λ q k e. h.at q k (ground (arith, get-remove c.entries path q));
  }

  Holds-evict_first : (c : KeyCache) (order : List Text) → Holds P c → Holds P (evict_first c order)
  unfolding evict_first
  Holds-evict_first c [] h = h
  Holds-evict_first c (p ∷ _) h = Holds-remove_entry c p h

  Holds-make_room : (c : KeyCache) (path : Text) → Holds P c → Holds P (make_room c path)
  unfolding make_room evict_lru
  Holds-make_room c path h = elim (Bool-cases (HashMap.contains_key c.entries path)) [
    | inl old ↦ rw old (Holds-remove_entry c path h)
    | inr fresh ↦ elim (Bool-cases (leb c.config.max_entries (HashMap.len c.entries))) [
      | inl full ↦ rw (fresh, full) (Holds-evict_first c c.order h)
      | inr room ↦ rw (fresh, room) h
    ]
  ]

  pub Holds-insert :
      (c : KeyCache) (path : Text) (key : CachedKey)
      → P path key
      → Holds P c
      → Holds P (insert c path key)
  unfolding insert
  Holds-insert c path key p h = record {
    at = written (make_room c path).entries path key p (Holds-make_room c path h).at;
  }

module _ {ℓ} (P : Text → CachedKey → Type ℓ)
    (touching : (q : Text) (k : CachedKey) (now : ℕ) → P q k → P q (touch k now)) where
  pub Holds-get : (c : KeyCache) (path : Text) (now : ℕ) → Holds P c → Holds P (get c path now).0
  unfolding get move_to_back
  Holds-get c path now h = elim (Option-cases (HashMap.get c.entries path)) [
    | inl missing ↦ rw (missing, get) h
    | inr (k, found) ↦ elim (Bool-cases (is_expired k c.config.ttl now)) [
      | inl old ↦ rw (found, get, old) (Holds-remove_entry P c path h)
      | inr live ↦
          rw (found, get, live)
            (record {
              at =
                  written P c.entries path (touch k now) (touching path k now (h.at path k found))
                    h.at;
            })
    ]
  ]

  -- What a hit returns is a cached key.
  pub hit-Holds :
      (c : KeyCache) (path : Text) (now : ℕ) (k : CachedKey)
      → Holds P c
      → (get c path now).1 ≡ some k
      → P path k
  unfolding get move_to_back
  hit-Holds c path now k h e = elim (Option-cases (HashMap.get c.entries path)) [
    | inl missing ↦ absurd (ground arith)
    | inr (k', found) ↦
        subst (P path)
          (ground (arith, get-insert c.entries path path (touch k' now), text_eq_refl path))
          (touching path k' now (h.at path k' found))
  ]
