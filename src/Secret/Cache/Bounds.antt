-- ===== src/Secret/Cache/Bounds.antt =====
-- The number of cached keys.
use Prim.Native.Nat.{max}
use alknet.Prelude.{
  ◌+◌, ◌≤◌, ◌≡◌, refl, List, [], ◌∷◌, arith, length, ap, sym, ◌∙◌, true, false, ◌++◌, is_some, leb,
  Text, contains, Bool-cases, inl, inr, text_eq_refl,
}
use alknet.Prelude.HashMap
use alknet.Prelude.HashMap.Laws.{contains_key-eq}
use alknet.Prelude.HashMap.Sizes.{len-remove, len-insert}
use alknet.Secret.Cache.{
  CachedKey, KeyCache, insert, len, remove_entry, evict_first, evict_lru, make_room,
}
use alknet.Secret.Cache.Validity.{IsValid, make_room-absent, make_room-IsValid}

len-remove_entry-le : (c : KeyCache) (path : Text) → IsValid c → len (remove_entry c path) ≤ len c
unfolding len remove_entry
len-remove_entry-le c path v = ground (arith, len-remove c.entries path v.distinct)

-- The removal of a cached path frees one place.
len-remove_entry-lt :
    (c : KeyCache) (path : Text)
    → IsValid c
    → is_some (HashMap.get c.entries path) ≡ true
    → len (remove_entry c path) + 1 ≡ len c
unfolding len remove_entry
len-remove_entry-lt c path v h = ground (arith, len-remove c.entries path v.distinct)

len-evict_first :
    (c : KeyCache) (order : List Text)
    → IsValid c
    → c.order ≡ order
    → len (evict_first c order) + 1 ≤ max 1 (len c)
unfolding evict_first len contains
len-evict_first c [] v e = ground (arith, v.sizes, ap length e)
len-evict_first c (p ∷ order) v e =
    let listed : contains c.order p ≡ true = rw e (ground (arith, text_eq_refl p)) in
    omega (arith, len-remove_entry-lt c p v (sym (v.same p) ∙ listed))

len-eq : (c : KeyCache) → len c ≡ HashMap.len c.entries
unfolding len
len-eq c = refl

len-make_room-lt :
    (c : KeyCache) (path : Text)
    → IsValid c
    → len c ≤ max 1 c.config.max_entries
    → len (make_room c path) + 1 ≤ max 1 c.config.max_entries
unfolding make_room evict_lru
len-make_room-lt c path v h = elim (Bool-cases (HashMap.contains_key c.entries path)) [
  | inl old ↦
      rw old
        (omega (arith, len-remove_entry-lt c path v (sym (contains_key-eq c.entries path) ∙ old)))
  | inr fresh ↦ elim (Bool-cases (leb c.config.max_entries (HashMap.len c.entries))) [
    | inl full ↦ rw (fresh, full) (omega (arith, len-evict_first c c.order v refl))
    | inr room ↦ rw (fresh, room) (ground (arith, len-eq c))
  ]
]

len-append :
    (c : KeyCache) (path : Text) (k : CachedKey)
    → contains c.order path ≡ false
    → IsValid c
    → len (record c { entries = HashMap.insert c.entries path k; order = c.order ++ path ∷ [] })
      ≡ len c + 1
unfolding len
len-append c path k h v = ground (arith, len-insert c.entries path k v.distinct, v.same path)

-- An insert into a well-formed cache keeps the number of keys within the configured bound, or within
-- 1 where that is 0, if it was within before.
pub len-insert-le :
    (c : KeyCache) (path : Text) (k : CachedKey)
    → IsValid c
    → len c ≤ max 1 c.config.max_entries
    → len (insert c path k) ≤ max 1 c.config.max_entries
unfolding insert
len-insert-le c path k v h =
    let c' = make_room c path in
    omega (
      arith,
      len-make_room-lt c path v h,
      len-append c' path k (make_room-absent c path v) (make_room-IsValid c path v),
    )
