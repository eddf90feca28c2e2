-- ===== src/Secret/Cache/Validity.antt =====
-- The invariant of the cache: the access order lists the cached paths, each once, and the number
-- of keys stays within the configured bound.
use alknet.Prelude.{
  ℕ, ◌≡◌, true, false, List, [], ◌∷◌, ◌++◌, arith, length, if◌then◌else◌, is_some, leb, Text,
  text_eq, text_eq_refl, contains, contains-append, length-append, Bool-cases, Option-cases, inl,
  inr,
}
use alknet.Prelude.HashMap
use alknet.Prelude.HashMap.{HashMap, IsDistinct}
use alknet.Prelude.HashMap.Laws.{get-insert, get-remove, get-new, contains_key-eq}
use alknet.Prelude.HashMap.Sizes.{
  IsDistinct-new, IsDistinct-insert, IsDistinct-remove, len-remove, len-insert, len-new,
  insert-remove,
}
use alknet.Secret.Cache.{
  CachedKey, CacheConfig, KeyCache, is_expired, touch, new, get, insert, evict_expired, clear,
  retain_ne, remove_entry, evict_first, evict_lru, move_to_back, make_room, remove_entries,
}
use alknet.Secret.Cache.Order.{
  Unique, contains-retain_ne, Unique-retain_ne, length-retain_ne, Unique-concat,
}

pub record IsValid (c : KeyCache) : Type 0 where
  pub distinct : IsDistinct c.entries
  pub unique : Unique c.order
  pub same : (q : Text) → contains c.order q ≡ is_some (HashMap.get c.entries q)
  pub sizes : HashMap.len c.entries ≡ length c.order

pub new-IsValid : (config : CacheConfig) → IsValid (new config)
unfolding new contains
new-IsValid config = record {
  distinct = IsDistinct-new;
  unique = tt;
  same = λ q. ground (arith, get-new {V = CachedKey} q);
  sizes = len-new CachedKey;
}

pub remove_entry-IsValid : (c : KeyCache) (path : Text) → IsValid c → IsValid (remove_entry c path)
unfolding remove_entry
remove_entry-IsValid c path v = record {
  distinct = IsDistinct-remove c.entries path v.distinct;
  unique = Unique-retain_ne path c.order v.unique;
  same =
      λ q. ground (arith, contains-retain_ne path q c.order, get-remove c.entries path q, v.same q);
  sizes = ground (
    arith,
    length-retain_ne path c.order v.unique,
    len-remove c.entries path v.distinct,
    v.same path,
    v.sizes,
  );
}

evict_first-IsValid : (c : KeyCache) (order : List Text) → IsValid c → IsValid (evict_first c order)
unfolding evict_first
evict_first-IsValid c [] v = v
evict_first-IsValid c (lru_path ∷ _) v = remove_entry-IsValid c lru_path v

evict_lru-IsValid : (c : KeyCache) → IsValid c → IsValid (evict_lru c)
unfolding evict_lru
evict_lru-IsValid c v = evict_first-IsValid c c.order v

contains-concat :
    (order : List Text) (p q : Text)
    → contains (order ++ p ∷ []) q ≡ (if text_eq p q then true else contains order q)
unfolding contains
contains-concat order p q = ground (arith, contains-append order (p ∷ []) q)

-- A path that is not cached, written at the back.
append-IsValid :
    (c : KeyCache) (path : Text) (k : CachedKey)
    → contains c.order path ≡ false
    → IsValid c
    → IsValid (record c { entries = HashMap.insert c.entries path k; order = c.order ++ path ∷ [] })
append-IsValid c path k h v = record {
  distinct = IsDistinct-insert c.entries path k v.distinct;
  unique = Unique-concat c.order path v.unique h;
  same =
      λ q. ground (arith, contains-concat c.order path q, get-insert c.entries path q k, v.same q);
  sizes = ground (
    arith,
    length-append c.order (path ∷ []),
    len-insert c.entries path k v.distinct,
    v.same path,
    v.sizes,
  );
}

pub make_room-IsValid : (c : KeyCache) (path : Text) → IsValid c → IsValid (make_room c path)
unfolding make_room
make_room-IsValid c path v = elim (Bool-cases (HashMap.contains_key c.entries path)) [
  | inl old ↦ rw old (remove_entry-IsValid c path v)
  | inr fresh ↦ elim (Bool-cases (leb c.config.max_entries (HashMap.len c.entries))) [
    | inl full ↦ rw (fresh, full) (evict_lru-IsValid c v)
    | inr room ↦ rw (fresh, room) v
  ]
]

pub remove_entry-absent :
    (c : KeyCache) (path : Text) → contains (remove_entry c path).order path ≡ false
unfolding remove_entry
remove_entry-absent c path = ground (arith, contains-retain_ne path path c.order, text_eq_refl path)

evict_first-absent :
    (c : KeyCache) (order : List Text) (path : Text)
    → contains c.order path ≡ false
    → contains (evict_first c order).order path ≡ false
unfolding evict_first remove_entry
evict_first-absent c [] path h = h
evict_first-absent c (lru_path ∷ _) path h =
    ground (arith, contains-retain_ne lru_path path c.order)

pub make_room-absent :
    (c : KeyCache) (path : Text) → IsValid c → contains (make_room c path).order path ≡ false
unfolding make_room evict_lru
make_room-absent c path v = ground (
  arith,
  remove_entry-absent c path,
  evict_first-absent c c.order path,
  v.same path,
  contains_key-eq c.entries path,
)

pub insert-IsValid :
    (c : KeyCache) (path : Text) (k : CachedKey) → IsValid c → IsValid (insert c path k)
unfolding insert
insert-IsValid c path k v =
    append-IsValid (make_room c path) path k (make_room-absent c path v)
      (make_room-IsValid c path v)

-- A hit leaves the entry with a new access time at the back, as if it were removed and written.
abbrev pub touched : KeyCache → Text → CachedKey → KeyCache
touched c path k = record c {
  entries = HashMap.insert c.entries path k;
  order = retain_ne path c.order ++ path ∷ [];
}

touched-IsValid :
    (c : KeyCache) (path : Text) (k : CachedKey) → IsValid c → IsValid (touched c path k)
unfolding remove_entry
touched-IsValid c path k v = rw (← insert-remove c.entries path k) (
    append-IsValid (remove_entry c path) path k (remove_entry-absent c path)
      (remove_entry-IsValid c path v))

pub get-IsValid : (c : KeyCache) (path : Text) (now : ℕ) → IsValid c → IsValid (get c path now).0
unfolding get move_to_back
get-IsValid c path now v = elim (Option-cases (HashMap.get c.entries path)) [
  | inl missing ↦ rw (missing, get) v
  | inr (k, found) ↦ elim (Bool-cases (is_expired k c.config.ttl now)) [
    | inl old ↦ rw (found, get, old) (remove_entry-IsValid c path v)
    | inr live ↦ rw (found, get, live) (touched-IsValid c path (touch k now) v)
  ]
]

remove_entries-IsValid :
    (paths : List Text) (c : KeyCache) → IsValid c → IsValid (remove_entries paths c)
unfolding remove_entries
remove_entries-IsValid [] c v = v
remove_entries-IsValid (p ∷ paths) c v =
    remove_entries-IsValid paths (remove_entry c p) (remove_entry-IsValid c p v)

pub evict_expired-IsValid : (c : KeyCache) (now : ℕ) → IsValid c → IsValid (evict_expired c now)
unfolding evict_expired
evict_expired-IsValid c now v =
    remove_entries-IsValid (HashMap.keys_where (λ k. is_expired k c.config.ttl now) c.entries) c v

pub clear-IsValid : (c : KeyCache) → IsValid (clear c)
unfolding clear new
clear-IsValid c = new-IsValid c.config
