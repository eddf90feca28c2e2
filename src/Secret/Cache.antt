-- ===== src/Secret/Cache.antt =====
-- crates/alknet-secret/src/cache.rs: the key cache with a time to live and eviction of the least
-- recently used key. Instants and durations are numbers of nanoseconds. An operation takes the
-- reading of `Instant::now()` as its last argument, one for the whole call.
mod Order
pub mod Validity
pub mod Lru
pub mod Trace
pub mod Bounds
pub mod Contents
use alknet.Prelude.{
  ℕ, ◌-◌, ◌*◌, ◌^◌, Bool, Option, none, some, List, [], ◌∷◌, ◌++◌, ltb, leb, if◌then◌else◌, Text,
  not, text_eq,
}
use alknet.Prelude.HashMap
use alknet.Prelude.HashMap.{HashMap}

-- `KeyType` of protocol.rs
pub data KeyType : Type 0 where
  ed25519 aes256_gcm secp256k1 : KeyType

abbrev pub default_ttl : ℕ
default_ttl = 3600 * 10 ^ 9

abbrev pub default_max_entries : ℕ
default_max_entries = 64

pub record CachedKey : Type 0 where
  pub derived_at : ℕ
  pub key_type : KeyType
  pub private_key : List ℕ
  pub public_key : List ℕ
  pub last_accessed : ℕ

-- `CachedKey::new`
abbrev pub cached_key : KeyType → List ℕ → List ℕ → ℕ → CachedKey
cached_key key_type private_key public_key now = record {
  derived_at = now;
  key_type = key_type;
  private_key = private_key;
  public_key = public_key;
  last_accessed = now;
}

-- `duration_since` stops at zero, as `-` does.
unfoldable pub is_expired : CachedKey → ℕ → ℕ → Bool
is_expired k ttl now = ltb ttl (now - k.derived_at)

abbrev pub touch : CachedKey → ℕ → CachedKey
touch k now = record k { last_accessed = now }

pub record CacheConfig : Type 0 where
  pub ttl : ℕ
  pub max_entries : ℕ

abbrev pub default_config : CacheConfig
default_config = record { ttl = default_ttl; max_entries = default_max_entries }

pub record KeyCache : Type 0 where
  pub entries : HashMap CachedKey
  pub order : List Text
  pub config : CacheConfig

unfoldable pub new : CacheConfig → KeyCache
new config = record { entries = HashMap.new; order = []; config = config }

-- `order.retain(|p| p != path)`
pub retain_ne : Text → List Text → List Text
retain_ne path [] = []
retain_ne path (p ∷ order) =
    let rest = retain_ne path order in if not (text_eq p path) then p ∷ rest else rest

pub remove_entry : KeyCache → Text → KeyCache
unfolding retain_ne
remove_entry c path = record c {
  entries = HashMap.remove c.entries path;
  order = retain_ne path c.order;
}

-- `if let Some(lru_path) = order.first()`
pub evict_first : KeyCache → List Text → KeyCache
unfolding remove_entry
evict_first c [] = c
evict_first c (lru_path ∷ _) = remove_entry c lru_path

pub evict_lru : KeyCache → KeyCache
unfolding evict_first
evict_lru c = evict_first c c.order

pub move_to_back : KeyCache → Text → KeyCache
unfolding retain_ne
move_to_back c path = record c { order = retain_ne path c.order ++ path ∷ [] }

unfoldable pub get : KeyCache → Text → ℕ → KeyCache × Option CachedKey
unfolding remove_entry move_to_back is_expired
get c path now = elim (HashMap.get c.entries path) [
  | none ↦ (c, none)
  | some entry ↦
      if is_expired entry c.config.ttl now
      then (remove_entry c path, none)
      else (let touched = record c { entries = HashMap.insert c.entries path (touch entry now) } in
          let c' = move_to_back touched path in (c', HashMap.get c'.entries path))
]

-- The room that `insert` makes before it writes.
pub make_room : KeyCache → Text → KeyCache
unfolding remove_entry evict_lru
make_room c path =
    if HashMap.contains_key c.entries path
    then remove_entry c path
    else if leb c.config.max_entries (HashMap.len c.entries)
    then evict_lru c
    else c

unfoldable pub insert : KeyCache → Text → CachedKey → KeyCache
unfolding make_room
insert c path key =
    let c' = make_room c path in
    record c' { entries = HashMap.insert c'.entries path key; order = c'.order ++ path ∷ [] }

pub remove_entries : List Text → KeyCache → KeyCache
unfolding remove_entry
remove_entries [] c = c
remove_entries (path ∷ expired) c = remove_entries expired (remove_entry c path)

unfoldable pub evict_expired : KeyCache → ℕ → KeyCache
unfolding remove_entries is_expired
evict_expired c now =
    remove_entries (HashMap.keys_where (λ v. is_expired v c.config.ttl now) c.entries) c

unfoldable pub clear : KeyCache → KeyCache
clear c = record c { entries = HashMap.new; order = [] }

unfoldable pub len : KeyCache → ℕ
len c = HashMap.len c.entries
