-- ===== src/Secret/Cache/Lru.antt =====
-- The cache against its specification: one list of paths with their keys, the least recently used
-- first, from which a map and a separate order are gone.
pub mod Rows
use alknet.Prelude.{
  ℕ, ◌≡◌, refl, ap, sym, ◌∙◌, Bool, true, false, not, Option, none, some, List, [], ◌∷◌, ◌++◌,
  arith, length, if◌then◌else◌, is_some, leb, Text, text_eq, text_eq_iff, text_eq_refl, contains,
  Bool-cases, Option-cases, inl, inr,
}
use alknet.Prelude.HashMap
use alknet.Prelude.HashMap.{HashMap, Assoc, lookup, without}
use alknet.Prelude.HashMap.Laws.{get-insert, get-remove, contains_key-eq}
use alknet.Prelude.HashMap.Sizes.{insert-remove, without_absent}
use alknet.Secret.Cache.{
  CachedKey, CacheConfig, KeyCache, is_expired, touch, new, get, insert, evict_expired, clear,
  retain_ne, remove_entry, evict_first, evict_lru, move_to_back, make_room,
}
use alknet.Secret.Cache.Order.{Unique}
use alknet.Secret.Cache.Validity.{IsValid, remove_entry-absent, make_room-absent, touched}
use Rows.{rows, row, rows-concat, rows-insert, rows-remove, lookup-rows, length-rows}

abbrev pub Recency : Type 0
Recency = Assoc CachedKey

-- The keys of the cache in the order of their use.
unfoldable pub view : KeyCache → Recency
view c = rows c.entries c.order

abbrev pub drop_first : Recency → Recency
drop_first [] = []
drop_first (_ ∷ l) = l

pub spec_insert : ℕ → Recency → Text → CachedKey → Recency
spec_insert max_entries l path k =
    (if is_some (lookup path l)
      then without path l
      else if leb max_entries (length l)
      then drop_first l
      else l)
    ++ (path, k) ∷ []

pub spec_get : ℕ → Recency → Text → ℕ → Recency × Option CachedKey
spec_get ttl l path now = elim (lookup path l) [
  | none ↦ (l, none)
  | some k ↦
      if is_expired k ttl now
      then (without path l, none)
      else (without path l ++ (path, touch k now) ∷ [], some (touch k now))
]

module _ {c : KeyCache} (v : IsValid c) where
  lookup-view : (path : Text) → lookup path (view c) ≡ HashMap.get c.entries path
  unfolding view
  lookup-view path = ground (arith, lookup-rows c.entries c.order path, v.same path)

  length-view : length (view c) ≡ HashMap.len c.entries
  unfolding view
  length-view = length-rows c.entries c.order (λ q h. sym (v.same q) ∙ h) ∙ sym v.sizes

pub view-remove_entry :
    (c : KeyCache) (path : Text) → view (remove_entry c path) ≡ without path (view c)
unfolding view remove_entry
view-remove_entry c path = rows-remove c.entries path c.order

-- Writing a path that is not in the order puts its row at the end.
view-concat :
    (c : KeyCache) (path : Text) (k : CachedKey)
    → contains c.order path ≡ false
    → view (record c { entries = HashMap.insert c.entries path k; order = c.order ++ path ∷ [] })
      ≡ view c ++ (path, k) ∷ []
unfolding view
view-concat c path k h = ground (
  arith,
  rows-concat (HashMap.insert c.entries path k) c.order path,
  rows-insert c.entries path k c.order h,
  get-insert c.entries path path k,
  text_eq_refl path,
)

-- The first path of the order is the first row, and its removal drops that row.
drop_first-without :
    (m : HashMap CachedKey) (path : Text) (order : List Text)
    → contains order path ≡ false
    → is_some (HashMap.get m path) ≡ true
    → without path (rows m (path ∷ order)) ≡ drop_first (rows m (path ∷ order))
unfolding rows without
drop_first-without m path order h present =
    ground (arith, text_eq_refl path, without_absent path (rows m order), lookup-rows m order path)

view-evict_first :
    (c : KeyCache) (order : List Text)
    → c.order ≡ order
    → Unique order
    → ((q : Text) → contains order q ≡ is_some (HashMap.get c.entries q))
    → view (evict_first c order) ≡ drop_first (rows c.entries order)
unfolding evict_first view contains rows
view-evict_first c [] e u same = ap (rows c.entries) e ∙ refl
view-evict_first c (p ∷ order) e u same =
    view-remove_entry c p
    ∙ ap (λ o. without p (rows c.entries o)) e
    ∙ drop_first-without c.entries p order u.0 (ground (arith, same p, text_eq_refl p))

view-evict_lru : {c : KeyCache} → IsValid c → view (evict_lru c) ≡ drop_first (view c)
unfolding evict_lru view
view-evict_lru {c} v = view-evict_first c c.order refl v.unique v.same

view-make_room :
    {c : KeyCache} (path : Text)
    → IsValid c
    → view (make_room c path) ≡ (
        if is_some (lookup path (view c))
        then without path (view c)
        else if leb c.config.max_entries (length (view c))
        then drop_first (view c)
        else view c)
unfolding make_room
view-make_room {c} path v = ground (
  arith,
  lookup-view v path,
  length-view v,
  contains_key-eq c.entries path,
  view-remove_entry c path,
  view-evict_lru v,
)

pub view-insert :
    {c : KeyCache} (path : Text) (k : CachedKey)
    → IsValid c
    → view (insert c path k) ≡ spec_insert c.config.max_entries (view c) path k
unfolding insert spec_insert
view-insert {c} path k v =
    view-concat (make_room c path) path k (make_room-absent c path v)
    ∙ ap (λ l. l ++ (path, k) ∷ []) (view-make_room path v)

view-touched :
    (c : KeyCache) (path : Text) (k : CachedKey)
    → view (touched c path k) ≡ without path (view c) ++ (path, k) ∷ []
unfolding remove_entry
view-touched c path k = rw (← insert-remove c.entries path k) (
    view-concat (remove_entry c path) path k (remove_entry-absent c path)
    ∙ ap (λ l. l ++ (path, k) ∷ []) (view-remove_entry c path))

pub view-get :
    {c : KeyCache} (path : Text) (now : ℕ)
    → IsValid c
    → (view (get c path now).0 ≡ (spec_get c.config.ttl (view c) path now).0)
      × ((get c path now).1 ≡ (spec_get c.config.ttl (view c) path now).1)
unfolding get move_to_back spec_get
view-get {c} path now v = elim (Option-cases (HashMap.get c.entries path)) [
  | inl missing ↦ ground (arith, lookup-view v path)
  | inr (k, found) ↦ elim (Bool-cases (is_expired k c.config.ttl now)) [
    | inl old ↦ ground (arith, lookup-view v path, view-remove_entry c path)
    | inr live ↦ ground (
      arith,
      lookup-view v path,
      view-touched c path (touch k now),
      get-insert c.entries path path (touch k now),
      text_eq_refl path,
    )
  ]
]

pub view-new : (config : CacheConfig) → view (new config) ≡ []
unfolding view new rows
view-new config = refl

pub view-clear : (c : KeyCache) → view (clear c) ≡ []
unfolding view clear rows
view-clear c = refl
