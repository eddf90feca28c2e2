-- ===== src/Secret/Cache/Trace.antt =====
-- Whole runs of the cache against runs of its specification.
use alknet.Prelude.{
  ℕ, ◌≡◌, refl, ap, ◌∙◌, Option, List, [], ◌∷◌, arith, if◌then◌else◌, Text, text_eq_iff, contains,
}
use alknet.Prelude.HashMap
use alknet.Prelude.HashMap.{HashMap, Assoc, lookup, without}
use alknet.Prelude.HashMap.Laws.{contains-keys_where, passes}
use alknet.Secret.Cache.{
  CachedKey, CacheConfig, KeyCache, is_expired, new, get, insert, evict_expired, clear,
  remove_entry, remove_entries, evict_first, evict_lru, make_room,
}
use alknet.Secret.Cache.Validity.{
  IsValid, new-IsValid, insert-IsValid, get-IsValid, evict_expired-IsValid, clear-IsValid,
}
use alknet.Secret.Cache.Lru.{
  Recency, view, spec_insert, spec_get, view-insert, view-get, view-remove_entry, view-new,
  view-clear,
}
use alknet.Secret.Cache.Lru.Rows.{rows}

-- The rows that have not expired.
pub spec_evict_expired : ℕ → Recency → ℕ → Recency
spec_evict_expired ttl [] now = []
spec_evict_expired ttl ((p, k) ∷ l) now =
    let rest = spec_evict_expired ttl l now in if is_expired k ttl now then rest else (p, k) ∷ rest

outside : List Text → Recency → Recency
outside ps [] = []
outside ps ((p, k) ∷ l) = let rest = outside ps l in if contains ps p then rest else (p, k) ∷ rest

outside-nil : (l : Recency) → outside [] l ≡ l
unfolding outside contains
outside-nil [] = refl
outside-nil (r ∷ l) = ap (◌∷◌ r) (outside-nil l)

outside-cons :
    (p : Text) (ps : List Text) (l : Recency) → outside ps (without p l) ≡ outside (p ∷ ps) l
unfolding outside without contains
outside-cons p ps [] = refl
outside-cons p ps ((q, k) ∷ l) =
    ground (arith, outside-cons p ps l, text_eq_iff q p, text_eq_iff p q)

view-remove_entries :
    (ps : List Text) (c : KeyCache) → view (remove_entries ps c) ≡ outside ps (view c)
unfolding remove_entries
view-remove_entries [] c = ground (arith, outside-nil (view c))
view-remove_entries (p ∷ ps) c =
    view-remove_entries ps (remove_entry c p)
    ∙ ap (outside ps) (view-remove_entry c p)
    ∙ outside-cons p ps (view c)

outside-rows :
    (ps : List Text) (ttl now : ℕ) (m : HashMap CachedKey) (order : List Text)
    → ((q : Text) → contains ps q ≡ passes (λ k. is_expired k ttl now) (HashMap.get m q))
    → outside ps (rows m order) ≡ spec_evict_expired ttl (rows m order) now
unfolding outside rows spec_evict_expired
outside-rows ps ttl now m [] h = refl
outside-rows ps ttl now m (q ∷ order) h = ground (arith, outside-rows ps ttl now m order h, h q)

outside-view :
    (ps : List Text) (ttl now : ℕ) (c : KeyCache)
    → ((q : Text) → contains ps q ≡ passes (λ k. is_expired k ttl now) (HashMap.get c.entries q))
    → outside ps (view c) ≡ spec_evict_expired ttl (view c) now
unfolding view
outside-view ps ttl now c h = outside-rows ps ttl now c.entries c.order h

view-evict_expired :
    {c : KeyCache} (now : ℕ)
    → IsValid c
    → view (evict_expired c now) ≡ spec_evict_expired c.config.ttl (view c) now
unfolding evict_expired
view-evict_expired {c} now v =
    let stale = HashMap.keys_where (λ k. is_expired k c.config.ttl now) c.entries in
    view-remove_entries stale c
    ∙ outside-view stale c.config.ttl now c
        (λ q. contains-keys_where (λ k. is_expired k c.config.ttl now) c.entries q v.distinct)

pub data Op : Type 0 where
  get_key : Text → ℕ → Op
  put_key : Text → CachedKey → Op
  evict_stale : ℕ → Op
  clear_all : Op

-- What the calls of `get` return, in turn.
pub run : KeyCache → List Op → List (Option CachedKey)
run c [] = []
run c (get_key path now ∷ ops) = (get c path now).1 ∷ run (get c path now).0 ops
run c (put_key path k ∷ ops) = run (insert c path k) ops
run c (evict_stale now ∷ ops) = run (evict_expired c now) ops
run c (clear_all ∷ ops) = run (clear c) ops

pub spec_run : CacheConfig → Recency → List Op → List (Option CachedKey)
spec_run g l [] = []
spec_run g l (get_key path now ∷ ops) =
    (spec_get g.ttl l path now).1 ∷ spec_run g (spec_get g.ttl l path now).0 ops
spec_run g l (put_key path k ∷ ops) = spec_run g (spec_insert g.max_entries l path k) ops
spec_run g l (evict_stale now ∷ ops) = spec_run g (spec_evict_expired g.ttl l now) ops
spec_run g l (clear_all ∷ ops) = spec_run g [] ops

config-evict_first : (c : KeyCache) (order : List Text) → (evict_first c order).config ≡ c.config
unfolding evict_first remove_entry
config-evict_first c [] = refl
config-evict_first c (p ∷ _) = refl

config-make_room : (c : KeyCache) (path : Text) → (make_room c path).config ≡ c.config
unfolding make_room evict_lru remove_entry
config-make_room c path = ground (arith, config-evict_first c c.order)

config-new : (config : CacheConfig) → (new config).config ≡ config
unfolding new
config-new config = refl

config-clear : (c : KeyCache) → (clear c).config ≡ c.config
unfolding clear
config-clear c = refl

config-insert : (c : KeyCache) (path : Text) (k : CachedKey) → (insert c path k).config ≡ c.config
unfolding insert
config-insert c path k = config-make_room c path

config-get : (c : KeyCache) (path : Text) (now : ℕ) → (get c path now).0.config ≡ c.config
unfolding get
config-get c path now = ground arith

config-remove_entries : (ps : List Text) (c : KeyCache) → (remove_entries ps c).config ≡ c.config
unfolding remove_entries remove_entry
config-remove_entries [] c = refl
config-remove_entries (p ∷ ps) c = config-remove_entries ps (remove_entry c p)

config-evict_expired : (c : KeyCache) (now : ℕ) → (evict_expired c now).config ≡ c.config
unfolding evict_expired
config-evict_expired c now =
    config-remove_entries (HashMap.keys_where (λ k. is_expired k c.config.ttl now) c.entries) c

run-eq-spec_run_from :
    (ops : List Op) (c : KeyCache) (g : CacheConfig)
    → c.config ≡ g
    → IsValid c
    → run c ops ≡ spec_run g (view c) ops
unfolding run spec_run
run-eq-spec_run_from [] c g e v = refl
run-eq-spec_run_from (get_key path now ∷ ops) c g e v =
    let c' = (get c path now).0 in
    ground (
      arith,
      view-get path now v,
      run-eq-spec_run_from ops c' g (config-get c path now ∙ e) (get-IsValid c path now v),
    )
run-eq-spec_run_from (put_key path k ∷ ops) c g e v = ground (
  arith,
  view-insert path k v,
  run-eq-spec_run_from ops (insert c path k) g (config-insert c path k ∙ e)
      (insert-IsValid c path k v),
)
run-eq-spec_run_from (evict_stale now ∷ ops) c g e v = ground (
  arith,
  view-evict_expired now v,
  run-eq-spec_run_from ops (evict_expired c now) g (config-evict_expired c now ∙ e)
      (evict_expired-IsValid c now v),
)
run-eq-spec_run_from (clear_all ∷ ops) c g e v = ground (
  arith,
  view-clear c,
  run-eq-spec_run_from ops (clear c) g (config-clear c ∙ e) (clear-IsValid c),
)

-- From an empty cache, every sequence of calls of `get`, `insert`, `evict_expired` and `clear`
-- returns from its `get`s what the same calls return on the single list of the specification.
pub run-eq-spec_run :
    (config : CacheConfig) (ops : List Op) → run (new config) ops ≡ spec_run config [] ops
run-eq-spec_run config ops =
    run-eq-spec_run_from ops (new config) config (config-new config) (new-IsValid config)
    ∙ ap (λ l. spec_run config l ops) (view-new config)
