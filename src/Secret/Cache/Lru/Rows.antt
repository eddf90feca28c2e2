-- ===== src/Secret/Cache/Lru/Rows.antt =====
-- What an access order and a map of keys show together.
use alknet.Prelude.{
  ◌≡◌, refl, true, false, Option, none, some, List, [], ◌∷◌, ◌++◌, arith, length, if◌then◌else◌,
  is_some, Text, text_eq_iff, text_eq_refl, contains,
}
use alknet.Prelude.HashMap
use alknet.Prelude.HashMap.{HashMap, Assoc, lookup, without}
use alknet.Prelude.HashMap.Laws.{get-insert, get-remove}
use alknet.Secret.Cache.{CachedKey, retain_ne}

abbrev pub row : Text → Option CachedKey → Assoc CachedKey → Assoc CachedKey
row q none rest = rest
row q (some k) rest = (q, k) ∷ rest

-- The keys of the map, in the access order.
unfoldable pub rows : HashMap CachedKey → List Text → Assoc CachedKey
rows m [] = []
rows m (q ∷ order) = row q (HashMap.get m q) (rows m order)

module _ (m : HashMap CachedKey) where
  pub rows-concat :
      (order : List Text) (q : Text)
      → rows m (order ++ q ∷ []) ≡ rows m order ++ row q (HashMap.get m q) []
  unfolding rows
  rows-concat [] q = refl
  rows-concat (p ∷ order) q = ground (arith, rows-concat order q)

  pub rows-insert :
      (path : Text) (k : CachedKey) (order : List Text)
      → contains order path ≡ false
      → rows (HashMap.insert m path k) order ≡ rows m order
  unfolding rows contains
  rows-insert path k [] h = refl
  rows-insert path k (p ∷ order) h = ground (
    arith,
    rows-insert path k order,
    get-insert m path p k,
    text_eq_iff p path,
    text_eq_iff path p,
  )

  pub rows-remove :
      (path : Text) (order : List Text)
      → rows (HashMap.remove m path) (retain_ne path order) ≡ without path (rows m order)
  unfolding rows retain_ne without
  rows-remove path [] = refl
  rows-remove path (p ∷ order) =
      ground
        (arith, rows-remove path order, get-remove m path p, text_eq_iff p path, text_eq_iff path p)

  pub lookup-rows :
      (order : List Text) (q : Text)
      → lookup q (rows m order) ≡ (if contains order q then HashMap.get m q else none)
  unfolding rows lookup contains
  lookup-rows [] q = refl
  lookup-rows (p ∷ order) q = ground (arith, lookup-rows order q, text_eq_iff p q)

  pub length-rows :
      (order : List Text)
      → ((q : Text) → contains order q ≡ true → is_some (HashMap.get m q) ≡ true)
      → length (rows m order) ≡ length order
  unfolding rows contains
  length-rows [] h = refl
  length-rows (p ∷ order) h =
      ground
        (arith, length-rows order (λ q i. h q (ground arith)), h p (ground (arith, text_eq_refl p)))
