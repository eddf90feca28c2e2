-- ===== src/Prelude/HashMap.antt =====
-- `std::collections::HashMap` with string keys, as an association list whose keys are distinct.
-- The order in which a hash map is walked is unspecified; here it is the order of `entries`.
pub mod Laws
pub mod Sizes
pub mod Sweep
use Prim.Native.Nat.{ℕ}
use mathlib.Core.Path.{◌≡◌}
use mathlib.Core.Bool.{Bool, true, false}
use mathlib.Core.Option.{Option, none, some}
use mathlib.Core.List.{List, [], ◌∷◌}
use alknet.Prelude.Tests.{if◌then◌else◌, is_some}
use alknet.Prelude.Lists.{length}
use alknet.Prelude.Bytes.{Text, text_eq}

abbrev pub Assoc {ℓ} : Type ℓ → Type ℓ
Assoc V = List (Text × V)

pub record HashMap {ℓ} (V : Type ℓ) : Type ℓ where
  pub entries : Assoc V

module _ {ℓ} {V : Type ℓ} where
  unfoldable pub lookup : Text → Assoc V → Option V
  lookup k [] = none
  lookup k ((j, v) ∷ m) = if text_eq j k then some v else lookup k m

  unfoldable pub without : Text → Assoc V → Assoc V
  without k [] = []
  without k ((j, v) ∷ m) = let rest = without k m in if text_eq j k then rest else (j, v) ∷ rest

  pub select : (V → Bool) → Assoc V → List Text
  select p [] = []
  select p ((k, v) ∷ m) = let rest = select p m in if p v then k ∷ rest else rest

  unfoldable pub new : HashMap V
  new = record { entries = [] }

  unfoldable pub get : HashMap V → Text → Option V
  unfolding lookup text_eq
  get m k = lookup k m.entries

  unfoldable pub contains_key : HashMap V → Text → Bool
  unfolding get
  contains_key m k = is_some (get m k)

  unfoldable pub insert : HashMap V → Text → V → HashMap V
  unfolding without text_eq
  insert m k v = record { entries = (k, v) ∷ without k m.entries }

  unfoldable pub remove : HashMap V → Text → HashMap V
  unfolding without text_eq
  remove m k = record { entries = without k m.entries }

  unfoldable pub len : HashMap V → ℕ
  len m = length m.entries

  -- The keys of the entries that pass a test: `iter().filter(p).map(|(k, _)| k.clone())`.
  unfoldable pub keys_where : (V → Bool) → HashMap V → List Text
  unfolding select
  keys_where p m = select p m.entries

  -- `for k in ks { m.remove(k); }`
  unfoldable pub remove_all : List Text → HashMap V → HashMap V
  unfolding remove
  remove_all [] m = m
  remove_all (k ∷ ks) m = remove_all ks (remove m k)

  pub Distinct : Assoc V → Type 0
  unfolding lookup
  Distinct [] = Unit
  Distinct ((k, v) ∷ m) = (is_some (lookup k m) ≡ false) × Distinct m

-- No key stands twice.
pub record IsDistinct {ℓ} {V : Type ℓ} (m : HashMap V) : Type 0 where
  distinct : Distinct m.entries
