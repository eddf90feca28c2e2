-- ===== src/Prelude/HashMap/Sizes.antt =====
-- Keys stay distinct, and how each operation changes the size.
use Prim.Native.Nat.{◌+◌}
use mathlib.Core.Path.{◌≡◌, refl}
use mathlib.Core.Bool.{false}
use mathlib.Core.List.{List, [], ◌∷◌}
use native.Mathlib.Omega.{arith}
use alknet.Prelude.Tests.{if◌then◌else◌, is_some}
use alknet.Prelude.Lists.{length}
use alknet.Prelude.Bytes.{Text, text_eq_iff, text_eq_refl}
use alknet.Prelude.HashMap.{
  Assoc, HashMap, lookup, without, new, get, insert, remove, len, remove_all, Distinct, IsDistinct,
}
use alknet.Prelude.HashMap.Laws.{lookup-without}

module _ {ℓ} {V : Type ℓ} where
  Distinct-without : (k : Text) (m : Assoc V) → Distinct m → Distinct (without k m)
  unfolding Distinct without
  Distinct-without k [] d = d
  Distinct-without k ((j, v) ∷ m) d = ground (arith, Distinct-without k m d.1, lookup-without k j m)

  pub IsDistinct-new : IsDistinct (new {V = V})
  unfolding new Distinct
  IsDistinct-new = record { distinct = tt }

  pub IsDistinct-remove : (m : HashMap V) (k : Text) → IsDistinct m → IsDistinct (remove m k)
  unfolding remove
  IsDistinct-remove m k d = record { distinct = Distinct-without k m.entries d.distinct }

  pub IsDistinct-insert :
      (m : HashMap V) (k : Text) (v : V) → IsDistinct m → IsDistinct (insert m k v)
  unfolding insert Distinct
  IsDistinct-insert m k v d = record {
    distinct = (
      ground (arith, lookup-without k k m.entries, text_eq_refl k),
      Distinct-without k m.entries d.distinct,
    );
  }

  pub IsDistinct-remove_all :
      (ks : List Text) (m : HashMap V) → IsDistinct m → IsDistinct (remove_all ks m)
  unfolding remove_all
  IsDistinct-remove_all [] m d = d
  IsDistinct-remove_all (k ∷ ks) m d =
      IsDistinct-remove_all ks (remove m k) (IsDistinct-remove m k d)

  pub without_absent : (k : Text) (m : Assoc V) → is_some (lookup k m) ≡ false → without k m ≡ m
  unfolding lookup without
  without_absent k [] h = refl
  without_absent k ((j, v) ∷ m) h = ground (arith, without_absent k m)

  length-without :
      (k : Text) (m : Assoc V)
      → Distinct m
      → length (without k m) + (if is_some (lookup k m) then 1 else 0) ≡ length m
  unfolding lookup without Distinct
  length-without k [] d = refl
  length-without k ((j, v) ∷ m) d =
      ground (arith, length-without k m d.1, text_eq_iff j k, without_absent k m)

  pub len-remove :
      (m : HashMap V) (k : Text)
      → IsDistinct m
      → len (remove m k) + (if is_some (get m k) then 1 else 0) ≡ len m
  unfolding len remove get
  len-remove m k d = length-without k m.entries d.distinct

  pub len-insert :
      (m : HashMap V) (k : Text) (v : V)
      → IsDistinct m
      → len (insert m k v) + (if is_some (get m k) then 1 else 0) ≡ len m + 1
  unfolding len insert get
  len-insert m k v d = omega (arith, length-without k m.entries d.distinct)

pub len-new {ℓ} : (V : Type ℓ) → len (new {V = V}) ≡ 0
unfolding len new
len-new V = refl

module _ {ℓ} {V : Type ℓ} where
  without-without : (k : Text) (m : Assoc V) → without k (without k m) ≡ without k m
  unfolding without
  without-without k [] = refl
  without-without k ((j, v) ∷ m) = ground (arith, without-without k m)

  -- Writing a key over itself is writing it after it was removed.
  pub insert-remove : (m : HashMap V) (k : Text) (v : V) → insert (remove m k) k v ≡ insert m k v
  unfolding insert remove
  insert-remove m k v = rw (without-without k m.entries)
