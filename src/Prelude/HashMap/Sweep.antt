-- ===== src/Prelude/HashMap/Sweep.antt =====
-- How many entries are left when the keys that pass a test are removed.
use Prim.Native.Nat.{◌+◌}
use mathlib.Core.Path.{◌≡◌}
use mathlib.Core.Bool.{Bool, true, false}
use mathlib.Core.List.{List, [], ◌∷◌}
use native.Mathlib.Omega.{arith}
use alknet.Prelude.Tests.{if◌then◌else◌, is_some}
use alknet.Prelude.Lists.{length}
use alknet.Prelude.Bytes.{Text, text_eq_iff, text_eq_sym, contains}
use alknet.Prelude.HashMap.{
  Assoc, HashMap, lookup, select, get, remove, len, keys_where, remove_all, Distinct, IsDistinct,
}
use alknet.Prelude.HashMap.Laws.{get-remove, contains-select}
use alknet.Prelude.HashMap.Sizes.{len-remove, IsDistinct-remove}

module _ {ℓ} {V : Type ℓ} where
  -- Keys that stand in the table, none of them twice.
  Present : List Text → Assoc V → Type 0
  unfolding lookup contains
  Present [] m = Unit
  Present (k ∷ ks) m = (is_some (lookup k m) ≡ true) × (contains ks k ≡ false) × Present ks m

  Present-cons :
      (ks : List Text) (j : Text) (v : V) (m : Assoc V) → Present ks m → Present ks ((j, v) ∷ m)
  unfolding Present lookup
  Present-cons [] j v m h = tt
  Present-cons (k ∷ ks) j v m (there, once, rest) = (ground arith, once, Present-cons ks j v m rest)

  Present-if :
      (b : Bool) (ks : List Text) (j : Text) (v : V) (m : Assoc V)
      → Present ks ((j, v) ∷ m)
      → contains ks j ≡ false
      → Present (if b then j ∷ ks else ks) ((j, v) ∷ m)
  unfolding Present lookup
  Present-if true ks j v m h c = (ground (arith, text_eq_iff j j), c, h)
  Present-if false ks j v m h c = h

  Present-select : (p : V → Bool) (m : Assoc V) → Distinct m → Present (select p m) m
  unfolding Present select lookup Distinct
  Present-select p [] d = tt
  Present-select p ((j, v) ∷ m) (fresh, d) =
      Present-if (p v) (select p m) j v m (Present-cons (select p m) j v m (Present-select p m d))
        (ground (arith, contains-select p m j d))

  Present-remove :
      (ks : List Text) (k : Text) (m : HashMap V)
      → contains ks k ≡ false
      → Present ks m.entries
      → Present ks (remove m k).entries
  unfolding Present contains get
  Present-remove [] k m c h = tt
  Present-remove (j ∷ ks) k m c (there, once, rest) = (
    ground (arith, get-remove m k j, text_eq_sym j k),
    once,
    Present-remove ks k m (ground arith) rest,
  )

  len-remove_all :
      (ks : List Text) (m : HashMap V)
      → IsDistinct m
      → Present ks m.entries
      → length ks + len (remove_all ks m) ≡ len m
  unfolding Present remove_all get
  len-remove_all [] m d h = omega arith
  len-remove_all (k ∷ ks) m d (there, once, rest) = ground (
    arith,
    len-remove m k d,
    len-remove_all ks (remove m k) (IsDistinct-remove m k d) (Present-remove ks k m once rest),
  )

  pub len-remove_all-keys_where :
      (p : V → Bool) (m : HashMap V)
      → IsDistinct m
      → length (keys_where p m) + len (remove_all (keys_where p m) m) ≡ len m
  unfolding keys_where
  len-remove_all-keys_where p m d =
      len-remove_all (select p m.entries) m d (Present-select p m.entries d.distinct)
