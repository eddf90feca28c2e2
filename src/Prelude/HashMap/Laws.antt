-- ===== src/Prelude/HashMap/Laws.antt =====
-- What `get` returns after each operation.
use mathlib.Core.Path.{◌≡◌, refl}
use mathlib.Core.Bool.{Bool, false}
use mathlib.Core.Option.{Option, none, some}
use mathlib.Core.List.{List, [], ◌∷◌}
use native.Mathlib.Omega.{arith}
use alknet.Prelude.Tests.{if◌then◌else◌, is_some}
use alknet.Prelude.Bytes.{Text, text_eq, text_eq_iff, contains}
use alknet.Prelude.HashMap.{
  Assoc, HashMap, lookup, without, select, new, get, contains_key, insert, remove, keys_where,
  remove_all, Distinct, IsDistinct,
}

module _ {ℓ} {V : Type ℓ} where
  pub lookup-without :
      (k j : Text) (m : Assoc V)
      → lookup j (without k m) ≡ (if text_eq k j then none else lookup j m)
  unfolding lookup without
  lookup-without k j [] = ground arith
  lookup-without k j ((i, v) ∷ m) =
      ground (arith, lookup-without k j m, text_eq_iff i k, text_eq_iff i j, text_eq_iff k j)

  pub get-new : (k : Text) → get (new {V = V}) k ≡ none
  unfolding get new
  get-new k = refl

  pub get-insert :
      (m : HashMap V) (k j : Text) (v : V)
      → get (insert m k v) j ≡ (if text_eq k j then some v else get m j)
  unfolding get insert
  get-insert m k j v = ground (arith, lookup-without k j m.entries)

  pub get-remove :
      (m : HashMap V) (k j : Text) → get (remove m k) j ≡ (if text_eq k j then none else get m j)
  unfolding get remove
  get-remove m k j = lookup-without k j m.entries

  pub get-remove_all :
      (ks : List Text) (m : HashMap V) (j : Text)
      → get (remove_all ks m) j ≡ (if contains ks j then none else get m j)
  unfolding remove_all contains
  get-remove_all [] m j = refl
  get-remove_all (k ∷ ks) m j = ground (arith, get-remove_all ks (remove m k) j, get-remove m k j)

  pub contains_key-eq : (m : HashMap V) (k : Text) → contains_key m k ≡ is_some (get m k)
  unfolding contains_key
  contains_key-eq m k = refl

  abbrev pub passes : (V → Bool) → Option V → Bool
  passes p none = false
  passes p (some v) = p v

  pub contains-select :
      (p : V → Bool) (m : Assoc V) (k : Text)
      → Distinct m
      → contains (select p m) k ≡ passes p (lookup k m)
  unfolding select lookup contains Distinct
  contains-select p [] k d = refl
  contains-select p ((j, v) ∷ m) k d = ground (arith, contains-select p m k d.1, text_eq_iff j k)

  -- The keys that `keys_where` collects are those whose value passes the test.
  pub contains-keys_where :
      (p : V → Bool) (m : HashMap V) (k : Text)
      → IsDistinct m
      → contains (keys_where p m) k ≡ passes p (get m k)
  unfolding keys_where get
  contains-keys_where p m k d = contains-select p m.entries k d.distinct

pub ruleset map_laws = (get-new, get-insert, get-remove, contains_key-eq)
