-- ===== src/Secret/Cache/Order.antt =====
-- The access order as a list without repetitions.
use alknet.Prelude.{
  ◌+◌, ◌≡◌, refl, false, List, [], ◌∷◌, ◌++◌, arith, length, if◌then◌else◌, Text, text_eq,
  text_eq_iff, contains, contains-append,
}
use alknet.Secret.Cache.{retain_ne}

abbrev pub Unique : List Text → Type 0
Unique [] = Unit
Unique (p ∷ order) = (contains order p ≡ false) × Unique order

pub contains-retain_ne :
    (path q : Text) (order : List Text)
    → contains (retain_ne path order) q ≡ (if text_eq path q then false else contains order q)
unfolding retain_ne contains
contains-retain_ne path q [] = ground arith
contains-retain_ne path q (p ∷ order) = ground (
  arith,
  contains-retain_ne path q order,
  text_eq_iff p path,
  text_eq_iff path q,
  text_eq_iff p q,
)

pub retain_ne_absent :
    (path : Text) (order : List Text) → contains order path ≡ false → retain_ne path order ≡ order
unfolding retain_ne contains
retain_ne_absent path [] h = refl
retain_ne_absent path (p ∷ order) h = ground (arith, retain_ne_absent path order)

pub Unique-retain_ne :
    (path : Text) (order : List Text) → Unique order → Unique (retain_ne path order)
unfolding retain_ne
Unique-retain_ne path [] u = tt
Unique-retain_ne path (p ∷ order) u =
    ground (arith, Unique-retain_ne path order u.1, contains-retain_ne path p order)

pub length-retain_ne :
    (path : Text) (order : List Text)
    → Unique order
    → length (retain_ne path order) + (if contains order path then 1 else 0) ≡ length order
unfolding retain_ne contains
length-retain_ne path [] u = refl
length-retain_ne path (p ∷ order) u =
    ground (arith, length-retain_ne path order u.1, retain_ne_absent path order, text_eq_iff p path)

pub Unique-concat :
    (order : List Text) (path : Text)
    → Unique order
    → contains order path ≡ false
    → Unique (order ++ path ∷ [])
unfolding contains
Unique-concat [] path u h = (refl, tt)
Unique-concat (p ∷ order) path u h = ground (
  arith,
  Unique-concat order path u.1,
  contains-append order (path ∷ []) p,
  text_eq_iff p path,
  text_eq_iff path p,
)
