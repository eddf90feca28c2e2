-- ===== src/Prelude/Outcome.antt =====
-- Rust's `Result`, with the `?` operator as `>>=`.

use mathlib.Core.Path.{◌≡◌, refl}
use mathlib.Core.Logic.{◌↔◌, ◌⊎◌, inl, inr}
use mathlib.Core.Bool.{Bool, true, false}

pub data Result {ℓ κ} (A : Type ℓ) (E : Type κ) : Type (ℓ ⊔ κ) where
  ok : A → Result A E
  err : E → Result A E

infixl 5 ◌>>=◌
abbrev pub ◌>>=◌ {ℓ κ μ} :
    {Good : Type ℓ} {Next : Type κ} {Bad : Type μ}
    → Result Good Bad
    → (Good → Result Next Bad)
    → Result Next Bad
err failure >>= next = err failure
ok value >>= next = next value

abbrev pub map_err {ℓ κ μ} :
    {A : Type ℓ} {E : Type κ} {F : Type μ} → (E → F) → Result A E → Result A F
map_err convert (err failure) = err (convert failure)
map_err convert (ok value) = ok value

infixl 5 ◌>>◌
abbrev pub ◌>>◌ {ℓ κ μ} :
    {Good : Type ℓ} {Next : Type κ} {Bad : Type μ}
    → Result Good Bad
    → Result Next Bad
    → Result Next Bad
err failure >> next = err failure
ok _ >> next = next

-- `if test { return Err(e); }`
abbrev pub refuse_if {ℓ} : {E : Type ℓ} → Bool → E → Result (Unit {0}) E
refuse_if true e = err e
refuse_if false e = ok tt

-- What follows a guard is reached where its test fails.
pub refuse_if_iff {ℓ κ} :
    {E : Type ℓ} {A : Type κ} (test : Bool) (e : E) (next : Result A E) (a : A)
    → ((refuse_if test e >> next) ≡ ok a) ↔ ((test ≡ false) × (next ≡ ok a))
refuse_if_iff true e next a = (λ h. cc, λ (off, _). cc)
refuse_if_iff false e next a = (λ h. (refl, h), λ (_, h). h)

pub map_err-ok {ℓ κ μ} :
    {A : Type ℓ} {E : Type κ} {F : Type μ} (convert : E → F) (r : Result A E) (a : A)
    → map_err convert r ≡ ok a
    → r ≡ ok a
map_err-ok convert (ok b) a h = cc
map_err-ok convert (err e) a h = cc

-- What a successful bind was made of.
pub >>=-eq-ok {ℓ κ μ} :
    {Good : Type ℓ} {Next : Type κ} {Bad : Type μ} (before : Result Good Bad)
    (next : Good → Result Next Bad) {last : Next}
    → (before >>= next) ≡ ok last
    → (first : Good) × (before ≡ ok first) × (next first ≡ ok last)
>>=-eq-ok (err failure) next whole = cc
>>=-eq-ok (ok first) next whole = (first, refl, whole)

pub ok_injective {ℓ κ} :
    {A : Type ℓ} {E : Type κ} {a b : A} → ◌≡◌ {A = Result A E} (ok a) (ok b) → a ≡ b
ok_injective h = cc

pub Result-cases {ℓ κ} :
    {A : Type ℓ} {E : Type κ} (r : Result A E) → ((a : A) × (r ≡ ok a)) ⊎ ((e : E) × (r ≡ err e))
Result-cases (ok a) = inl (a, refl)
Result-cases (err e) = inr (e, refl)

-- A call that returns, or that panics.
pub data Run (A : Type 0) : Type 0 where
  returned : A → Run A
  panicked : Run A
