-- ===== src/Prelude.antt =====
-- The names that the other modules share: the libraries', passed on, and those of the children.
mod Tests
mod Lists
mod Bytes
mod Outcome
pub mod HashMap
pub mod Affix
pub mod BigEndian
pub mod Decimal
pub mod Split
pub use Tests.*
pub use Lists.*
pub use Outcome.*
pub use Bytes.{Text, text, starts_with, ends_with, text_eq_iff, text_eq_refl}
pub use Bytes.{contains-append, starts_with-append, text_eq_sym, text_eq-false}
unfoldable pub use Bytes.{text_eq, contains, split_on}
pub use Prim.Native.Nat.{ℕ, zero, suc, ◌+◌, ◌-◌, ◌*◌, ◌/◌, ◌%◌, ◌^◌, ◌≤◌, ◌<◌}
pub use mathlib.Core.Path.{◌≡◌, refl, sym, ap, ◌∙◌, subst, subst₂}
pub use mathlib.Core.Logic.{◌≢◌, ◌↔◌, ◌⊎◌, inl, inr}
pub use mathlib.Core.Bool.{Bool, true, false, not, ◌&&◌, ◌||◌}
pub use mathlib.Core.Option.{Option, none, some}
pub use mathlib.Core.List.{List, [], ◌∷◌, ◌++◌, map, append_assoc, append-nil}
pub use native.Mathlib.Omega.{arith}
