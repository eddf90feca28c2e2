-- ===== src/Prelude/Split.antt =====
-- Cutting text at a byte, and trimming a byte off its ends.
use alknet.Prelude.Decimal.{decimal, is_digit, all-decimal}
use Prim.Native.Nat.{ℕ}
use mathlib.Core.Path.{◌≡◌, refl}
use mathlib.Core.Bool.{Bool, true, false, not}
use mathlib.Core.List.{[], ◌∷◌, ◌++◌}
use native.Mathlib.Omega.{arith}
use alknet.Prelude.Tests.{◌==◌, if◌then◌else◌}
use alknet.Prelude.Lists.{all}
use alknet.Prelude.Bytes.{Text, split_on}

-- No byte of the text is `c`.
abbrev pub lacks : ℕ → Text → Bool
lacks c = all (λ b. not (b == c))

pub split_on_of_lacks : (sep : ℕ) (s : Text) → lacks sep s ≡ true → split_on sep s ≡ s ∷ []
unfolding split_on
split_on_of_lacks sep [] h = refl
split_on_of_lacks sep (c ∷ s) h = ground (arith, split_on_of_lacks sep s)

pub split_on-append :
    (sep : ℕ) (s t : Text) → lacks sep s ≡ true → split_on sep (s ++ sep ∷ t) ≡ s ∷ split_on sep t
unfolding split_on
split_on-append sep [] t h = ground arith
split_on-append sep (c ∷ s) t h = ground (arith, split_on-append sep s t)

-- `s.trim_end_matches(c)`
unfoldable pub trim_end : ℕ → Text → Text
trim_end c [] = []
trim_end c (b ∷ s) =
    let t = trim_end c s in elim t [ [] ↦ (if b == c then [] else b ∷ []) | d ∷ u ↦ b ∷ d ∷ u ]

-- `s.trim_start_matches(c)`
unfoldable pub trim_start : ℕ → Text → Text
trim_start c [] = []
trim_start c (b ∷ s) = let t = trim_start c s in if b == c then t else b ∷ s

-- `s.ends_with(c)`
unfoldable pub ends_with_byte : ℕ → Text → Bool
ends_with_byte c [] = false
ends_with_byte c (b ∷ []) = b == c
ends_with_byte c (b ∷ d ∷ s) = ends_with_byte c (d ∷ s)

pub trim_end_of_lacks : (c : ℕ) (s : Text) → lacks c s ≡ true → trim_end c s ≡ s
unfolding trim_end
trim_end_of_lacks c [] h = refl
trim_end_of_lacks c (b ∷ []) h = ground arith
trim_end_of_lacks c (b ∷ d ∷ s) h = ground (arith, trim_end_of_lacks c (d ∷ s))

pub trim_end-concat : (c : ℕ) (s : Text) → lacks c s ≡ true → trim_end c (s ++ c ∷ []) ≡ s
unfolding trim_end
trim_end-concat c [] h = ground arith
trim_end-concat c (b ∷ []) h = ground arith
trim_end-concat c (b ∷ d ∷ s) h = ground (arith, trim_end-concat c (d ∷ s))

pub ends_with_byte_of_lacks : (c : ℕ) (s : Text) → lacks c s ≡ true → ends_with_byte c s ≡ false
unfolding ends_with_byte
ends_with_byte_of_lacks c [] h = refl
ends_with_byte_of_lacks c (b ∷ []) h = ground arith
ends_with_byte_of_lacks c (b ∷ d ∷ s) h = ground (arith, ends_with_byte_of_lacks c (d ∷ s))

pub ends_with_byte-concat : (c : ℕ) (s : Text) → ends_with_byte c (s ++ c ∷ []) ≡ true
unfolding ends_with_byte
ends_with_byte-concat c [] = ground arith
ends_with_byte-concat c (b ∷ []) = ground arith
ends_with_byte-concat c (b ∷ d ∷ s) = ends_with_byte-concat c (d ∷ s)

lacks_of_digits : (c : ℕ) (s : Text) → is_digit c ≡ false → all is_digit s ≡ true → lacks c s ≡ true
lacks_of_digits c [] n h = refl
lacks_of_digits c (b ∷ s) n h = ground (arith, lacks_of_digits c s n)

-- No other byte than a digit is printed of a number.
pub lacks-decimal : (c n : ℕ) → is_digit c ≡ false → lacks c (decimal n) ≡ true
lacks-decimal c n h = lacks_of_digits c (decimal n) h (all-decimal n)
