-- ===== src/Prelude/Decimal.antt =====
-- Decimal numbers: `Display` and `FromStr` of Rust's unsigned integers.
use Prim.Native.Nat.{ℕ, zero, suc, ◌+◌, ◌-◌, ◌*◌, ◌/◌, ◌%◌, ◌≤◌, ◌<◌}
use mathlib.Core.Path.{◌≡◌, refl, ◌∙◌}
use mathlib.Core.Logic.{◌≢◌}
use mathlib.Core.Bool.{Bool, true, ◌&&◌}
use mathlib.Core.Option.{Option, none, some}
use mathlib.Core.List.{[], ◌∷◌}
use native.Mathlib.Omega.{arith}
use alknet.Prelude.Tests.{ltb, leb, ◌==◌, if◌then◌else◌}
use alknet.Prelude.Lists.{all}
use alknet.Prelude.Bytes.{Text}

abbrev pub is_digit : ℕ → Bool
is_digit c = leb b'0' c && leb c b'9'

-- The digits of `n` in front of `rest`; `n + 1` rounds are enough, since each divides by ten.
digits : ℕ → ℕ → Text → Text
digits zero n rest = rest
digits (suc fuel) n rest =
    let more = digits fuel (n / 10) ((b'0' + n % 10) ∷ rest) in
    if ltb n 10 then (b'0' + n) ∷ rest else more

-- `format!("{}", n)`
unfoldable pub decimal : ℕ → Text
unfolding digits
decimal n = digits (suc n) n []

-- The loop of `from_str` for a type whose largest value is `most`.
scan : ℕ → Text → ℕ → Option ℕ
scan most [] n = some n
scan most (c ∷ s) n =
    let n' = n * 10 + (c - b'0') in
    let rest = scan most s n' in if is_digit c then (if ltb most n' then none else rest) else none

-- `s.parse::<uN>()`: one leading `+` is accepted, and a number above `most` is an error.
unfoldable pub parse_uint : ℕ → Text → Option ℕ
unfolding scan
parse_uint most [] = none
parse_uint most (c ∷ []) = scan most (c ∷ []) 0
parse_uint most (c ∷ d ∷ s) = if c == b'+' then scan most (d ∷ s) 0 else scan most (c ∷ d ∷ s) 0

scan-digits :
    (most fuel n : ℕ) (rest : Text)
    → n ≤ most
    → n < fuel
    → scan most (digits fuel n rest) 0 ≡ scan most rest n
unfolding scan digits
scan-digits most zero n rest h lt = elim lt [ ]
scan-digits most (suc fuel) n rest h lt =
    ground (arith, scan-digits most fuel (n / 10) ((b'0' + n % 10) ∷ rest))

all-digits :
    (fuel n : ℕ) (rest : Text) → all is_digit rest ≡ true → all is_digit (digits fuel n rest) ≡ true
unfolding digits
all-digits zero n rest h = h
all-digits (suc fuel) n rest h = ground (arith, all-digits fuel (n / 10) ((b'0' + n % 10) ∷ rest))

-- The text of a number holds digits only.
pub all-decimal : (n : ℕ) → all is_digit (decimal n) ≡ true
unfolding decimal
all-decimal n = all-digits (suc n) n [] refl

parse_uint-eq-scan :
    (most : ℕ) (s : Text) → all is_digit s ≡ true → s ≢ [] → parse_uint most s ≡ scan most s 0
unfolding parse_uint
parse_uint-eq-scan most [] h e = absurd (e refl)
parse_uint-eq-scan most (c ∷ []) h e = refl
parse_uint-eq-scan most (c ∷ d ∷ s) h e = ground arith

digits-ne-nil : (fuel n : ℕ) (rest : Text) → rest ≢ [] → digits fuel n rest ≢ []
unfolding digits
digits-ne-nil zero n rest h = h
digits-ne-nil (suc fuel) n rest h =
    ground (arith, digits-ne-nil fuel (n / 10) ((b'0' + n % 10) ∷ rest))

decimal-ne-nil : (n : ℕ) → decimal n ≢ []
unfolding decimal digits
decimal-ne-nil n = ground (arith, digits-ne-nil n (n / 10) ((b'0' + n % 10) ∷ []) (λ e. cc e))

-- A printed number is read back.
pub parse_uint-decimal : (most n : ℕ) → n ≤ most → parse_uint most (decimal n) ≡ some n
unfolding decimal scan
parse_uint-decimal most n h =
    parse_uint-eq-scan most (decimal n) (all-decimal n) (decimal-ne-nil n)
    ∙ scan-digits most (suc n) n [] h (omega arith)

scan-le : (most : ℕ) (s : Text) (n m : ℕ) → n ≤ most → scan most s n ≡ some m → m ≤ most
unfolding scan
scan-le most [] n m h e = ground arith
scan-le most (c ∷ s) n m h e = ground (arith, scan-le most s (n * 10 + (c - b'0')) m)

-- What is read is in range.
pub parse_uint-le : (most : ℕ) (s : Text) (n : ℕ) → parse_uint most s ≡ some n → n ≤ most
unfolding parse_uint
parse_uint-le most [] n e = ground arith
parse_uint-le most (c ∷ []) n e = scan-le most (c ∷ []) 0 n (omega arith) e
parse_uint-le most (c ∷ d ∷ s) n e =
    ground (arith, scan-le most (d ∷ s) 0 n, scan-le most (c ∷ d ∷ s) 0 n)
