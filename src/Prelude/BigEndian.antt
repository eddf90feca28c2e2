-- ===== src/Prelude/BigEndian.antt =====
-- `to_be_bytes` and `from_be_bytes` of `u16` and `u32`; a number outside the range wraps, as the
-- source's `as u16` and `as u32` do.
use alknet.Prelude.{ℕ, ◌+◌, ◌*◌, ◌/◌, ◌%◌, ◌<◌, ◌≡◌, List, [], ◌∷◌, arith}

abbrev pub u16_bytes : ℕ → List ℕ
u16_bytes n = n / 256 % 256 ∷ n % 256 ∷ []

abbrev pub u16_of : ℕ → ℕ → ℕ
u16_of a b = a * 256 + b

abbrev pub u32_bytes : ℕ → List ℕ
u32_bytes n = n / 16777216 % 256 ∷ n / 65536 % 256 ∷ n / 256 % 256 ∷ n % 256 ∷ []

abbrev pub u32_of : ℕ → ℕ → ℕ → ℕ → ℕ
u32_of a b c d = a * 16777216 + b * 65536 + c * 256 + d

pub u16_of-u16_bytes : (n : ℕ) → n < 65536 → u16_of (n / 256 % 256) (n % 256) ≡ n
u16_of-u16_bytes n h = omega arith

pub u32_of-u32_bytes :
    (n : ℕ)
    → n < 4294967296
    → u32_of (n / 16777216 % 256) (n / 65536 % 256) (n / 256 % 256) (n % 256) ≡ n
u32_of-u32_bytes n h = omega arith
