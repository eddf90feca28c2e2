-- ===== src/Secret/Derivation/Paths.antt =====
-- What the parser reads from a printed path, and from the paths that the crate builds.
use alknet.Prelude.{
  ℕ, ◌+◌, ◌-◌, ◌%◌, ◌≤◌, ◌<◌, ◌≡◌, ◌↔◌, refl, ap, ◌∙◌, Bool, true, false, List, [], ◌∷◌, ◌++◌, map,
  append-nil, if◌then◌else◌, Text, text, split_on, ok, arith, inl, inr, Option-cases, ltb, drop,
  subst, >>=-eq-ok, ok_injective,
}
use alknet.Prelude.Decimal.{decimal, parse_uint, parse_uint-decimal, parse_uint-le}
use alknet.Prelude.Split.{
  lacks-decimal, lacks, trim_end, split_on_of_lacks, split_on-append, trim_end_of_lacks,
  trim_end-concat, ends_with_byte_of_lacks, ends_with_byte-concat,
}
use alknet.Secret.Derivation.{
  parse_part, parse_parts, parse_derivation_path, device_path, child_index, max_u32,
  hardened_offset,
}

-- An index and whether it is hardened.
abbrev pub PathPart : Type 0
PathPart = ℕ × Bool

pub print_part : PathPart → Text
print_part (index, hardened) = decimal index ++ (if hardened then text "'" else [])

pub print_parts : List PathPart → Text
print_parts [] = []
print_parts (part ∷ parts) = b'/' ∷ (print_part part ++ print_parts parts)

-- The standard notation of a path: `m`, then `/` and an index for each step, `'` on hardened ones.
pub print_path : List PathPart → Text
print_path parts = b'm' ∷ print_parts parts

abbrev pub part_index : PathPart → ℕ
part_index (index, true) = (index + 2147483648) % 4294967296
part_index (index, false) = index

abbrev pub InU32 : List PathPart → Type 0
InU32 [] = Unit
InU32 (part ∷ parts) = (part.0 ≤ max_u32) × InU32 parts

lacks-append : (c : ℕ) (s t : Text) → lacks c s ≡ true → lacks c t ≡ true → lacks c (s ++ t) ≡ true
lacks-append c [] t h k = k
lacks-append c (b ∷ s) t h k = ground (arith, lacks-append c s t)

lacks_slash-print_part : (part : PathPart) → lacks b'/' (print_part part) ≡ true
unfolding print_part
lacks_slash-print_part (i, true) =
    lacks-append b'/' (decimal i) (text "'") (lacks-decimal b'/' i refl) refl
lacks_slash-print_part (i, false) =
    lacks-append b'/' (decimal i) [] (lacks-decimal b'/' i refl) refl

split_on-print_parts :
    (s : Text) (parts : List PathPart)
    → lacks b'/' s ≡ true
    → split_on b'/' (s ++ print_parts parts) ≡ s ∷ map print_part parts
unfolding print_parts
split_on-print_parts s [] h = rw append-nil (split_on_of_lacks b'/' s h)
split_on-print_parts s (part ∷ parts) h =
    split_on-append b'/' s (print_part part ++ print_parts parts) h
    ∙ ap (◌∷◌ s) (split_on-print_parts (print_part part) parts (lacks_slash-print_part part))

parse_part-print_part :
    (part : PathPart) → part.0 ≤ max_u32 → parse_part (print_part part) ≡ ok (part_index part)
unfolding parse_part print_part
parse_part-print_part (i, true) h = ground (
  arith,
  ends_with_byte-concat b'\'' (decimal i),
  trim_end-concat b'\'' (decimal i) (lacks-decimal b'\'' i refl),
  trim_end_of_lacks b'h' (decimal i) (lacks-decimal b'h' i refl),
  parse_uint-decimal max_u32 i h,
)
parse_part-print_part (i, false) h = rw append-nil (
    ground (
      arith,
      ends_with_byte_of_lacks b'\'' (decimal i) (lacks-decimal b'\'' i refl),
      ends_with_byte_of_lacks b'h' (decimal i) (lacks-decimal b'h' i refl),
      trim_end_of_lacks b'\'' (decimal i) (lacks-decimal b'\'' i refl),
      trim_end_of_lacks b'h' (decimal i) (lacks-decimal b'h' i refl),
      parse_uint-decimal max_u32 i h,
    ))

parse_parts-print_part :
    (parts : List PathPart)
    → InU32 parts
    → parse_parts (map print_part parts) ≡ ok (map part_index parts)
unfolding parse_parts
parse_parts-print_part [] h = refl
parse_parts-print_part (part ∷ parts) h =
    rw (parse_part-print_part part h.0, parse_parts-print_part parts h.1) refl

-- A path in standard notation, of 32-bit indices, is read back, step by step; a hardened index is raised by
-- 2 ^ 31 modulo 2 ^ 32.
pub parse_derivation_path-print_path :
    (parts : List PathPart)
    → InU32 parts
    → parse_derivation_path (print_path parts) ≡ ok (map part_index parts)
unfolding parse_derivation_path print_path
parse_derivation_path-print_path parts h =
    rw (split_on-print_parts (b'm' ∷ []) parts refl) (parse_parts-print_part parts h)

abbrev pub device_parts : ℕ → List PathPart
device_parts n = (74, true) ∷ (0, true) ∷ (0, true) ∷ (n, true) ∷ []

decimal_74 : decimal 74 ≡ text "74"
unfolding decimal
decimal_74 = refl

decimal_zero : decimal 0 ≡ text "0"
unfolding decimal
decimal_zero = refl

device_path-eq-print_path : (n : ℕ) → device_path n ≡ print_path (device_parts n)
unfolding device_path print_path print_parts print_part
device_path-eq-print_path n = rw (decimal_74, decimal_zero, append-nil)

-- The path of device `n`, a 32-bit number, is read as four indices, and the last of them is a hardened one exactly
-- when `n` is below 2 ^ 31: for a larger `n` the addition wraps and the index is `n - 2 ^ 31`.
pub device_path-IsHardened_iff :
    (n : ℕ)
    → n ≤ max_u32
    → (last : ℕ) × (parse_derivation_path (device_path n)
        ≡ ok (0x8000004a ∷ 0x80000000 ∷ 0x80000000 ∷ last ∷ []))
      × ((hardened_offset ≤ last) ↔ (n < hardened_offset))
      × (last ≡ (if ltb n hardened_offset then n + hardened_offset else n - hardened_offset))
device_path-IsHardened_iff n h = (
  child_index n true,
  rw (device_path-eq-print_path n) (
      parse_derivation_path-print_path (device_parts n)
        (omega arith, (omega arith, (omega arith, (h, tt))))),
  ground arith,
  ground arith,
)

abbrev pub AllU32 : List ℕ → Type 0
AllU32 [] = Unit
AllU32 (i ∷ is) = (i ≤ max_u32) × AllU32 is

parse_part-le : (part : Text) (index : ℕ) → parse_part part ≡ ok index → index ≤ max_u32
unfolding parse_part
parse_part-le part index e =
    elim (Option-cases (parse_uint max_u32 (trim_end b'h' (trim_end b'\'' part)))) [
      | inl bad ↦ ground (arith, bad)
      | inr (n, read) ↦
          ground (arith, parse_uint-le max_u32 (trim_end b'h' (trim_end b'\'' part)) n read)
    ]

parse_parts-AllU32 : (parts : List Text) (is : List ℕ) → parse_parts parts ≡ ok is → AllU32 is
unfolding parse_parts
parse_parts-AllU32 [] [] e = tt
parse_parts-AllU32 [] (i ∷ is) e = cc
parse_parts-AllU32 (part ∷ parts) is e =
    let (i, read, more) = >>=-eq-ok (parse_part part) _ e in
    let (rest, others, same) = >>=-eq-ok (parse_parts parts) _ more in
    subst AllU32 (ok_injective same)
      (parse_part-le part i read, parse_parts-AllU32 parts rest others)

-- Every index of an accepted path fits in 32 bits.
pub parse_derivation_path-AllU32 :
    (path : Text) (is : List ℕ) → parse_derivation_path path ≡ ok is → AllU32 is
unfolding parse_derivation_path
parse_derivation_path-AllU32 path is e =
    ground (arith, parse_parts-AllU32 (drop 1 (split_on b'/' path)) is)
