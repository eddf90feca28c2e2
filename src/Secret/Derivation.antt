-- ===== src/Secret/Derivation.antt =====
-- crates/alknet-secret/src/derivation.rs: derivation paths, and the Ed25519 derivation along them.
-- The derived keys come from the crates hmac and ed25519-bip32, which are a parameter.
pub mod Paths
pub mod Keys
use alknet.Prelude.{
  ℕ, ◌+◌, ◌%◌, ◌^◌, ◌-◌, Bool, ◌||◌, Option, none, some, List, [], ◌∷◌, ◌++◌, if◌then◌else◌, Text,
  text, starts_with, split_on, take, drop, Result, ok, err, ◌>>=◌,
}
use alknet.Prelude.Decimal.{decimal, parse_uint}
use alknet.Prelude.Split.{trim_end, ends_with_byte}

-- `PATHS`
abbrev pub identity_path : Text
identity_path = text "m/74'/0'/0'/0'"

abbrev pub device_prefix : Text
device_prefix = text "m/74'/0'/0'"

abbrev pub ssh_host_path : Text
ssh_host_path = text "m/74'/0'/1'/0'"

abbrev pub encryption_path : Text
encryption_path = text "m/74'/2'/0'/0'"

abbrev pub ethereum_path : Text
ethereum_path = text "m/44'/60'/0'/0/0"

unfoldable pub device_path : ℕ → Text
device_path index = text "m/74'/0'/0'/" ++ (decimal index ++ text "'")

pub site_password_path : Text → Text
site_password_path site_hash = text "m/74'/1'/0'/" ++ (site_hash ++ text "'")

pub data DerivationError : Type 0 where
  invalid_path : Text → DerivationError
  hmac_error : Text → DerivationError
  key_derivation : Text → DerivationError
  locked : DerivationError
  secp256k1_error : Text → DerivationError
  unsupported_key_type : DerivationError

abbrev pub hardened_offset : ℕ
hardened_offset = 0x80000000

abbrev pub max_u32 : ℕ
max_u32 = 0xffffffff

-- `index + 0x80000000` on `u32`, which wraps in a release build.
abbrev pub child_index : ℕ → Bool → ℕ
child_index index hardened = if hardened then (index + hardened_offset) % 2 ^ 32 else index

parse_part : Text → Result ℕ DerivationError
parse_part part =
    let hardened = ends_with_byte b'\'' part || ends_with_byte b'h' part in
    let index_str = trim_end b'h' (trim_end b'\'' part) in
    elim (parse_uint max_u32 index_str) [
      | none ↦ err (invalid_path (text "invalid index: " ++ part))
      | some index ↦ ok (child_index index hardened)
    ]

-- The loop over the parts.
parse_parts : List Text → Result (List ℕ) DerivationError
unfolding parse_part
parse_parts [] = ok []
parse_parts (part ∷ parts) = do
  index ← parse_part part
  indices ← parse_parts parts
  ok (index ∷ indices)

unfoldable pub parse_derivation_path : Text → Result (List ℕ) DerivationError
unfolding parse_parts
parse_derivation_path path =
    if starts_with (text "m") path
    then parse_parts (drop 1 (split_on b'/' path))
    else err (invalid_path (text "path must start with 'm'"))
