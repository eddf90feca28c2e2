-- ===== src/Auth/Keys.antt =====
-- `parse_authorized_keys_line` of crates/alknet-core/src/auth/keys.rs. The key type of the crate
-- russh and its base64 parser are parameters, and so is `str::trim`.
pub mod Entries
pub mod Lines
pub mod Load
use alknet.Prelude.{
  ℕ, zero, suc, Bool, true, false, ◌||◌, Option, none, some, List, [], ◌∷◌, Text, text, starts_with,
  split_on, any, leb, length, if◌then◌else◌, ◌==◌, Run, returned, panicked,
}

-- The text before and after the first separator.
unfoldable pub split_once : ℕ → Text → Option (Text × Text)
split_once sep [] = none
split_once sep (c ∷ s) =
    let rest = split_once sep s in
    if c == sep
    then some ([], s)
    else elim rest [ some (before, after) ↦ some (c ∷ before, after) | none ↦ none ]

-- `splitn(n + 1, sep)`: at most `n` cuts.
unfoldable pub split_n : ℕ → ℕ → Text → List Text
unfolding split_once
split_n zero sep s = s ∷ []
split_n (suc n) sep s = elim (split_once sep s) [
  | none ↦ s ∷ []
  | some (before, after) ↦ before ∷ split_n n sep after
]

abbrev pub option_prefixes : List Text
option_prefixes =
    text "cert-authority"
    ∷ text "no-"
    ∷ text "permit-"
    ∷ text "from="
    ∷ text "command="
    ∷ text "environment="
    ∷ text "tunnel="
    ∷ text "principals="
    ∷ []

unfoldable pub is_options : Text → Bool
is_options part = any (λ p. starts_with p part) option_prefixes

-- The part at an index, where there is one.
abbrev pub nth : ℕ → List Text → Option Text
nth n [] = none
nth zero (part ∷ parts) = some part
nth (suc n) (part ∷ parts) = nth n parts

unfoldable pub is_key_type : Text → Bool
is_key_type part = starts_with (text "ssh-") part || starts_with (text "ecdsa-") part

module _ {PublicKey : Type 0} (parse_base64 : Text → Option PublicKey) where
  abbrev pub with_options : List Text → Option PublicKey → Run (Option (PublicKey × List Text))
  with_options options (some pk) = returned (some (pk, options))
  with_options options none = returned none

  -- `parts[i]` as the key; an index that is out of bounds panics.
  abbrev pub key_at : List Text → Option Text → Run (Option (PublicKey × List Text))
  key_at options none = panicked
  key_at options (some key) = with_options options (parse_base64 key)

  -- What comes of the options and the index of the key type: the guard on the number of parts, and
  -- the key in the part after the key type.
  abbrev pub read_key : List Text → List Text → ℕ → Run (Option (PublicKey × List Text))
  read_key parts options key_type_idx =
      if leb (length parts) key_type_idx
      then returned none
      else key_at options (nth (suc key_type_idx) parts)

  -- The parts of a line, of which there must be two.
  unfoldable pub parse_parts : List Text → Run (Option (PublicKey × List Text))
  parse_parts (first ∷ second ∷ rest) =
      if is_options first
      then read_key (first ∷ second ∷ rest) (split_on b',' first) 1
      else if is_key_type first
      then read_key (first ∷ second ∷ rest) [] 0
      else returned none
  parse_parts _ = returned none

  unfoldable pub parse_authorized_keys_line :
      (Text → Text) → Text → Run (Option (PublicKey × List Text))
  unfolding parse_parts split_n
  parse_authorized_keys_line trim line = elim (trim line) [
    | [] ↦ returned none
    | c ∷ rest ↦ if c == b'#' then returned none else parse_parts (split_n 3 b' ' (c ∷ rest))
  ]
