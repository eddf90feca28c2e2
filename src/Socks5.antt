-- ===== src/Socks5.antt =====
-- crates/alknet-core/src/socks5 (protocol.rs and mod.rs), and `connect_socks5` of
-- server/channel_proxy.rs. The peer's bytes are a list, read from its front; a read that finds too
-- few fails with `unexpected_eof`. Writing does not fail here.
pub mod Server
pub mod Client
pub mod RoundTrip
mod Tests
use alknet.Prelude.{
  ℕ, ◌+◌, ◌%◌, Bool, true, false, List, [], ◌∷◌, ◌++◌, Text, Result, ok, err, ◌>>=◌, length, take,
  drop, ltb, if◌then◌else◌, ◌==◌,
}
use alknet.Prelude.BigEndian.{u16_bytes, u16_of}

pub data IoError : Type 0 where
  unexpected_eof : IoError
  unsupported_address_type : ℕ → IoError

pub data Socks5Address : Type 0 where
  ipv4 ipv6 : List ℕ → Socks5Address
  domain : Text → Socks5Address

-- What a read gives, with the bytes that are left.
abbrev pub ReadOf : Type 0 → Type 0
ReadOf A = Result (A × List ℕ) IoError

abbrev pub read_u8 : List ℕ → ReadOf ℕ
read_u8 [] = err unexpected_eof
read_u8 (b ∷ input) = ok (b, input)

abbrev pub read_u16 : List ℕ → ReadOf ℕ
read_u16 (a ∷ b ∷ input) = ok (u16_of a b, input)
read_u16 _ = err unexpected_eof

abbrev pub read_exact : ℕ → List ℕ → ReadOf (List ℕ)
read_exact n input =
    if ltb (length input) n then err unexpected_eof else ok (take n input, drop n input)

pub record Socks5VersionMethod : Type 0 where
  pub version : ℕ
  pub methods : List ℕ

pub record Socks5Request : Type 0 where
  pub version : ℕ
  pub command : ℕ
  pub address : Socks5Address
  pub port : ℕ

pub record Socks5Reply : Type 0 where
  pub version : ℕ
  pub reply : ℕ
  pub address : Socks5Address
  pub port : ℕ

-- `Socks5VersionMethod::read_from`
unfoldable pub read_methods : List ℕ → ReadOf Socks5VersionMethod
read_methods input = do
  (version, input) ← read_u8 input
  (nmethods, input) ← read_u8 input
  (methods, input) ← read_exact nmethods input
  ok (record { version = version; methods = methods }, input)

-- The address of a request, by its type; `lossy` is `String::from_utf8_lossy`.
unfoldable pub read_address : (List ℕ → Text) → ℕ → List ℕ → ReadOf Socks5Address
read_address lossy atyp input =
    if atyp == 1
    then (read_exact 4 input >>= λ (octets, rest). ok (ipv4 octets, rest))
    else if atyp == 4
    then (read_exact 16 input >>= λ (octets, rest). ok (ipv6 octets, rest))
    else if atyp == 3
    then (read_u8 input >>= λ (len, rest).
        read_exact len rest >>= λ (name, rest). ok (domain (lossy name), rest))
    else err (unsupported_address_type atyp)

-- `Socks5Request::read_from`
unfoldable pub read_request : (List ℕ → Text) → List ℕ → ReadOf Socks5Request
unfolding read_address
read_request lossy input = do
  (version, input) ← read_u8 input
  (command, input) ← read_u8 input
  (reserved, input) ← read_u8 input
  (atyp, input) ← read_u8 input
  (address, input) ← read_address lossy atyp input
  (port, input) ← read_u16 input
  ok (record { version = version; command = command; address = address; port = port }, input)

abbrev pub unspecified : List ℕ
unspecified = 0 ∷ 0 ∷ 0 ∷ 0 ∷ []

abbrev pub reply_success : Socks5Address → ℕ → Socks5Reply
reply_success address port = record { version = 5; reply = 0; address = address; port = port }

abbrev pub connection_refused : Socks5Reply
connection_refused = record { version = 5; reply = 5; address = ipv4 unspecified; port = 0 }

abbrev pub command_not_supported : Socks5Reply
command_not_supported = record { version = 5; reply = 7; address = ipv4 unspecified; port = 0 }

-- The length of a name is cut to a byte by `as u8`.
unfoldable pub address_bytes : Socks5Address → List ℕ
address_bytes (ipv4 octets) = 1 ∷ octets
address_bytes (ipv6 octets) = 4 ∷ octets
address_bytes (domain name) = 3 ∷ length name % 256 ∷ name

-- `Socks5Reply::write_to`
unfoldable pub reply_bytes : Socks5Reply → List ℕ
unfolding address_bytes
reply_bytes r = r.version ∷ r.reply ∷ 0 ∷ (address_bytes r.address ++ u16_bytes r.port)
