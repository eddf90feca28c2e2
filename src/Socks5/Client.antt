-- ===== src/Socks5/Client.antt =====
-- `connect_socks5` of crates/alknet-core/src/server/channel_proxy.rs, on the bytes that the proxy
-- answers. `ip_text` is the printed address of the target.
use alknet.Prelude.{
  ℕ, ◌%◌, not, ◌||◌, List, [], ◌∷◌, ◌++◌, Text, Result, ok, err, ◌>>=◌, map_err, length,
  if◌then◌else◌, ◌==◌,
}
use alknet.Prelude.BigEndian.{u16_bytes}
use alknet.Socks5.{IoError, read_u8, read_exact}

pub data ChannelProxyError : Type 0 where
  socks5_handshake_failed socks5_proxy_rejected : ChannelProxyError
  io : IoError → ChannelProxyError

-- What is written to the proxy, and the bytes that are left once the tunnel stands.
pub record Connected : Type 0 where
  pub written : List ℕ
  pub outcome : Result (List ℕ) ChannelProxyError

abbrev pub greeting : List ℕ
greeting = 5 ∷ 1 ∷ 0 ∷ []

-- The length of the address is cut to a byte by `as u8`.
unfoldable pub connect_request : Text → ℕ → List ℕ
connect_request ip_text port = 5 ∷ 1 ∷ 0 ∷ 3 ∷ length ip_text % 256 ∷ (ip_text ++ u16_bytes port)

-- Skips the bound address of a reply, by its type.
unfoldable pub skip_address : ℕ → List ℕ → Result (List ℕ) ChannelProxyError
skip_address atyp input =
    if atyp == 1
    then (map_err io (read_exact 4 input) >>= λ (octets, rest). ok rest)
    else if atyp == 4
    then (map_err io (read_exact 16 input) >>= λ (octets, rest). ok rest)
    else if atyp == 3
    then (map_err io (read_u8 input) >>= λ (len, rest).
        map_err io (read_exact len rest) >>= λ (name, rest). ok rest)
    else err socks5_handshake_failed

-- What is read after the request.
unfoldable pub read_reply : List ℕ → Result (List ℕ) ChannelProxyError
unfolding skip_address
read_reply (version ∷ reply ∷ reserved ∷ atyp ∷ input) =
    if not (version == 5)
    then err socks5_handshake_failed
    else if not (reply == 0)
    then err socks5_proxy_rejected
    else (skip_address atyp input >>= λ input.
        map_err io (read_exact 2 input) >>= λ (port, rest). ok rest)
read_reply _ = err (io IoError.unexpected_eof)

unfoldable pub connect_socks5 : Text → ℕ → List ℕ → Connected
unfolding read_reply connect_request
connect_socks5 ip_text port (version ∷ method ∷ input) =
    if not (version == 5) || not (method == 0)
    then record { written = greeting; outcome = err socks5_handshake_failed }
    else record { written = greeting ++ connect_request ip_text port; outcome = read_reply input }
connect_socks5 ip_text port _ = record {
  written = greeting;
  outcome = err (io IoError.unexpected_eof);
}
