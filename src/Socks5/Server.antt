-- ===== src/Socks5/Server.antt =====
-- `handle_socks5_connection` of socks5/mod.rs, on the bytes that the client sends.
use alknet.Prelude.{ℕ, Bool, not, List, [], ◌∷◌, Text, Result, ok, err, any, if◌then◌else◌, ◌==◌}
use alknet.Socks5.{
  IoError, Socks5Address, ipv4, ipv6, domain, read_methods, read_request, reply_bytes,
  reply_success, connection_refused, command_not_supported, unspecified,
}

pub data Socks5Error : Type 0 where
  invalid_version unsupported_command : ℕ → Socks5Error
  no_acceptable_auth channel_open_failed : Socks5Error
  io : IoError → Socks5Error

-- What is written to the client, and how the connection goes on: an error, or bytes relayed with a
-- channel to a host and port, the first of them those that the client has sent already.
pub record Served : Type 0 where
  pub written : List ℕ
  pub outcome : Result ((Text × ℕ) × List ℕ) Socks5Error

-- The code outside the repository that a connection uses.
pub record Outside : Type 0 where
  pub lossy : List ℕ → Text
  pub show_ipv4 : List ℕ → Text
  pub show_ipv6 : List ℕ → Text
  -- whether `open_channel` succeeds
  pub opens : Text → ℕ → Bool

module _ (outside : Outside) where
  unfoldable pub host_of : Socks5Address → Text
  host_of (ipv4 octets) = outside.show_ipv4 octets
  host_of (ipv6 octets) = outside.show_ipv6 octets
  host_of (domain name) = name

  -- What follows the choice of the method.
  unfoldable pub serve_request : List ℕ → Served
  unfolding host_of
  serve_request input = elim (read_request outside.lossy input) [
    | err e ↦ record { written = []; outcome = err (io e) }
    | ok (request, rest) ↦
        if not (request.version == 5)
        then record { written = []; outcome = err (invalid_version request.version) }
        else if not (request.command == 1)
        then record {
          written = reply_bytes command_not_supported;
          outcome = err (unsupported_command request.command);
        }
        else (let host = host_of request.address in
            if outside.opens host request.port
            then record {
              written = reply_bytes (reply_success (ipv4 unspecified) 0);
              outcome = ok ((host, request.port), rest);
            }
            else record {
              written = reply_bytes connection_refused;
              outcome = err channel_open_failed;
            })
  ]

  unfoldable pub handle_socks5_connection : List ℕ → Served
  unfolding serve_request
  handle_socks5_connection input = elim (read_methods input) [
    | err e ↦ record { written = []; outcome = err (io e) }
    | ok (vm, rest) ↦
        if not (vm.version == 5)
        then record { written = []; outcome = err (invalid_version vm.version) }
        else if not (any (λ m. m == 0) vm.methods)
        then record { written = 5 ∷ 255 ∷ []; outcome = err no_acceptable_auth }
        else (let served = serve_request rest in
            record { written = 5 ∷ 0 ∷ served.written; outcome = served.outcome })
  ]
