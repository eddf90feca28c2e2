-- ===== src/Socks5/Tests.antt =====
-- The theorems on SOCKS5 at concrete inputs, where every byte string is valid UTF-8.
use alknet.Prelude.{◌≡◌, refl, true, [], ◌∷◌, ◌++◌, text, ok, arith}
use alknet.Socks5.{domain, Socks5Reply}
use alknet.Socks5.Server.{Outside, handle_socks5_connection}
use alknet.Socks5.Client.{connect_socks5}
use alknet.Socks5.RoundTrip.{answered, connect_socks5-handle_socks5_connection}

abbrev outside : Outside
outside = record {
  lossy = λ bytes. bytes;
  show_ipv4 = λ octets. text "v4";
  show_ipv6 = λ octets. text "v6";
  opens = λ host port. true;
}

abbrev reply : Socks5Reply
reply = record { version = 5; reply = 0; address = domain (text "host"); port = 443 }

connect_socks5-handle_socks5_connection_example :
    (handle_socks5_connection outside
        ((connect_socks5 (text "10.0.0.1") 443 answered).written ++ 1 ∷ [])
      ≡ record { written = answered; outcome = ok ((text "10.0.0.1", 443), 1 ∷ []) })
    × ((connect_socks5 (text "10.0.0.1") 443 answered).outcome ≡ ok [])
connect_socks5-handle_socks5_connection_example =
    connect_socks5-handle_socks5_connection outside (text "10.0.0.1") 443 (1 ∷ [])
      (omega arith, refl) (omega arith) refl
