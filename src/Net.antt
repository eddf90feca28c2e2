-- ===== src/Net.antt =====
-- The network types of the program: addresses of `std::net` and networks of the crate ipnetwork are a
-- parameter; the transports are those of crates/alknet-core/src/transport/mod.rs.
use alknet.Prelude.{Bool, true, false, Option, none, some, Text, text, text_eq}

pub record Net : Type 1 where
  pub IpAddr : Type 0
  pub ip_eq : IpAddr → IpAddr → Bool
  -- `IpAddr::from_str`
  pub parse_ip : Text → Option IpAddr
  pub IpNetwork : Type 0
  -- `IpNetwork::from_str` and `contains`
  pub parse_network : Text → Option IpNetwork
  pub network_contains : IpNetwork → IpAddr → Bool

pub data TransportKind : Type 0 where
  tcp : TransportKind
  tls : Option Text → TransportKind
  iroh : Text → TransportKind
  web_transport : Option Text → TransportKind

abbrev option_eq : Option Text → Option Text → Bool
option_eq none none = true
option_eq none (some _) = false
option_eq (some _) none = false
option_eq (some a) (some b) = text_eq a b

-- The derived `PartialEq`.
abbrev pub transport_eq : TransportKind → TransportKind → Bool
transport_eq tcp tcp = true
transport_eq (tls a) (tls b) = option_eq a b
transport_eq (iroh a) (iroh b) = text_eq a b
transport_eq (web_transport a) (web_transport b) = option_eq a b
transport_eq _ _ = false

-- `Display` of a kind of transport.
abbrev pub transport_text : TransportKind → Text
transport_text tcp = text "tcp"
transport_text (tls _) = text "tls"
transport_text (iroh _) = text "iroh"
transport_text (web_transport _) = text "webtransport"
