-- ===== src/Server/Listener.antt =====
-- The listeners of crates/alknet-core/src/server/serve.rs. A socket address of `std::net` is a
-- parameter.
pub mod Validity
use alknet.Prelude.{
  Bool, true, false, not, ◌&&◌, ◌||◌, Option, none, some, List, [], ◌∷◌, ◌++◌, Text, text, Result,
  ok, err, ◌>>◌, refuse_if, is_some,
}
use alknet.Net.{TransportKind, tcp, tls, iroh, web_transport, transport_text}
use alknet.Error.{ConfigError, invalid_flag, incompatible_options}
use alknet.Interface.Pairs.{StreamInterfaceKind, ssh, interface_text, is_valid_pair}

pub record StreamListenerConfig : Type 0 where
  pub transport_kind : TransportKind
  pub interface : StreamInterfaceKind
  pub listen_addr : Text
  pub tls_cert : Option Text
  pub tls_key : Option Text
  pub acme_domain : Option Text
  pub stealth : Bool
  pub iroh_relay : Option Text

abbrev pub is_tls : TransportKind → Bool
is_tls (tls _) = true
is_tls _ = false

-- The checks of the certificate, its key and the domain on each transport.
abbrev pub check_certificates :
    TransportKind → Option Text → Option Text → Option Text → Result (Unit {0}) ConfigError
check_certificates (tls _) tls_cert tls_key acme_domain = do
  refuse_if (not (is_some tls_cert) && not (is_some acme_domain))
      (invalid_flag (text "TLS transport requires tls_cert/tls_key or acme_domain"))
  refuse_if (is_some tls_cert && not (is_some tls_key))
      (invalid_flag (text "tls_cert requires tls_key"))
  refuse_if (is_some tls_key && not (is_some tls_cert))
      (invalid_flag (text "tls_key requires tls_cert"))
check_certificates _ tls_cert tls_key acme_domain =
    refuse_if (is_some tls_cert || (is_some tls_key || is_some acme_domain)) incompatible_options

-- `StreamListenerConfig::validate`
unfoldable pub validate_stream : StreamListenerConfig → Result (Unit {0}) ConfigError
validate_stream c = do
  refuse_if (not (is_valid_pair c.transport_kind c.interface)) (
      invalid_flag (
        text "invalid transport/interface pair: "
        ++ transport_text c.transport_kind
        ++ b'/' ∷ interface_text c.interface))
  refuse_if (c.stealth && not (is_tls c.transport_kind))
      (invalid_flag (text "stealth mode requires TLS transport"))
  check_certificates c.transport_kind c.tls_cert c.tls_key c.acme_domain

abbrev kind_text : TransportKind → Text
kind_text (iroh _) = text "iroh"
kind_text (web_transport _) = text "webtransport"
kind_text kind = transport_text kind

-- `Display for StreamListenerConfig`
abbrev pub stream_text : StreamListenerConfig → Text
stream_text c =
    c.listen_addr
    ++ text " ("
    ++ kind_text c.transport_kind
    ++ b'/' ∷ interface_text c.interface
    ++ text ")"

-- What the constructors of `ListenerConfig` set.
abbrev pub plain_stream : TransportKind → Text → StreamListenerConfig
plain_stream kind addr = record {
  transport_kind = kind;
  interface = ssh;
  listen_addr = addr;
  tls_cert = none;
  tls_key = none;
  acme_domain = none;
  stealth = false;
  iroh_relay = none;
}

pub record HttpListenerConfig (SocketAddr : Type 0) : Type 0 where
  pub bind_addr : SocketAddr
  pub tls : Bool
  pub stealth : Bool

pub record DnsListenerConfig (SocketAddr : Type 0) : Type 0 where
  pub bind_addr : SocketAddr
  pub tls : Bool

pub data ListenerConfig (SocketAddr : Type 0) : Type 0 where
  stream : StreamListenerConfig → ListenerConfig SocketAddr
  http : HttpListenerConfig SocketAddr → ListenerConfig SocketAddr
  dns : DnsListenerConfig SocketAddr → ListenerConfig SocketAddr

module _ {SocketAddr : Type 0} where
  abbrev pub tcp_listener : Text → ListenerConfig SocketAddr
  tcp_listener addr = stream (plain_stream tcp addr)

  abbrev pub tls_listener : Text → ListenerConfig SocketAddr
  tls_listener addr = stream (plain_stream (tls none) addr)

  abbrev pub iroh_listener : Text → ListenerConfig SocketAddr
  iroh_listener addr = stream (plain_stream (iroh []) addr)

  abbrev pub webtransport_listener : Text → ListenerConfig SocketAddr
  webtransport_listener addr = stream (plain_stream (web_transport none) addr)

  abbrev pub http_listener : SocketAddr → ListenerConfig SocketAddr
  http_listener addr = http (record { bind_addr = addr; tls = false; stealth = false })

  abbrev pub dns_listener : SocketAddr → ListenerConfig SocketAddr
  dns_listener addr = dns (record { bind_addr = addr; tls = false })

  -- The builders, which change the listeners that have the field.
  abbrev pub with_tls_cert : ListenerConfig SocketAddr → Text → ListenerConfig SocketAddr
  with_tls_cert (stream c) path = stream (record c { tls_cert = some path })
  with_tls_cert l path = l

  abbrev pub with_tls_key : ListenerConfig SocketAddr → Text → ListenerConfig SocketAddr
  with_tls_key (stream c) path = stream (record c { tls_key = some path })
  with_tls_key l path = l

  abbrev pub with_acme_domain : ListenerConfig SocketAddr → Text → ListenerConfig SocketAddr
  with_acme_domain (stream c) domain = stream (record c { acme_domain = some domain })
  with_acme_domain l domain = l

  abbrev pub with_stealth : ListenerConfig SocketAddr → Bool → ListenerConfig SocketAddr
  with_stealth (stream c) enabled = stream (record c { stealth = enabled })
  with_stealth (http c) enabled = http (record c { stealth = enabled })
  with_stealth (dns c) enabled = dns c

  abbrev pub with_iroh_relay : ListenerConfig SocketAddr → Text → ListenerConfig SocketAddr
  with_iroh_relay (stream c) url = stream (record c { iroh_relay = some url })
  with_iroh_relay l url = l

  -- `ListenerConfig::validate`
  unfoldable pub validate : ListenerConfig SocketAddr → Result (Unit {0}) ConfigError
  unfolding validate_stream
  validate (stream c) = validate_stream c
  validate (http c) =
      refuse_if (c.stealth && not c.tls)
        (invalid_flag (text "stealth mode requires TLS on HTTP listener"))
  validate (dns c) = ok tt

  -- `Display for ListenerConfig`
  abbrev pub listener_text : (SocketAddr → Text) → ListenerConfig SocketAddr → Text
  listener_text print (stream c) = stream_text c
  listener_text print (http c) = print c.bind_addr ++ text " (http)"
  listener_text print (dns c) = print c.bind_addr ++ text " (dns)"
