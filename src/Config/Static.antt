-- ===== src/Config/Static.antt =====
-- crates/alknet-core/src/config/static_config.rs, and what it makes of config/dynamic_config.rs: the
-- configuration of a server from its options. The parser of socket addresses is a parameter.
pub mod Listeners
use alknet.Prelude.{
  ℕ, Bool, Option, none, some, List, [], ◌∷◌, ◌++◌, Text, text, starts_with, length, drop, Result,
  ok, err, ◌>>=◌, map_err, if◌then◌else◌, Run, returned, panicked,
}
use alknet.Prelude.HashMap
use alknet.Prelude.HashMap.{HashMap}
use alknet.Net.{Net, TransportKind, tcp, tls, iroh}
use alknet.Error.{ConfigError, proxy_config_invalid}
use alknet.Interface.Pairs.{ssh}
use alknet.Auth.Keys.Load.{KeyCrates, load_private_key}
use alknet.Auth.ServerAuth.{ServerAuthConfig, from_keys_and_ca}
use alknet.Config.AuthPolicy.{AuthPolicy, new_policy}
use alknet.Config.Forwarding.{ForwardingPolicy, allow_all}
use alknet.Server.Listener.{StreamListenerConfig, ListenerConfig, stream}
use alknet.Server.Options
use alknet.Server.Options.{ServeTransportMode, tcp_mode, tls_mode, iroh_mode, ServeOptions}

-- `ProxyMode` and `ProxyConfig` of server/handler.rs
pub data ProxyMode (SocketAddr : Type 0) : Type 0 where
  direct : ProxyMode SocketAddr
  socks5_proxy http_connect : SocketAddr → ProxyMode SocketAddr

pub record RateLimitConfig : Type 0 where
  pub max_connections_per_ip : ℕ
  pub max_auth_attempts : ℕ

abbrev pub default_rate_limits : RateLimitConfig
default_rate_limits = record { max_connections_per_ip = 0; max_auth_attempts = 10 }

-- The credentials are `CredentialSet`s, of any type.
pub record DynamicConfig (net : Net) (Credentials : Type 0) : Type 0 where
  pub auth : AuthPolicy
  pub forwarding : ForwardingPolicy net
  pub rate_limits : RateLimitConfig
  pub credentials : HashMap Credentials

-- `DynamicConfig::new`
abbrev pub new_dynamic :
    {net : Net} {Credentials : Type 0} → AuthPolicy → DynamicConfig net Credentials
new_dynamic auth = record {
  auth = auth;
  forwarding = allow_all;
  rate_limits = default_rate_limits;
  credentials = HashMap.new;
}

pub record StaticConfig (SocketAddr : Type 0) (PrivateKey : Type 0) : Type 0 where
  pub transport_mode : ServeTransportMode
  pub listen_addr : Text
  pub tls_cert : Option Text
  pub tls_key : Option Text
  pub acme_domain : Option Text
  pub stealth : Bool
  pub host_key : PrivateKey
  pub max_auth_attempts : ℕ
  pub max_connections_per_ip : ℕ
  pub proxy_config : Option (ProxyMode SocketAddr)
  pub iroh_relay : Option Text
  pub listeners : List (ListenerConfig SocketAddr)

abbrev pub transport_kind_of : ServeTransportMode → TransportKind
transport_kind_of tcp_mode = tcp
transport_kind_of tls_mode = tls none
transport_kind_of iroh_mode = iroh []

module _ {SocketAddr : Type 0} where
  abbrev pub stream_of : ServeOptions SocketAddr → StreamListenerConfig
  stream_of o = record {
    transport_kind = transport_kind_of o.transport_mode;
    interface = ssh;
    listen_addr = o.listen_addr;
    tls_cert = o.tls_cert;
    tls_key = o.tls_key;
    acme_domain = o.acme_domain;
    stealth = o.stealth;
    iroh_relay = o.iroh_relay;
  }

  unfoldable pub listeners_of : ServeOptions SocketAddr → List (ListenerConfig SocketAddr)
  listeners_of o = elim o.listeners [
    | some listeners ↦ listeners
    | none ↦ stream (stream_of o) ∷ []
  ]

  -- The parts that the loads of the keys give, put together.
  abbrev pub static_of :
      {PrivateKey : Type 0}
      → ServeOptions SocketAddr
      → PrivateKey
      → Option (ProxyMode SocketAddr)
      → StaticConfig SocketAddr PrivateKey
  static_of o host_key proxy_config = record {
    transport_mode = o.transport_mode;
    listen_addr = o.listen_addr;
    tls_cert = o.tls_cert;
    tls_key = o.tls_key;
    acme_domain = o.acme_domain;
    stealth = o.stealth;
    host_key = host_key;
    max_auth_attempts = o.max_auth_attempts;
    max_connections_per_ip = o.max_connections_per_ip;
    proxy_config = proxy_config;
    iroh_relay = o.iroh_relay;
    listeners = listeners_of o;
  }

module _ {SocketAddr : Type 0} (parse_addr : Text → Result SocketAddr Text) where
  -- The address behind a prefix of the URL, and the error that names the kind of proxy.
  abbrev proxy_addr : Text → Text → Result SocketAddr ConfigError
  proxy_addr kind rest =
      map_err
        (λ e.
          proxy_config_invalid
            (text "invalid " ++ kind ++ text " proxy address '" ++ rest ++ text "': " ++ e))
        (parse_addr rest)

  unfoldable pub parse_proxy_config :
      Option Text → Result (Option (ProxyMode SocketAddr)) ConfigError
  parse_proxy_config none = ok none
  parse_proxy_config (some url) =
      if starts_with (text "socks5://") url
      then (proxy_addr (text "socks5") (drop 9 url) >>= λ addr. ok (some (socks5_proxy addr)))
      else if starts_with (text "http://") url
      then (proxy_addr (text "http connect") (drop 7 url) >>= λ addr. ok (some (http_connect addr)))
      else err (proxy_config_invalid (text "unsupported proxy URL scheme: " ++ url))

  module _ {PrivateKey : Type 0} (crates : KeyCrates PrivateKey) {net : Net}
      {Credentials : Type 0} where
    abbrev pub with_auth :
        ServeOptions SocketAddr
        → PrivateKey
        → Run (Result ServerAuthConfig ConfigError)
        → Run (
            Result (StaticConfig SocketAddr PrivateKey × DynamicConfig net Credentials) ConfigError)
    with_auth o host_key panicked = panicked
    with_auth o host_key (returned (err e)) = returned (err e)
    with_auth o host_key (returned (ok c)) = returned (
        parse_proxy_config o.proxy >>= λ proxy.
        ok (
          static_of o host_key proxy,
          new_dynamic (new_policy c.authorized_keys c.cert_authorities),
        ))

    -- `StaticConfig::from_serve_options`
    unfoldable pub from_serve_options :
        ServeOptions SocketAddr
        → Run (
            Result (StaticConfig SocketAddr PrivateKey × DynamicConfig net Credentials) ConfigError)
    unfolding Options.validate load_private_key parse_proxy_config
    from_serve_options o = elim (Options.validate o >>= λ _. load_private_key crates o.key) [
      | err e ↦ returned (err e)
      | ok host_key ↦
          with_auth o host_key (from_keys_and_ca crates o.authorized_keys o.cert_authority)
    ]
