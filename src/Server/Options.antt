-- ===== src/Server/Options.antt =====
-- `ServeOptions` of crates/alknet-core/src/server/serve.rs: what a server is started with.
use alknet.Prelude.{
  ℕ, Bool, true, false, not, ◌&&◌, ◌||◌, Option, none, some, List, [], ◌∷◌, Text, text, Result, ok,
  err, ◌>>◌, refuse_if, is_some,
}
use alknet.Error.{ConfigError, invalid_flag, incompatible_options}
use alknet.Auth.Keys.Load.{KeySource}
use alknet.Server.Listener.{ListenerConfig}
use alknet.Server.Listener

pub data ServeTransportMode : Type 0 where
  tcp_mode tls_mode iroh_mode : ServeTransportMode

abbrev pub is_tls_mode : ServeTransportMode → Bool
is_tls_mode tls_mode = true
is_tls_mode _ = false

pub record ServeOptions (SocketAddr : Type 0) : Type 0 where
  pub key : KeySource
  pub authorized_keys : Option KeySource
  pub cert_authority : Option KeySource
  pub transport_mode : ServeTransportMode
  pub listen_addr : Text
  pub tls_cert : Option Text
  pub tls_key : Option Text
  pub acme_domain : Option Text
  pub stealth : Bool
  pub proxy : Option Text
  pub iroh_relay : Option Text
  pub max_connections_per_ip : ℕ
  pub max_auth_attempts : ℕ
  pub listeners : Option (List (ListenerConfig SocketAddr))

abbrev pub default_listen_addr : Text
default_listen_addr = text "0.0.0.0:22"

-- The checks on the transport of options without listeners.
abbrev pub check_mode :
    ServeTransportMode → Option Text → Option Text → Option Text → Result (Unit {0}) ConfigError
check_mode tls_mode tls_cert tls_key acme_domain = do
  refuse_if (not (is_some tls_cert) && not (is_some acme_domain))
      (invalid_flag (text "TLS transport requires --tls-cert/--tls-key or --acme-domain"))
  refuse_if (is_some tls_cert && not (is_some tls_key))
      (invalid_flag (text "--tls-cert requires --tls-key"))
  refuse_if (is_some tls_key && not (is_some tls_cert))
      (invalid_flag (text "--tls-key requires --tls-cert"))
check_mode _ tls_cert tls_key acme_domain =
    refuse_if (is_some tls_cert || (is_some tls_key || is_some acme_domain)) incompatible_options

module _ {SocketAddr : Type 0} where
  abbrev pub new_options : KeySource → ServeOptions SocketAddr
  new_options key = record {
    key = key;
    authorized_keys = none;
    cert_authority = none;
    transport_mode = tcp_mode;
    listen_addr = default_listen_addr;
    tls_cert = none;
    tls_key = none;
    acme_domain = none;
    stealth = false;
    proxy = none;
    iroh_relay = none;
    max_connections_per_ip = 0;
    max_auth_attempts = 10;
    listeners = none;
  }

  -- The builders.
  abbrev pub set_authorized_keys : KeySource → ServeOptions SocketAddr → ServeOptions SocketAddr
  set_authorized_keys source o = record o { authorized_keys = some source }

  abbrev pub set_cert_authority : KeySource → ServeOptions SocketAddr → ServeOptions SocketAddr
  set_cert_authority source o = record o { cert_authority = some source }

  abbrev pub set_transport_mode :
      ServeTransportMode → ServeOptions SocketAddr → ServeOptions SocketAddr
  set_transport_mode mode o = record o { transport_mode = mode }

  abbrev pub set_listen_addr : Text → ServeOptions SocketAddr → ServeOptions SocketAddr
  set_listen_addr addr o = record o { listen_addr = addr }

  abbrev pub set_tls_cert : Text → ServeOptions SocketAddr → ServeOptions SocketAddr
  set_tls_cert path o = record o { tls_cert = some path }

  abbrev pub set_tls_key : Text → ServeOptions SocketAddr → ServeOptions SocketAddr
  set_tls_key path o = record o { tls_key = some path }

  abbrev pub set_acme_domain : Text → ServeOptions SocketAddr → ServeOptions SocketAddr
  set_acme_domain domain o = record o { acme_domain = some domain }

  abbrev pub set_stealth : Bool → ServeOptions SocketAddr → ServeOptions SocketAddr
  set_stealth enabled o = record o { stealth = enabled }

  abbrev pub set_proxy : Text → ServeOptions SocketAddr → ServeOptions SocketAddr
  set_proxy url o = record o { proxy = some url }

  abbrev pub set_iroh_relay : Text → ServeOptions SocketAddr → ServeOptions SocketAddr
  set_iroh_relay url o = record o { iroh_relay = some url }

  abbrev pub set_max_connections_per_ip : ℕ → ServeOptions SocketAddr → ServeOptions SocketAddr
  set_max_connections_per_ip max o = record o { max_connections_per_ip = max }

  abbrev pub set_max_auth_attempts : ℕ → ServeOptions SocketAddr → ServeOptions SocketAddr
  set_max_auth_attempts max o = record o { max_auth_attempts = max }

  abbrev pub set_listeners :
      List (ListenerConfig SocketAddr) → ServeOptions SocketAddr → ServeOptions SocketAddr
  set_listeners listeners o = record o { listeners = some listeners }

  -- `for listener in listeners { listener.validate()?; }`
  unfoldable pub validate_all : List (ListenerConfig SocketAddr) → Result (Unit {0}) ConfigError
  unfolding Listener.validate
  validate_all [] = ok tt
  validate_all (l ∷ listeners) = Listener.validate l >> validate_all listeners

  abbrev pub validate_listeners : List (ListenerConfig SocketAddr) → Result (Unit {0}) ConfigError
  validate_listeners [] = err (invalid_flag (text "listeners must not be empty"))
  validate_listeners (l ∷ listeners) = validate_all (l ∷ listeners)

  -- `ServeOptions::validate`
  unfoldable pub validate : ServeOptions SocketAddr → Result (Unit {0}) ConfigError
  unfolding validate_all
  validate o = elim o.listeners [
    | some listeners ↦ validate_listeners listeners
    | none ↦ do
      refuse_if (o.stealth && not (is_tls_mode o.transport_mode))
          (invalid_flag (text "stealth mode requires TLS transport (--transport tls)"))
      check_mode o.transport_mode o.tls_cert o.tls_key o.acme_domain
  ]
