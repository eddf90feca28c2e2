-- ===== src/Cli.antt =====
-- crates/alknet/src/main.rs: what the command line starts. Parsing it is clap's. The parsers of
-- addresses and URLs are parameters, and the features are those the program is built with; a
-- transport or an acceptor is what it is made of, and making it is input and output.
pub mod Serving
mod Tests
use alknet.Prelude.{
  ℕ, Bool, true, false, not, ◌&&◌, Option, none, some, List, [], ◌∷◌, ◌++◌, Text, text,
  if◌then◌else◌, Result, ok, err, ◌>>=◌, ◌>>◌, map_err, refuse_if, is_some, Run, returned, panicked,
}
use alknet.Error.{config_text}
use alknet.Auth.Keys.Load.{KeySource, file}
use alknet.Client.Session
use alknet.Client.Session.{ConnectOptions, TransportMode}
use alknet.Server.Accept.{
  Server, ServeError, config_error, key_load_failed, bind_failed, accept_failed,
}
use alknet.Server.Options
use alknet.Server.Options.{
  ServeOptions, ServeTransportMode, tcp_mode, tls_mode, iroh_mode, is_tls_mode,
}

pub record Features : Type 0 where
  pub tls : Bool
  pub acme : Bool
  pub iroh : Bool

-- What the arguments are parsed with.
pub record Parsers (SocketAddr : Type 0) : Type 0 where
  pub parse_addr : Text → Result SocketAddr Text
  pub parse_url : Text → Result Text Text
  pub parse_node : Text → Result Text Text

-- `Commands::Connect`
pub record ConnectArgs : Type 0 where
  pub server : Option Text
  pub peer : Option Text
  pub transport : TransportMode
  pub identity : Option Text
  pub socks5 : Text
  pub forward : List Text
  pub remote_forward : List Text
  pub proxy : Option Text
  pub iroh_relay : Option Text
  pub tls_server_name : Option Text
  pub insecure : Bool

-- `Commands::Serve`
pub record ServeArgs : Type 0 where
  pub key : Text
  pub authorized_keys : Option Text
  pub cert_authority : Option Text
  pub transport : ServeTransportMode
  pub listen : Text
  pub tls_cert : Option Text
  pub tls_key : Option Text
  pub acme_domain : Option Text
  pub stealth : Bool
  pub proxy : Option Text
  pub iroh_relay : Option Text
  pub max_connections_per_ip : ℕ
  pub max_auth_attempts : ℕ

pub data Dialer (SocketAddr : Type 0) : Type 0 where
  tcp_dialer : SocketAddr → Dialer SocketAddr
  tls_dialer : SocketAddr → Option Text → Bool → Dialer SocketAddr
  iroh_dialer : Text → Option Text → Option Text → Dialer SocketAddr

pub data Acceptor (SocketAddr : Type 0) : Type 0 where
  tcp_acceptor : SocketAddr → Acceptor SocketAddr
  acme_acceptor : SocketAddr → Text → Acceptor SocketAddr
  tls_acceptor : SocketAddr → Text → Text → Acceptor SocketAddr
  iroh_acceptor : Option Text → Option Text → Acceptor SocketAddr

-- `if let Some(ref x) = o { opts = set(x) }`
abbrev pub given : {A Options : Type 0} → Option A → (A → Options → Options) → Options → Options
given none set options = options
given (some a) set options = set a options

-- `for x in xs { opts = add(x) }`
abbrev pub each : {A Options : Type 0} → List A → (A → Options → Options) → Options → Options
each [] add options = options
each (a ∷ rest) add options = each rest add (add a options)

-- `ok_or_else`
abbrev pub required : {A : Type 0} → Option A → Text → Result A Text
required (some a) e = ok a
required none e = err e

-- A value that is parsed where it is given.
abbrev pub optional :
    {A : Type 0} → (Text → Result A Text) → Text → Option Text → Result (Option A) Text
optional parse name none = ok none
optional parse name (some u) = do parsed ← map_err (λ e. name ++ e) (parse u); ok (some parsed)

abbrev pub connect_options : ConnectArgs → Text → ConnectOptions
connect_options a identity =
    let base =
      Session.set_socks5_addr a.socks5
        (Session.set_transport_mode a.transport (Session.new_options (file identity))) in
    let endpoints = given a.peer Session.set_peer (given a.server Session.set_server base) in
    let forwards =
      each a.remote_forward Session.add_remote_forward
        (each a.forward Session.add_forward endpoints) in
    let tuned =
      given a.tls_server_name Session.set_tls_server_name
        (given a.iroh_relay Session.set_iroh_relay (given a.proxy Session.set_proxy forwards)) in
    if a.insecure then Session.set_insecure true tuned else tuned

abbrev serve_error_text : ServeError → Text
serve_error_text (config_error e) = text "config error: " ++ config_text e
serve_error_text (bind_failed e) = text "bind failed: " ++ e
serve_error_text (key_load_failed e) = text "key load failed: " ++ config_text e
serve_error_text accept_failed = text "accept failed"

module _ {SocketAddr : Type 0} (features : Features) (parsers : Parsers SocketAddr) where
  open parsers use {parse_addr, parse_url, parse_node}

  abbrev dialer : ConnectArgs → TransportMode → Result (Dialer SocketAddr) Text
  dialer a Session.tcp_mode = do
    server ← required a.server (text "--server is required for tcp transport")
    addr ← map_err (λ e. text "invalid server address: " ++ e) (parse_addr server)
    ok (tcp_dialer addr)
  dialer a Session.tls_mode = do
    refuse_if (not features.tls)
        (text "TLS transport is not available (alknet-core built without 'tls' feature)")
    server ← required a.server (text "--server is required for tls transport")
    addr ← map_err (λ e. text "invalid server address: " ++ e) (parse_addr server)
    ok (tls_dialer addr a.tls_server_name a.insecure)
  dialer a Session.iroh_mode = do
    refuse_if (not features.iroh)
        (text "iroh transport is not available (alknet-core built without 'iroh' feature)")
    peer ← required a.peer (text "--peer is required for iroh transport")
    node ← map_err (λ e. text "invalid iroh peer endpoint ID: " ++ e) (parse_node peer)
    relay ← optional parse_url (text "invalid iroh relay URL: ") a.iroh_relay
    proxy ← optional parse_url (text "invalid proxy URL: ") a.proxy
    ok (iroh_dialer node relay proxy)

  -- `run_connect` as far as the session: its options and the transport that it dials with.
  unfoldable pub run_connect : ConnectArgs → Result (ConnectOptions × Dialer SocketAddr) Text
  unfolding Session.validate
  run_connect a = do
    identity ← required a.identity (text "--identity is required (or set ALKNET_IDENTITY env var)")
    map_err config_text (Session.validate (connect_options a identity))
    dial ← dialer a a.transport
    ok (connect_options a identity, dial)

  abbrev pub serve_options : ServeArgs → ServeOptions SocketAddr
  serve_options a =
      let base = Options.set_max_auth_attempts a.max_auth_attempts (
        Options.set_max_connections_per_ip a.max_connections_per_ip (
          Options.set_stealth a.stealth (
            Options.set_listen_addr a.listen
              (Options.set_transport_mode a.transport (Options.new_options (file a.key)))))) in
      let keys =
        given a.cert_authority (λ path. Options.set_cert_authority (file path))
          (given a.authorized_keys (λ path. Options.set_authorized_keys (file path)) base) in
      let certificates =
        given a.acme_domain Options.set_acme_domain
          (given a.tls_key Options.set_tls_key (given a.tls_cert Options.set_tls_cert keys)) in
      given a.iroh_relay Options.set_iroh_relay (given a.proxy Options.set_proxy certificates)

  abbrev pub tls_bind : ServeArgs → SocketAddr → Option Text → Result (Acceptor SocketAddr) Text
  tls_bind a addr (some domain) = ok (acme_acceptor addr domain)
  tls_bind a addr none = do
    cert_path ←
        required a.tls_cert (text "--tls-cert is required for TLS transport (or use --acme-domain)")
    key_path ←
        required a.tls_key (text "--tls-key is required for TLS transport (or use --acme-domain)")
    ok (tls_acceptor addr cert_path key_path)

  abbrev pub acceptor : ServeArgs → ServeTransportMode → Result (Acceptor SocketAddr) Text
  acceptor a tcp_mode = do
    addr ← map_err (λ e. text "invalid listen address: " ++ e) (parse_addr a.listen)
    ok (tcp_acceptor addr)
  acceptor a tls_mode = do
    refuse_if (not features.tls)
        (text "TLS transport is not available (alknet-core built without 'tls' feature)")
    addr ← map_err (λ e. text "invalid listen address: " ++ e) (parse_addr a.listen)
    tls_bind a addr (if features.acme then a.acme_domain else none)
  acceptor a iroh_mode = do
    refuse_if (not features.iroh)
        (text "iroh transport is not available (alknet-core built without 'iroh' feature)")
    relay ← optional parse_url (text "invalid iroh relay URL: ") a.iroh_relay
    proxy ← optional parse_url (text "invalid proxy URL: ") a.proxy
    ok (iroh_acceptor relay proxy)

  -- The checks of `run_serve` before it makes the server.
  abbrev pub checked : ServeArgs → Result (ServeOptions SocketAddr) Text
  checked a = do
    refuse_if (is_some a.acme_domain && not features.acme)
        (text "ACME support is not available (alknet built without 'acme' feature)")
    refuse_if (a.stealth && not (is_tls_mode a.transport))
        (text "stealth mode requires TLS transport (--transport tls)")
    map_err config_text (Options.validate (serve_options a))
    ok (serve_options a)

  abbrev pub with_acceptor :
      ServeArgs
      → Run (Result (Server SocketAddr) ServeError)
      → Run (Result (Server SocketAddr × Acceptor SocketAddr) Text)
  with_acceptor a panicked = panicked
  with_acceptor a (returned (err e)) = returned (err (serve_error_text e))
  with_acceptor a (returned (ok server)) =
      returned (do accepts ← acceptor a a.transport; ok (server, accepts))

  abbrev pub make_and_bind :
      (ServeOptions SocketAddr → Run (Result (Server SocketAddr) ServeError))
      → ServeArgs
      → Result (ServeOptions SocketAddr) Text
      → Run (Result (Server SocketAddr × Acceptor SocketAddr) Text)
  make_and_bind make a (err e) = returned (err e)
  make_and_bind make a (ok options) = with_acceptor a (make options)

  -- `run_serve` as far as `Server::run`, where `make` is `Server::new`: the server, and what it
  -- accepts connections with.
  unfoldable pub run_serve :
      (ServeOptions SocketAddr → Run (Result (Server SocketAddr) ServeError))
      → ServeArgs
      → Run (Result (Server SocketAddr × Acceptor SocketAddr) Text)
  unfolding Options.validate
  run_serve make a = make_and_bind make a (checked a)
