-- ===== src/Server/Accept.antt =====
-- `Server` of crates/alknet-core/src/server/serve.rs: its making, the accept loop, the tasks of its
-- connections, and the shutdown. What happens is a list of events, one after the other. A connection
-- that is accepted waits in its task until the event at which `handle_connection` returns; what
-- comes over it until then is its `Connection`, and stands from the start.
pub mod Shutdown
pub mod Reach
pub mod Start
use alknet.Prelude.{
  ℕ, zero, suc, Bool, true, false, not, Option, none, some, List, [], ◌∷◌, ◌++◌, Text,
  if◌then◌else◌, Result, ok, err, map_err, Run, returned, panicked,
}
use alknet.Net.{Net, TransportKind}
use alknet.Error.{ConfigError}
use alknet.Auth.Identity.{IdentityProvider}
use alknet.Auth.Keys.Load.{KeyCrates}
use alknet.Config.Static.{StaticConfig, DynamicConfig, ProxyMode, from_serve_options}
use alknet.Server.RateLimit
use alknet.Server.RateLimit.{ConnectionRateLimiter}
use alknet.Server.Handler
use alknet.Server.Handler.{drop_handler}
use alknet.Server.Listener.{ListenerConfig, StreamListenerConfig, stream, http, dns}
use alknet.Server.Options.{ServeOptions}
use alknet.Server.Tasks.{Live, handling, handle_at, end_at}
use alknet.Server.Stealth.{Connection}

pub data ServeError : Type 0 where
  config_error key_load_failed : ConfigError → ServeError
  bind_failed : Text → ServeError
  accept_failed : ServeError

-- The state of a server: the limiter, the live connections, the active sessions that were noted, and
-- the flag of the shutdown channel.
pub record Server (SocketAddr : Type 0) : Type 0 where
  pub limiter : ConnectionRateLimiter
  pub live : List Live
  pub outbound_proxy : Option (ProxyMode SocketAddr)
  pub listeners : List (ListenerConfig SocketAddr)
  pub max_auth_attempts : ℕ
  pub is_shutdown : Bool
  pub sessions : List ℕ

-- What happens in the tasks: `handle_connection` returns for the live connection at a place, or the
-- session that runs at a place ends.
pub data Background : Type 0 where
  handled ends : ℕ → Background

-- What happens while the accept loop runs: a connection from an address, a failed accept, something
-- in the tasks, and the shutdown signal.
pub data Incoming : Type 0 where
  arrives : Option Text → Connection → Incoming
  accept_fails : Text → Incoming
  meanwhile : Background → Incoming
  signal : Incoming

-- How far `run` has come after these events: it still serves, or it has returned after it
-- disconnected the first sessions and aborted the second.
pub data Progress (SocketAddr : Type 0) : Type 0 where
  serving : Server SocketAddr → Progress SocketAddr
  finished : List ℕ → List ℕ → Server SocketAddr → Progress SocketAddr

module _ {SocketAddr : Type 0} where
  abbrev pub server_of :
      {PrivateKey : Type 0} → StaticConfig SocketAddr PrivateKey → Server SocketAddr
  server_of c = record {
    limiter = RateLimit.new c.max_connections_per_ip;
    live = [];
    outbound_proxy = c.proxy_config;
    listeners = c.listeners;
    max_auth_attempts = c.max_auth_attempts;
    is_shutdown = false;
    sessions = [];
  }

  -- The server of a static configuration, or its error as one of the server.
  abbrev pub of_config :
      {PrivateKey : Type 0} {net : Net} {Credentials : Type 0}
      → Run
          (Result (StaticConfig SocketAddr PrivateKey × DynamicConfig net Credentials) ConfigError)
      → Run (Result (Server SocketAddr) ServeError)
  of_config panicked = panicked
  of_config (returned (err e)) = returned (err (config_error e))
  of_config (returned (ok (c, dynamic))) = returned (ok (server_of c))

  -- `Server::new`
  unfoldable pub new :
      {PrivateKey : Type 0}
      → (net : Net) → (Credentials : Type 0) → (Text → Result SocketAddr Text)
      → KeyCrates PrivateKey
      → ServeOptions SocketAddr
      → Run (Result (Server SocketAddr) ServeError)
  unfolding from_serve_options
  new net Credentials parse_addr crates o =
      of_config (from_serve_options parse_addr crates {net = net} {Credentials = Credentials} o)

  module _ (http_feature : Bool) (provider : IdentityProvider) (config : StreamListenerConfig) where
    unfoldable pub on_background : Server SocketAddr → Background → Server SocketAddr
    on_background s (handled n) =
        let (pushed, (live, l)) = handle_at http_feature provider config n s.live s.limiter in
        record s { limiter = l; live = live; sessions = s.sessions ++ pushed }
    on_background s (ends n) =
        let (live, l) = end_at n s.live s.limiter in record s { limiter = l; live = live }

    unfoldable pub on_background_all : Server SocketAddr → List Background → Server SocketAddr
    unfolding on_background
    on_background_all s [] = s
    on_background_all s (b ∷ bs) = on_background_all (on_background s b) bs

    -- A connection that the limiter refuses is dropped; for another a task is spawned.
    unfoldable pub on_connection : Server SocketAddr → Option Text → Connection → Server SocketAddr
    on_connection s remote c =
        let (h, l) = Handler.new s.limiter remote config.transport_kind s.max_auth_attempts in
        if not h.connection_allowed
        then record s { limiter = drop_handler h l }
        else record s { limiter = l; live = record { handler = h; phase = handling c } ∷ s.live }

    unfoldable pub on_incoming : Server SocketAddr → Incoming → Server SocketAddr
    unfolding on_connection on_background
    on_incoming s (arrives remote c) = on_connection s remote c
    on_incoming s (accept_fails e) = s
    on_incoming s (meanwhile b) = on_background s b
    on_incoming s signal = record s { is_shutdown = true }

    unfoldable pub accept_loop : Server SocketAddr → List Incoming → Server SocketAddr
    unfolding on_incoming
    accept_loop s [] = s
    accept_loop s (e ∷ es) =
        let next = accept_loop (on_incoming s e) es in if s.is_shutdown then s else next

    -- `Server::shutdown`: the flag is set and the sessions are disconnected; then, while it waits,
    -- the tasks go on; and then the sessions are drained and aborted. With the names of the
    -- disconnected and of the aborted ones.
    unfoldable pub shutdown :
        Server SocketAddr → List Background → (List ℕ × List ℕ) × Server SocketAddr
    unfolding on_background_all
    shutdown s drain =
        let waited = on_background_all (record s { is_shutdown = true }) drain in
        ((s.sessions, waited.sessions), record waited { sessions = [] })

    -- Out of the loop, which the flag ends, `run_stream` shuts down.
    abbrev pub ending : Bool → Server SocketAddr → List Background → Progress SocketAddr
    ending false reached drain = serving reached
    ending true reached drain =
        let ((disconnected, aborted), after) = shutdown reached drain in
        finished disconnected aborted after

  module _ (http_feature : Bool) (provider : IdentityProvider) where
    abbrev pub run_first :
        List (ListenerConfig SocketAddr)
        → Server SocketAddr
        → List Incoming
        → List Background
        → Run (Progress SocketAddr)
    run_first [] s es drain = panicked
    run_first (stream config ∷ _) s es drain =
        let reached = accept_loop http_feature provider config s es in
        returned (ending http_feature provider config reached.is_shutdown reached drain)
    run_first (http config ∷ _) s es drain = returned (finished [] [] s)
    run_first (dns config ∷ _) s es drain = returned (finished [] [] s)

    -- `Server::run`, with what happens until the loop ends and during the wait of the shutdown: the
    -- first listener decides; HTTP and DNS listeners are not served yet.
    unfoldable pub run :
        Server SocketAddr → List Incoming → List Background → Run (Progress SocketAddr)
    unfolding accept_loop shutdown
    run s es drain = run_first s.listeners s es drain
