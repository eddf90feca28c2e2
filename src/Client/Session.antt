-- ===== src/Client/Session.antt =====
-- crates/alknet-core/src/client/connect.rs: the options of a client, what it makes of them, and its
-- session. The clock counts the seconds slept.
pub mod Agreement
use alknet.Prelude.{
  ℕ, ◌+◌, ◌%◌, ◌^◌, Bool, true, false, not, ◌&&◌, ◌||◌, Option, none, some, List, [], ◌∷◌, ◌++◌,
  Text, text, if◌then◌else◌, ◌==◌, Result, ok, err, ◌>>=◌, ◌>>◌, map_err, refuse_if, is_some,
}
use alknet.Error.{ConfigError, invalid_flag}
use alknet.Auth.Keys.Load.{KeySource, KeyCrates, load_private_key}
use alknet.Client.Forward.{
  PortForwardSpec, PortForwardSpecKind, local_kind, remote_kind, ForwardError, invalid_spec,
  parse_spec,
}
use alknet.Client.Ssh.{SshClient, Attempt}

pub data TransportMode : Type 0 where
  tcp_mode tls_mode iroh_mode : TransportMode

pub record ConnectOptions : Type 0 where
  pub server : Option Text
  pub peer : Option Text
  pub transport_mode : TransportMode
  pub identity : KeySource
  pub socks5_addr : Text
  pub forwards : List Text
  pub remote_forwards : List Text
  pub proxy : Option Text
  pub iroh_relay : Option Text
  pub tls_server_name : Option Text
  pub insecure : Bool

abbrev pub new_options : KeySource → ConnectOptions
new_options identity = record {
  server = none;
  peer = none;
  transport_mode = tcp_mode;
  identity = identity;
  socks5_addr = text "127.0.0.1:1080";
  forwards = [];
  remote_forwards = [];
  proxy = none;
  iroh_relay = none;
  tls_server_name = none;
  insecure = false;
}

-- The builders.
abbrev pub set_server : Text → ConnectOptions → ConnectOptions
set_server addr o = record o { server = some addr }

abbrev pub set_peer : Text → ConnectOptions → ConnectOptions
set_peer endpoint_id o = record o { peer = some endpoint_id }

abbrev pub set_transport_mode : TransportMode → ConnectOptions → ConnectOptions
set_transport_mode mode o = record o { transport_mode = mode }

abbrev pub set_socks5_addr : Text → ConnectOptions → ConnectOptions
set_socks5_addr addr o = record o { socks5_addr = addr }

abbrev pub add_forward : Text → ConnectOptions → ConnectOptions
add_forward spec o = record o { forwards = o.forwards ++ spec ∷ [] }

abbrev pub add_remote_forward : Text → ConnectOptions → ConnectOptions
add_remote_forward spec o = record o { remote_forwards = o.remote_forwards ++ spec ∷ [] }

abbrev pub set_proxy : Text → ConnectOptions → ConnectOptions
set_proxy url o = record o { proxy = some url }

abbrev pub set_iroh_relay : Text → ConnectOptions → ConnectOptions
set_iroh_relay url o = record o { iroh_relay = some url }

abbrev pub set_tls_server_name : Text → ConnectOptions → ConnectOptions
set_tls_server_name name o = record o { tls_server_name = some name }

abbrev pub set_insecure : Bool → ConnectOptions → ConnectOptions
set_insecure insecure o = record o { insecure = insecure }

unfoldable pub validate : ConnectOptions → Result (Unit {0}) ConfigError
validate o = elim o.transport_mode [
  | iroh_mode ↦
      refuse_if (not (is_some o.peer)) (invalid_flag (text "--peer is required for iroh transport"))
  | _ ↦
      refuse_if (not (is_some o.server))
        (invalid_flag (text "--server is required for tcp/tls transport"))
]

pub data ConnectError : Type 0 where
  connection_failed auth_failed forward_failed : ConnectError
  config_error : ConfigError → ConnectError

-- `LocalForwarder::new` and `RemoteForwarder::new`, which keep the specification of their kind.
abbrev pub is_remote : PortForwardSpecKind → Bool
is_remote remote_kind = true
is_remote local_kind = false

unfoldable pub local_forwarder : PortForwardSpec → Result PortForwardSpec ForwardError
local_forwarder spec = do
  refuse_if (is_remote spec.kind) (invalid_spec (text "expected local spec, got Remote"))
  ok spec

unfoldable pub remote_forwarder : PortForwardSpec → Result PortForwardSpec ForwardError
remote_forwarder spec = do
  refuse_if (not (is_remote spec.kind)) (invalid_spec (text "expected remote spec, got Local"))
  ok spec

-- The loops of `build_local_forwarders` and `build_remote_specs`.
unfoldable pub build_local_forwarders : List Text → Result (List PortForwardSpec) ConnectError
unfolding parse_spec local_forwarder
build_local_forwarders [] = ok []
build_local_forwarders (spec_str ∷ rest) = do
  spec ←
      map_err (λ _. config_error (invalid_flag (text "invalid forward spec: " ++ spec_str)))
        (parse_spec local_kind spec_str)
  forwarder ← map_err (λ _. forward_failed) (local_forwarder spec)
  forwarders ← build_local_forwarders rest
  ok (forwarder ∷ forwarders)

unfoldable pub build_remote_specs : List Text → Result (List PortForwardSpec) ConnectError
unfolding parse_spec
build_remote_specs [] = ok []
build_remote_specs (spec_str ∷ rest) = do
  spec ←
      map_err (λ _. config_error (invalid_flag (text "invalid remote forward spec: " ++ spec_str)))
        (parse_spec remote_kind spec_str)
  specs ← build_remote_specs rest
  ok (spec ∷ specs)

-- `derive_username`, of the two environment variables.
abbrev pub derive_username : Option Text → Option Text → Text
derive_username (some user) _ = user
derive_username none (some username) = username
derive_username none none = text "alknet"

abbrev pub auth_outcome : {Handle : Type 0} → Result Bool Text × Handle → Result Handle ConnectError
auth_outcome (err e, handle) = err auth_failed
auth_outcome (ok false, handle) = err auth_failed
auth_outcome (ok true, handle) = ok handle

-- `RemoteForwarder::new` and `register` for each specification in turn: the registration of one that
-- is refused, by either, leaves a warning.
abbrev pub register :
    (ssh : SshClient) → Result PortForwardSpec ForwardError → ssh.Handle → ssh.Handle
register ssh (err e) handle = handle
register ssh (ok spec) handle = (ssh.tcpip_forward handle spec.bind_addr spec.bind_port).1

unfoldable pub register_all : (ssh : SshClient) → List PortForwardSpec → ssh.Handle → ssh.Handle
unfolding remote_forwarder
register_all ssh [] handle = handle
register_all ssh (spec ∷ specs) handle =
    register_all ssh specs (register ssh (remote_forwarder spec) handle)

-- 1s, 2s, 4s, 8s, 16s, and then 30s.
unfoldable pub backoff_duration : ℕ → ℕ
backoff_duration attempt =
    if attempt == 0
    then 1
    else if attempt == 1
    then 2
    else if attempt == 2
    then 4
    else if attempt == 3
    then 8
    else if attempt == 4
    then 16
    else 30

-- What the reconnect monitor of `run` keeps: the handle, its count of failed attempts, and the clock.
pub record Monitor (ssh : SshClient) : Type 0 where
  pub handle : ssh.Handle
  pub attempts : ℕ
  pub clock : ℕ

module _ {ssh : SshClient} where
  unfoldable pub establish_session : Attempt ssh → Result ssh.Handle ConnectError
  establish_session a = do
    stream ← map_err (λ _. connection_failed) a.connect
    handle ← map_err (λ _. connection_failed) (a.connect_stream stream)
    auth_outcome (a.authenticate handle)

  -- `ClientSession::new`: the handle of the session, where the options and their key are good.
  unfoldable pub new :
      {PrivateKey : Type 0}
      → KeyCrates PrivateKey
      → ConnectOptions
      → Attempt ssh
      → Result ssh.Handle ConnectError
  unfolding validate load_private_key establish_session
  new crates o a = do
    map_err config_error (validate o)
    private_key ← map_err config_error (load_private_key crates o.identity)
    establish_session a

  abbrev pub after_attempt :
      List PortForwardSpec → Monitor ssh → Result ssh.Handle ConnectError → Monitor ssh
  after_attempt specs m (err e) = record m { attempts = (m.attempts + 1) % 2 ^ 32 }
  after_attempt specs m (ok new_handle) = record m {
    handle = register_all ssh specs new_handle;
    attempts = 0;
  }

  -- One turn of the loop of the reconnect monitor, when no shutdown is signalled.
  unfoldable pub monitor_turn : List PortForwardSpec → Monitor ssh → Attempt ssh → Monitor ssh
  unfolding establish_session register_all
  monitor_turn specs m a =
      if ssh.is_closed m.handle
      then after_attempt specs (record m { clock = m.clock + 1 + backoff_duration m.attempts })
          (establish_session a)
      else record m { clock = m.clock + 1 }
