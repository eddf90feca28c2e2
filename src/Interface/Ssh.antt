-- ===== src/Interface/Ssh.antt =====
-- `SshHandler` of crates/alknet-core/src/interface/ssh.rs: the handler of an SSH connection that an
-- interface accepts, whose control channel is bridged to the session. It repeats most of the
-- handler of server/handler.rs. The bridge is there as long as neither end of it was taken.
pub mod Agreement
pub mod Bridge
mod Tests
use alknet.Prelude.{
  ℕ, ◌%◌, ◌^◌, Bool, true, false, not, ◌&&◌, Option, none, some, List, [], ◌∷◌, Text, text, text_eq,
  starts_with, if◌then◌else◌,
}
use alknet.Net.{Net, TransportKind, tcp}
use alknet.Auth.Identity.{Identity}
use alknet.Config.Forwarding
use alknet.Config.Forwarding.{ForwardingPolicy}
use alknet.Server.RateLimit
use alknet.Server.RateLimit.{
  ConnectionRateLimiter, AuthAttemptLimiter, on_connect, on_disconnect, new_attempts, may_attempt,
  on_failure,
}
use alknet.Server.Handler.{or_anonymous}
use alknet.Server.Handler.Requests
use alknet.Server.Handler.Requests.{Request, Incoming}

pub record SshHandler : Type 0 where
  pub remote_ip : Option Text
  pub transport : TransportKind
  pub connection_allowed : Bool
  pub auth_limiter : AuthAttemptLimiter
  pub authenticated_identity : Option Identity
  pub has_control_handler : Bool
  pub has_bridge : Bool

abbrev pub handler_of : Option Text → TransportKind → ℕ → Bool → SshHandler
handler_of remote_ip transport max_auth_attempts allowed = record {
  remote_ip = remote_ip;
  transport = transport;
  connection_allowed = allowed;
  auth_limiter = new_attempts max_auth_attempts;
  authenticated_identity = none;
  has_control_handler = false;
  has_bridge = false;
}

-- `SshHandler::new`, with the limiter that it leaves.
unfoldable pub new :
    ConnectionRateLimiter → Option Text → TransportKind → ℕ → SshHandler × ConnectionRateLimiter
new l none transport max_auth_attempts = (handler_of none transport max_auth_attempts true, l)
new l (some ip) transport max_auth_attempts =
    if RateLimit.check l ip
    then (handler_of (some ip) transport max_auth_attempts true, on_connect l ip)
    else (handler_of (some ip) transport max_auth_attempts false, l)

-- `Drop::drop`
unfoldable pub drop_handler : SshHandler → ConnectionRateLimiter → ConnectionRateLimiter
drop_handler h l = elim h.remote_ip [
  | some ip ↦ if h.connection_allowed then on_disconnect l ip else l
  | none ↦ l
]

abbrev pub with_bridge_channels : SshHandler → SshHandler
with_bridge_channels h = record h { has_bridge = true }

-- The handler that `accept_inner` runs for a stream; `accept` gives it no address, and the transport
-- is TCP.
unfoldable pub accept : ConnectionRateLimiter → ℕ → SshHandler × ConnectionRateLimiter
accept l max_auth_attempts =
    let (h, l') = new l none tcp max_auth_attempts in (with_bridge_channels h, l')

unfoldable pub auth_publickey : (Text → Option Identity) → SshHandler → Text → Bool × SshHandler
auth_publickey resolve h fingerprint =
    if not (may_attempt h.auth_limiter) then (false, h) else elim (resolve fingerprint) [
      | some id ↦ (true, record h { authenticated_identity = some id })
      | none ↦ (false, record h { auth_limiter = on_failure h.auth_limiter })
    ]

-- What becomes of a channel: it is refused, handed to the control handler, bridged to the session
-- under an identity, or connected to a target.
pub data Opened : Type 0 where
  refused handled : Opened
  bridged : Option Identity → Opened
  connected : Text → ℕ → Opened

pub data Reply : Type 0 where
  login granted : Bool → Reply
  opened : Opened → Reply
  channel_failure : ℕ → Reply
  unanswered : Reply

-- A channel for a reserved host: the bridge and the control handler are taken by their first use.
unfoldable pub open_reserved : SshHandler → Text → Opened × SshHandler
open_reserved h host =
    if text_eq host (text "alknet-control") && h.has_bridge
    then (bridged h.authenticated_identity, record h { has_bridge = false })
    else if h.has_control_handler
    then (handled, record h { has_control_handler = false })
    else (refused, h)

-- The port is of 32 bits, of which the policy and the lookup of the target see the low 16.
unfoldable pub channel_open_direct_tcpip :
    {net : Net} → ForwardingPolicy net → SshHandler → Text → ℕ → Opened × SshHandler
channel_open_direct_tcpip policy h host port =
    if starts_with (text "alknet-") host
    then open_reserved h host
    else if not (
        Forwarding.check policy host (port % 2 ^ 16) (or_anonymous h.authenticated_identity)
          h.transport)
    then (refused, h)
    else (connected host (port % 2 ^ 16), h)

unfoldable pub channel_open_session : SshHandler → Reply
channel_open_session h = opened refused

unfoldable pub channel_open_x11 : SshHandler → Reply
channel_open_x11 h = opened refused

unfoldable pub channel_open_forwarded_tcpip : SshHandler → Text → ℕ → Reply
channel_open_forwarded_tcpip h host port = opened refused

unfoldable pub exec_request : SshHandler → ℕ → Reply
exec_request h channel = channel_failure channel

unfoldable pub shell_request : SshHandler → ℕ → Reply
shell_request h channel = channel_failure channel

unfoldable pub subsystem_request : SshHandler → ℕ → Reply
subsystem_request h channel = channel_failure channel

unfoldable pub pty_request : SshHandler → ℕ → Reply
pty_request h channel = channel_failure channel

unfoldable pub env_request : SshHandler → ℕ → Reply
env_request h channel = channel_failure channel

unfoldable pub x11_request : SshHandler → ℕ → Reply
x11_request h channel = channel_failure channel

unfoldable pub agent_request : SshHandler → ℕ → Reply
agent_request h channel = granted false

unfoldable pub tcpip_forward : SshHandler → Text → ℕ → Reply
tcpip_forward h address port = granted false

unfoldable pub cancel_tcpip_forward : SshHandler → Text → ℕ → Reply
cancel_tcpip_forward h address port = granted false

unfoldable pub streamlocal_forward : SshHandler → Text → Reply
streamlocal_forward h socket_path = granted false

unfoldable pub signal : SshHandler → ℕ → Reply
signal h channel = unanswered

module _ {net : Net} (resolve : Text → Option Identity) (policy : ForwardingPolicy net) where
  -- The method that russh calls for a request.
  unfoldable pub respond : Request → SshHandler → Reply × SshHandler
  respond (Requests.publickey key) h =
      let (accepted, h') = auth_publickey resolve h key in (login accepted, h')
  respond (Requests.direct_tcpip host port) h =
      let (channel, h') = channel_open_direct_tcpip policy h host port in (opened channel, h')
  respond Requests.session_channel h = (channel_open_session h, h)
  respond Requests.x11_channel h = (channel_open_x11 h, h)
  respond (Requests.forwarded_tcpip host port) h = (channel_open_forwarded_tcpip h host port, h)
  respond (Requests.exec channel) h = (exec_request h channel, h)
  respond (Requests.shell channel) h = (shell_request h channel, h)
  respond (Requests.subsystem channel) h = (subsystem_request h channel, h)
  respond (Requests.pty channel) h = (pty_request h channel, h)
  respond (Requests.env channel) h = (env_request h channel, h)
  respond (Requests.x11 channel) h = (x11_request h channel, h)
  respond (Requests.agent channel) h = (agent_request h channel, h)
  respond (Requests.remote_forward address port) h = (tcpip_forward h address port, h)
  respond (Requests.cancel_forward address port) h = (cancel_tcpip_forward h address port, h)
  respond (Requests.streamlocal path) h = (streamlocal_forward h path, h)
  respond (Requests.signalled channel) h = (signal h channel, h)

abbrev pub answer : {net : Net} → Incoming net → SshHandler → Reply × SshHandler
answer i h = respond i.resolve i.policy i.request h

-- The answers to a list of requests.
abbrev pub replies : {net : Net} → List (Incoming net) → SshHandler → List Reply
replies [] h = []
replies (i ∷ rest) h = let (reply, h') = answer i h in reply ∷ replies rest h'
