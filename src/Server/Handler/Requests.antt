-- ===== src/Server/Handler/Requests.antt =====
-- What a connection is answered to each request of an SSH client: the methods of
-- `impl russh::server::Handler for ServerHandler` in crates/alknet-core/src/server/handler.rs. The
-- policy and the keys are those loaded at the time of the request.
pub mod Targets
use alknet.Prelude.{ℕ, Bool, false, Option, List, [], ◌∷◌, Text}
use alknet.Net.{Net}
use alknet.Auth.Identity.{Identity}
use alknet.Config.Forwarding.{ForwardingPolicy}
use alknet.Server.Handler.{
  ServerHandler, Opened, refused, auth_publickey, channel_open_direct_tcpip,
}

-- What russh hands to the handler. A channel is its number; what a method only logs or drops is
-- left out.
pub data Request : Type 0 where
  publickey streamlocal : Text → Request
  direct_tcpip forwarded_tcpip remote_forward cancel_forward : Text → ℕ → Request
  session_channel x11_channel : Request
  exec shell subsystem pty env x11 agent signalled : ℕ → Request

-- The answers: whether a login is accepted, what becomes of a channel, whether another request is
-- granted, a failure on a channel, and none.
pub data Reply : Type 0 where
  login granted : Bool → Reply
  opened : Opened → Reply
  channel_failure : ℕ → Reply
  unanswered : Reply

unfoldable pub channel_open_session : ServerHandler → Reply
channel_open_session h = opened refused

unfoldable pub channel_open_x11 : ServerHandler → Reply
channel_open_x11 h = opened refused

unfoldable pub channel_open_forwarded_tcpip : ServerHandler → Text → ℕ → Reply
channel_open_forwarded_tcpip h host port = opened refused

unfoldable pub exec_request : ServerHandler → ℕ → Reply
exec_request h channel = channel_failure channel

unfoldable pub shell_request : ServerHandler → ℕ → Reply
shell_request h channel = channel_failure channel

unfoldable pub subsystem_request : ServerHandler → ℕ → Reply
subsystem_request h channel = channel_failure channel

unfoldable pub pty_request : ServerHandler → ℕ → Reply
pty_request h channel = channel_failure channel

unfoldable pub env_request : ServerHandler → ℕ → Reply
env_request h channel = channel_failure channel

unfoldable pub x11_request : ServerHandler → ℕ → Reply
x11_request h channel = channel_failure channel

unfoldable pub agent_request : ServerHandler → ℕ → Reply
agent_request h channel = granted false

unfoldable pub tcpip_forward : ServerHandler → Text → ℕ → Reply
tcpip_forward h address port = granted false

unfoldable pub cancel_tcpip_forward : ServerHandler → Text → ℕ → Reply
cancel_tcpip_forward h address port = granted false

unfoldable pub streamlocal_forward : ServerHandler → Text → Reply
streamlocal_forward h socket_path = granted false

unfoldable pub signal : ServerHandler → ℕ → Reply
signal h channel = unanswered

-- A request, with the identity provider and the policy that are loaded when it comes.
pub record Incoming (net : Net) : Type 0 where
  pub request : Request
  pub resolve : Text → Option Identity
  pub policy : ForwardingPolicy net

module _ {net : Net} (resolve : Text → Option Identity) (policy : ForwardingPolicy net) where
  -- The method that russh calls for a request; only a login changes the handler.
  unfoldable pub respond : Request → ServerHandler → Reply × ServerHandler
  respond (publickey key) h =
      let (accepted, h') = auth_publickey resolve h key in (login accepted, h')
  respond (direct_tcpip host port) h = (opened (channel_open_direct_tcpip policy h host port), h)
  respond session_channel h = (channel_open_session h, h)
  respond x11_channel h = (channel_open_x11 h, h)
  respond (forwarded_tcpip host port) h = (channel_open_forwarded_tcpip h host port, h)
  respond (exec channel) h = (exec_request h channel, h)
  respond (shell channel) h = (shell_request h channel, h)
  respond (subsystem channel) h = (subsystem_request h channel, h)
  respond (pty channel) h = (pty_request h channel, h)
  respond (env channel) h = (env_request h channel, h)
  respond (x11 channel) h = (x11_request h channel, h)
  respond (agent channel) h = (agent_request h channel, h)
  respond (remote_forward address port) h = (tcpip_forward h address port, h)
  respond (cancel_forward address port) h = (cancel_tcpip_forward h address port, h)
  respond (streamlocal path) h = (streamlocal_forward h path, h)
  respond (signalled channel) h = (signal h channel, h)

-- The answer to a request that comes in, and the handler after it.
abbrev pub answer : {net : Net} → Incoming net → ServerHandler → Reply × ServerHandler
answer i h = respond i.resolve i.policy i.request h

-- The handler after a list of requests.
abbrev pub after : {net : Net} → List (Incoming net) → ServerHandler → ServerHandler
after [] h = h
after (i ∷ rest) h = after rest (answer i h).1
