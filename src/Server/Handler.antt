-- ===== src/Server/Handler.antt =====
-- `ServerHandler` of crates/alknet-core/src/server/handler.rs: one SSH connection, from its admission
-- by the shared limiter to its end. The forwarding policy is the one loaded at the time of the call,
-- `resolve` is the identity provider, and an address is in its printed form.
pub mod Admission
pub mod Login
pub mod Channels
pub mod Requests
pub mod Tests
use alknet.Prelude.{
  ℕ, ◌%◌, ◌^◌, Bool, true, false, not, Option, none, some, List, [], ◌∷◌, Text, text, starts_with,
  if◌then◌else◌,
}
use alknet.Prelude.HashMap
use alknet.Net.{Net, TransportKind}
use alknet.Auth.Identity.{Identity}
use alknet.Config.Forwarding
use alknet.Config.Forwarding.{ForwardingPolicy}
use alknet.Server.RateLimit
use alknet.Server.RateLimit.{
  ConnectionRateLimiter, AuthAttemptLimiter, on_connect, on_disconnect, new_attempts, may_attempt,
  on_failure,
}

pub record ServerHandler : Type 0 where
  pub remote_ip : Option Text
  pub has_control_handler : Bool
  pub transport : TransportKind
  pub connection_allowed : Bool
  pub auth_limiter : AuthAttemptLimiter
  pub authenticated_identity : Option Identity

abbrev pub handler_of : Option Text → TransportKind → ℕ → Bool → ServerHandler
handler_of remote_ip transport max_auth_attempts allowed = record {
  remote_ip = remote_ip;
  has_control_handler = false;
  transport = transport;
  connection_allowed = allowed;
  auth_limiter = new_attempts max_auth_attempts;
  authenticated_identity = none;
}

-- `ServerHandler::new`, with the limiter that it leaves.
unfoldable pub new :
    ConnectionRateLimiter → Option Text → TransportKind → ℕ → ServerHandler × ConnectionRateLimiter
new l none transport max_auth_attempts = (handler_of none transport max_auth_attempts true, l)
new l (some ip) transport max_auth_attempts =
    if RateLimit.check l ip
    then (handler_of (some ip) transport max_auth_attempts true, on_connect l ip)
    else (handler_of (some ip) transport max_auth_attempts false, l)

-- `Drop::drop`
unfoldable pub drop_handler : ServerHandler → ConnectionRateLimiter → ConnectionRateLimiter
drop_handler h l = elim h.remote_ip [
  | some ip ↦ if h.connection_allowed then on_disconnect l ip else l
  | none ↦ l
]

-- `auth_publickey`: whether the key with this fingerprint is accepted.
unfoldable pub auth_publickey :
    (Text → Option Identity) → ServerHandler → Text → Bool × ServerHandler
auth_publickey resolve h fingerprint =
    if not (may_attempt h.auth_limiter) then (false, h) else elim (resolve fingerprint) [
      | some id ↦ (true, record h { authenticated_identity = some id })
      | none ↦ (false, record h { auth_limiter = on_failure h.auth_limiter })
    ]

-- What becomes of a channel that a client asks for: it is refused, accepted and dropped for
-- a reserved host, or connected to a target.
pub data Opened : Type 0 where
  refused control : Opened
  connected : Text → ℕ → Opened

abbrev pub anonymous : Identity
anonymous = record { id = []; scopes = []; resources = HashMap.new }

abbrev pub or_anonymous : Option Identity → Identity
or_anonymous none = anonymous
or_anonymous (some identity) = identity

-- `channel_open_direct_tcpip`; the port is of 32 bits. The policy sees its low 16, and so does the
-- lookup of the target: a larger port is no part of a socket address, and is cut for `lookup_host`.
unfoldable pub channel_open_direct_tcpip :
    {net : Net} → ForwardingPolicy net → ServerHandler → Text → ℕ → Opened
channel_open_direct_tcpip policy h host port =
    if starts_with (text "alknet-") host
    then (if not h.has_control_handler then refused else control)
    else if not (
        Forwarding.check policy host (port % 2 ^ 16) (or_anonymous h.authenticated_identity)
          h.transport)
    then refused
    else connected host (port % 2 ^ 16)
