-- ===== src/Interface/Ssh/Bridge.antt =====
-- The bridge of a connection is used once.
use alknet.Prelude.{
  ℕ, ◌+◌, ◌≤◌, ◌≡◌, inl, inr, Option, List, [], ◌∷◌, Text, if◌then◌else◌, arith, Bool-cases,
  Option-cases,
}
use alknet.Net.{Net}
use alknet.Auth.Identity.{Identity}
use alknet.Config.Forwarding.{ForwardingPolicy}
use alknet.Server.RateLimit.{may_attempt}
use alknet.Server.Handler.Requests
use alknet.Server.Handler.Requests.{Request, Incoming}
use alknet.Interface.Ssh.{
  SshHandler, bridged, Reply, opened, auth_publickey, open_reserved, channel_open_direct_tcpip,
  respond, answer, replies, channel_open_session, channel_open_x11, channel_open_forwarded_tcpip,
  exec_request, shell_request, subsystem_request, pty_request, env_request, x11_request,
  agent_request, tcpip_forward, cancel_tcpip_forward, streamlocal_forward, signal,
}

abbrev pub bridges : Reply → ℕ
bridges (opened (bridged who)) = 1
bridges _ = 0

-- How many of the answers bridge a channel to the session.
abbrev pub count_bridged : List Reply → ℕ
count_bridged [] = 0
count_bridged (reply ∷ rest) = bridges reply + count_bridged rest

abbrev pub left : SshHandler → ℕ
left h = if h.has_bridge then 1 else 0

auth_publickey-left :
    (resolve : Text → Option Identity) (h : SshHandler) (key : Text)
    → left (auth_publickey resolve h key).1 ≡ left h
unfolding auth_publickey
auth_publickey-left resolve h key = elim (Bool-cases (may_attempt h.auth_limiter)) [
  | inr barred ↦ ground arith
  | inl free ↦ elim (Option-cases (resolve key)) [
    | inl unknown ↦ ground arith
    | inr (id, known) ↦ ground arith
  ]
]

channel_open_direct_tcpip-left :
    {net : Net} (policy : ForwardingPolicy net) (h : SshHandler) (host : Text) (port : ℕ)
    → bridges (opened (channel_open_direct_tcpip policy h host port).0)
        + left (channel_open_direct_tcpip policy h host port).1
      ≡ left h
unfolding channel_open_direct_tcpip open_reserved
channel_open_direct_tcpip-left policy h host port = ground arith

respond-left :
    {net : Net} (resolve : Text → Option Identity) (policy : ForwardingPolicy net) (r : Request)
    (h : SshHandler)
    → bridges (respond resolve policy r h).0 + left (respond resolve policy r h).1 ≡ left h
unfolding respond channel_open_session channel_open_x11 channel_open_forwarded_tcpip exec_request
    shell_request subsystem_request pty_request env_request x11_request agent_request tcpip_forward
    cancel_tcpip_forward streamlocal_forward signal
respond-left resolve policy (Requests.publickey key) h =
    let kept = auth_publickey-left resolve h key in omega arith
respond-left resolve policy (Requests.direct_tcpip host port) h =
    channel_open_direct_tcpip-left policy h host port
respond-left resolve policy _ h = ground arith

-- Whatever a client asks for, and in whatever order, a connection bridges at most one channel to its
-- session, and none when it has no bridge.
pub count_bridged-replies-le :
    {net : Net} (requests : List (Incoming net)) (h : SshHandler)
    → count_bridged (replies requests h) ≤ left h
count_bridged-replies-le [] h = omega arith
count_bridged-replies-le (i ∷ rest) h =
    let step = respond-left i.resolve i.policy i.request h in
    let later = count_bridged-replies-le rest (answer i h).1 in omega arith
