-- ===== src/Interface/Ssh/Agreement.antt =====
-- The handler of an interface answers as that of the server does, its bridge aside.
use alknet.Prelude.{
  ℕ, ◌%◌, ◌^◌, ◌≡◌, refl, ◌∙◌, ap, text_eq, ◌&&◌, inl, inr, false, Option, List, [], ◌∷◌, Text,
  text, map, starts_with, arith, Bool-cases, Option-cases,
}
use alknet.Net.{Net}
use alknet.Auth.Identity.{Identity}
use alknet.Config.Forwarding
use alknet.Config.Forwarding.{ForwardingPolicy}
use alknet.Server.RateLimit.{may_attempt}
use alknet.Server.Handler
use alknet.Server.Handler.{ServerHandler, or_anonymous}
use alknet.Server.Handler.Requests
use alknet.Server.Handler.Requests.{Request, Incoming}
use alknet.Interface.Ssh.{
  SshHandler, Opened, refused, handled, bridged, connected, Reply, login, granted, opened,
  channel_failure, unanswered, auth_publickey, open_reserved, channel_open_direct_tcpip, respond,
  answer, replies, channel_open_session, channel_open_x11, channel_open_forwarded_tcpip,
  exec_request, shell_request, subsystem_request, pty_request, env_request, x11_request,
  agent_request, tcpip_forward, cancel_tcpip_forward, streamlocal_forward, signal,
}

-- The handler of the server with the same state, without a control handler.
abbrev pub view : SshHandler → ServerHandler
view h = record {
  remote_ip = h.remote_ip;
  has_control_handler = false;
  transport = h.transport;
  connection_allowed = h.connection_allowed;
  auth_limiter = h.auth_limiter;
  authenticated_identity = h.authenticated_identity;
}

-- The answers of the server's handler; a bridged channel is one that it refuses.
abbrev pub opened_view : Opened → Handler.Opened
opened_view refused = Handler.refused
opened_view handled = Handler.control
opened_view (bridged who) = Handler.refused
opened_view (connected host port) = Handler.connected host port

abbrev pub reply_view : Reply → Requests.Reply
reply_view (login accepted) = Requests.login accepted
reply_view (granted allowed) = Requests.granted allowed
reply_view (opened channel) = Requests.opened (opened_view channel)
reply_view (channel_failure channel) = Requests.channel_failure channel
reply_view unanswered = Requests.unanswered

abbrev pub server_replies : {net : Net} → List (Incoming net) → ServerHandler → List Requests.Reply
server_replies [] h = []
server_replies (i ∷ rest) h =
    let (reply, h') = Requests.answer i h in reply ∷ server_replies rest h'

-- Two results are the same answer, and leave the same state and still no control handler.
abbrev Same : Reply × SshHandler → Requests.Reply × ServerHandler → Type 0
Same (reply, h) (reply', h') =
    (reply_view reply ≡ reply') × (view h ≡ h') × (h.has_control_handler ≡ false)

auth_publickey-Same :
    (resolve : Text → Option Identity) (h : SshHandler) (key : Text)
    → h.has_control_handler ≡ false
    → ((auth_publickey resolve h key).0 ≡ (Handler.auth_publickey resolve (view h) key).0)
      × (view (auth_publickey resolve h key).1 ≡ (Handler.auth_publickey resolve (view h) key).1)
      × ((auth_publickey resolve h key).1.has_control_handler ≡ false)
unfolding auth_publickey Handler.auth_publickey
auth_publickey-Same resolve h key bare = elim (Bool-cases (may_attempt h.auth_limiter)) [
  | inr barred ↦ ground arith
  | inl free ↦ elim (Option-cases (resolve key)) [
    | inl unknown ↦ ground arith
    | inr (id, known) ↦ ground arith
  ]
]

channel_open_direct_tcpip-Same :
    {net : Net} (policy : ForwardingPolicy net) (h : SshHandler) (host : Text) (port : ℕ)
    → h.has_control_handler ≡ false
    → (opened_view (channel_open_direct_tcpip policy h host port).0
        ≡ Handler.channel_open_direct_tcpip policy (view h) host port)
      × (view (channel_open_direct_tcpip policy h host port).1 ≡ view h)
      × ((channel_open_direct_tcpip policy h host port).1.has_control_handler ≡ false)
unfolding channel_open_direct_tcpip open_reserved Handler.channel_open_direct_tcpip
channel_open_direct_tcpip-Same policy h host port bare =
    elim (Bool-cases (starts_with (text "alknet-") host)) [
      | inl reserved ↦ elim (Bool-cases (text_eq host (text "alknet-control") && h.has_bridge)) [
        | inl bridge ↦ ground arith
        | inr other ↦ ground arith
      ]
      | inr plain ↦
          elim (Bool-cases (
            Forwarding.check policy host (port % 2 ^ 16) (or_anonymous h.authenticated_identity)
              h.transport)) [ inl allowed ↦ ground arith | inr denied ↦ ground arith ]
    ]

respond-Same :
    {net : Net} (resolve : Text → Option Identity) (policy : ForwardingPolicy net) (r : Request)
    (h : SshHandler)
    → h.has_control_handler ≡ false
    → Same (respond resolve policy r h) (Requests.respond resolve policy r (view h))
unfolding respond Requests.respond channel_open_session channel_open_x11
    channel_open_forwarded_tcpip exec_request shell_request subsystem_request pty_request
    env_request x11_request agent_request tcpip_forward cancel_tcpip_forward streamlocal_forward
    signal Requests.channel_open_session Requests.channel_open_x11
    Requests.channel_open_forwarded_tcpip Requests.exec_request Requests.shell_request
    Requests.subsystem_request Requests.pty_request Requests.env_request Requests.x11_request
    Requests.agent_request Requests.tcpip_forward Requests.cancel_tcpip_forward
    Requests.streamlocal_forward Requests.signal
respond-Same resolve policy (Requests.publickey key) h bare =
    let (same, after, still) = auth_publickey-Same resolve h key bare in
    (ap Requests.login same, after, still)
respond-Same resolve policy (Requests.direct_tcpip host port) h bare =
    let (same, after, still) = channel_open_direct_tcpip-Same policy h host port bare in
    (ap Requests.opened same, after, still)
respond-Same resolve policy _ h bare = (refl, refl, bare)

-- To any sequence of requests, under whatever keys and policies are loaded in between, a connection
-- that has no control handler gets from the handler of the interface the answers that it gets from
-- that of the server, but that a channel which the interface bridges to its session is refused by
-- the server.
pub replies-agree :
    {net : Net} (requests : List (Incoming net)) (h : SshHandler)
    → h.has_control_handler ≡ false
    → map reply_view (replies requests h) ≡ server_replies requests (view h)
replies-agree [] h bare = refl
replies-agree (i ∷ rest) h bare =
    let (same, after, still) = respond-Same i.resolve i.policy i.request h bare in
    let later = replies-agree rest (answer i h).1 still in
    grind (arith, same, later ∙ ap (server_replies rest) after)
