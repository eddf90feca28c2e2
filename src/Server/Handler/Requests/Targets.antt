-- ===== src/Server/Handler/Requests/Targets.antt =====
-- Which targets a connection reaches, over all its requests.
use mathlib.Core.List.{Memᴰ}
use mathlib.Core.List.Memᴰ.{head, tail}
use alknet.Prelude.{
  ℕ, ◌%◌, ◌^◌, ◌≡◌, ap, sym, refl, ◌∙◌, ◌⊎◌, inl, inr, true, false, Option, some, List, [], ◌∷◌,
  Text, text, starts_with, arith, Bool-cases, Option-cases,
}
use alknet.Net.{Net}
use alknet.Auth.Identity.{Identity}
use alknet.Config.Forwarding
use alknet.Config.Forwarding.{ForwardingPolicy}
use alknet.Server.RateLimit.{may_attempt}
use alknet.Server.Handler.{
  ServerHandler, connected, or_anonymous, auth_publickey, channel_open_direct_tcpip,
}
use alknet.Server.Handler.Channels.{channel_open_direct_tcpip-iff_check}
use alknet.Server.Handler.Requests.{
  Request, publickey, direct_tcpip, opened, channel_open_session, channel_open_x11,
  channel_open_forwarded_tcpip, exec_request, shell_request, subsystem_request, pty_request,
  env_request, x11_request, agent_request, tcpip_forward, cancel_tcpip_forward, streamlocal_forward,
  signal, Incoming, respond, answer, after,
}

-- A list of requests has a login with a key that resolved to the identity.
abbrev pub Proves : {net : Net} → List (Incoming net) → Identity → Type 0
Proves {net} requests id =
    (i : Incoming net) × Memᴰ i requests
    × (key : Text) × (i.request ≡ publickey key)
    × (i.resolve key ≡ some id)

-- The identity of a connection, if it has one, is the one that it had before, or is proved.
abbrev pub Backed : {net : Net} → List (Incoming net) → ServerHandler → ServerHandler → Type 0
Backed requests before now =
    (id : Identity)
    → now.authenticated_identity ≡ some id
    → (before.authenticated_identity ≡ some id) ⊎ Proves requests id

login_identity :
    (resolve : Text → Option Identity) (h : ServerHandler) (key : Text) (id : Identity)
    → (auth_publickey resolve h key).1.authenticated_identity ≡ some id
    → (h.authenticated_identity ≡ some id) ⊎ (resolve key ≡ some id)
unfolding auth_publickey
login_identity resolve h key id e = elim (Bool-cases (may_attempt h.auth_limiter)) [
  | inr barred ↦ inl (ground arith)
  | inl free ↦ elim (Option-cases (resolve key)) [
    | inl unknown ↦ inl (ground arith)
    | inr (i, known) ↦ inr (ground arith)
  ]
]

-- Only a login changes the handler, and it only the identity and the failures.
respond-identity :
    {net : Net} (resolve : Text → Option Identity) (policy : ForwardingPolicy net) (r : Request)
    (h : ServerHandler) (id : Identity)
    → (respond resolve policy r h).1.authenticated_identity ≡ some id
    → (h.authenticated_identity ≡ some id)
      ⊎ ((key : Text) × (r ≡ publickey key) × (resolve key ≡ some id))
unfolding respond
respond-identity resolve policy (publickey key) h id e = elim (login_identity resolve h key id e) [
  | inl old ↦ inl old
  | inr known ↦ inr (key, refl, known)
]
respond-identity resolve policy _ h id e = inl e

respond-transport :
    {net : Net} (resolve : Text → Option Identity) (policy : ForwardingPolicy net) (r : Request)
    (h : ServerHandler)
    → (respond resolve policy r h).1.transport ≡ h.transport
unfolding respond auth_publickey
respond-transport resolve policy (publickey key) h = ground arith
respond-transport resolve policy _ h = refl

-- A channel is connected by a direct-tcpip request alone.
respond-connected :
    {net : Net} (resolve : Text → Option Identity) (policy : ForwardingPolicy net) (r : Request)
    (h : ServerHandler) (host : Text) (port : ℕ)
    → (respond resolve policy r h).0 ≡ opened (connected host port)
    → (asked : ℕ) × (r ≡ direct_tcpip host asked)
      × (port ≡ asked % 2 ^ 16)
      × (channel_open_direct_tcpip policy h host asked ≡ connected host (asked % 2 ^ 16))
unfolding respond channel_open_session channel_open_x11 channel_open_forwarded_tcpip exec_request
    shell_request subsystem_request pty_request env_request x11_request agent_request tcpip_forward
    cancel_tcpip_forward streamlocal_forward signal
respond-connected resolve policy (direct_tcpip a b) h host port e =
    let inside : channel_open_direct_tcpip policy h a b ≡ connected host port = ground arith in
    let (same, equal) = (channel_open_direct_tcpip-iff_check _ policy h a b).1 host port inside in
    (b, ap (λ x. direct_tcpip x b) (sym same), equal, grind (arith, same, equal, inside))
respond-connected resolve policy _ h host port e = absurd (ground arith)

answer-Backed :
    {net : Net} (i : Incoming net) (rest : List (Incoming net)) (h : ServerHandler)
    (now : ServerHandler)
    → Backed rest (answer i h).1 now
    → Backed (i ∷ rest) h now
answer-Backed i rest h now backed id e = elim (backed id e) [
  | inr (j, there, key, tried, known) ↦ inr (j, tail there, key, tried, known)
  | inl then ↦ elim (respond-identity i.resolve i.policy i.request h id then) [
    | inl old ↦ inl old
    | inr (key, tried, known) ↦ inr (i, head refl, key, tried, known)
  ]
]

after-Backed :
    {net : Net} (requests : List (Incoming net)) (h : ServerHandler)
    → Backed requests h (after requests h)
after-Backed [] h = λ id e. inl e
after-Backed (i ∷ rest) h =
    answer-Backed i rest h (after rest (answer i h).1) (after-Backed rest (answer i h).1)

after-transport :
    {net : Net} (requests : List (Incoming net)) (h : ServerHandler)
    → (after requests h).transport ≡ h.transport
after-transport [] h = refl
after-transport (i ∷ rest) h =
    after-transport rest (answer i h).1 ∙ respond-transport i.resolve i.policy i.request h

-- Whatever a client asks for on a connection, and in whatever order: if its next request connects a
-- channel to a target, then it is a direct-tcpip request for that target, whose host is not
-- reserved, the port of the channel is the low 16 bits of the one asked for, and the policy loaded at that time allows the target, under the transport of the
-- connection, to the anonymous identity or to one that the connection had at the start or that a
-- login before this request proved by a key that resolved to it then.
pub answer-connected :
    {net : Net} (requests : List (Incoming net)) (i : Incoming net) (h : ServerHandler)
    (host : Text) (port : ℕ)
    → (answer i (after requests h)).0 ≡ opened (connected host port)
    → ((asked : ℕ) × (i.request ≡ direct_tcpip host asked) × (port ≡ asked % 2 ^ 16))
      × (starts_with (text "alknet-") host ≡ false)
      × ((who : Option Identity) × (Forwarding.check i.policy host port
              (or_anonymous who)
              h.transport
            ≡ true)
          × ((id : Identity)
              → who ≡ some id
              → (h.authenticated_identity ≡ some id) ⊎ Proves requests id))
answer-connected requests i h host port e =
    let now : ServerHandler = after requests h in
    let (asked, request, low, opens) =
      respond-connected i.resolve i.policy i.request now host port e in
    let (plain, allowed) =
      (channel_open_direct_tcpip-iff_check _ i.policy now host asked).0.0 opens in
    (
      (asked, request, low),
      plain,
      (
        now.authenticated_identity,
        grind (arith, allowed, low, after-transport requests h),
        after-Backed requests h,
      ),
    )
