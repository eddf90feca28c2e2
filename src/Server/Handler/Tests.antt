-- ===== src/Server/Handler/Tests.antt =====
-- The theorem on the requests of a connection at a concrete input.
use alknet.Prelude.{
  ℕ, ◌%◌, ◌^◌, ◌≡◌, refl, ◌⊎◌, Bool, true, false, Option, none, some, List, [], ◌∷◌, Text, text,
  text_eq, starts_with, if◌then◌else◌,
}
use alknet.Prelude.HashMap
use alknet.Net.{Net, tcp}
use alknet.Auth.Identity.{Identity}
use alknet.Config.Forwarding
use alknet.Config.Forwarding.{any_target, allow, deny}
use alknet.Server.Handler.{ServerHandler, handler_of, refused, connected, or_anonymous}
use alknet.Server.Handler.Requests.{
  Request, publickey, exec, direct_tcpip, opened, channel_failure, Incoming, answer, after,
}
use alknet.Server.Handler.Requests.Targets.{Proves, answer-connected}

abbrev net : Net
net = record {
  IpAddr = ℕ;
  ip_eq = λ a b. true;
  parse_ip = λ t. none;
  IpNetwork = ℕ;
  parse_network = λ t. none;
  network_contains = λ n a. true;
}

abbrev ann : Identity
ann = record { id = text "ann"; scopes = []; resources = HashMap.new }

-- A policy that lets only ann out.
abbrev incoming : Request → Incoming net
incoming request = record {
  request = request;
  resolve = λ key. if text_eq key (text "good") then some ann else none;
  policy = record {
    fallback = deny;
    rules =
        record {
          target = any_target;
          action = allow;
          principals = text "ann" ∷ [];
          transports = [];
        }
        ∷ [];
  };
}

abbrev earlier : List (Incoming net)
earlier =
    incoming (publickey (text "bad")) ∷ incoming (publickey (text "good")) ∷ incoming (exec 3) ∷ []

abbrev fresh : ServerHandler
fresh = handler_of (some (text "a")) tcp 2 true

asked :
    (answer (incoming (direct_tcpip (text "h") 65616)) (after earlier fresh)).0
    ≡ opened (connected (text "h") 80)
unfolding alknet.Server.Handler.Requests.respond alknet.Server.Handler.channel_open_direct_tcpip
    Forwarding.check Forwarding.matches Forwarding.matches_principal text_eq
    alknet.Server.Handler.auth_publickey alknet.Server.RateLimit.may_attempt
    alknet.Server.RateLimit.new_attempts alknet.Server.RateLimit.on_failure
    Forwarding.matches_transport
asked = refl

asked_before_login : (answer (incoming (direct_tcpip (text "h") 65616)) fresh).0 ≡ opened refused
unfolding alknet.Server.Handler.Requests.respond alknet.Server.Handler.channel_open_direct_tcpip
    Forwarding.check Forwarding.matches Forwarding.matches_principal text_eq alknet.Prelude.contains
asked_before_login = refl

answer-connected_example :
    ((wanted : ℕ) × (direct_tcpip (text "h") 65616 ≡ direct_tcpip (text "h") wanted)
      × (80 ≡ wanted % 2 ^ 16))
    × (starts_with (text "alknet-") (text "h") ≡ false)
    × ((who : Option Identity) × (Forwarding.check
            (incoming (direct_tcpip (text "h") 65616)).policy
            (text "h")
            80
            (or_anonymous who)
            fresh.transport
          ≡ true)
        × ((id : Identity)
            → who ≡ some id
            → (fresh.authenticated_identity ≡ some id) ⊎ Proves earlier id))
unfolding Forwarding.check
answer-connected_example =
    answer-connected earlier (incoming (direct_tcpip (text "h") 65616)) fresh (text "h") 80 asked
