-- ===== src/Interface/Ssh/Tests.antt =====
-- The theorems on the connections of an interface at concrete inputs: a client that logs in and asks
-- twice for the control channel, once for a target, and for a command.
use alknet.Prelude.{
  ℕ, ◌≤◌, ◌≡◌, refl, true, false, none, some, List, [], ◌∷◌, text, text_eq, map, if◌then◌else◌,
}
use alknet.Prelude.HashMap
use alknet.Net.{Net}
use alknet.Auth.Identity.{Identity}
use alknet.Config.Forwarding.{allow_all}
use alknet.Server.RateLimit
use alknet.Server.Handler.Requests.{Request, publickey, direct_tcpip, exec, Incoming}
use alknet.Interface.Ssh.{SshHandler, accept, bridged, login, opened, replies}
use alknet.Interface.Ssh.Agreement.{view, reply_view, server_replies, replies-agree}
use alknet.Interface.Ssh.Bridge.{count_bridged, left, count_bridged-replies-le}

abbrev net : Net
net = record {
  IpAddr = ℕ;
  ip_eq = λ a b. true;
  parse_ip = λ t. none;
  IpNetwork = ℕ;
  parse_network = λ t. none;
  network_contains = λ n a. true;
}

abbrev ann : Identity
ann = record { id = text "ann"; scopes = []; resources = HashMap.new }

abbrev incoming : Request → Incoming net
incoming request = record {
  request = request;
  resolve = λ key. if text_eq key (text "good") then some ann else none;
  policy = allow_all;
}

abbrev control : Incoming net
control = incoming (direct_tcpip (text "alknet-control") 0)

abbrev asked : List (Incoming net)
asked =
    incoming (publickey (text "bad"))
    ∷ incoming (publickey (text "good"))
    ∷ control
    ∷ control
    ∷ incoming (direct_tcpip (text "h") 80)
    ∷ incoming (exec 3)
    ∷ []

abbrev accepted : SshHandler
accepted = (accept (RateLimit.new 1) 2).0

no_control_handler : accepted.has_control_handler ≡ false
unfolding accept alknet.Interface.Ssh.new
no_control_handler = refl

replies-agree_example :
    map reply_view (replies asked accepted) ≡ server_replies asked (view accepted)
replies-agree_example = replies-agree asked accepted no_control_handler

count_bridged-replies-le_example : count_bridged (replies asked accepted) ≤ left accepted
count_bridged-replies-le_example = count_bridged-replies-le asked accepted

one_bridged : count_bridged (replies asked accepted) ≡ 1
unfolding alknet.Interface.Ssh.respond alknet.Interface.Ssh.channel_open_direct_tcpip
    alknet.Interface.Ssh.open_reserved text_eq alknet.Interface.Ssh.auth_publickey
    RateLimit.may_attempt accept alknet.Interface.Ssh.new RateLimit.new_attempts
    RateLimit.on_failure alknet.Config.Forwarding.check alknet.Interface.Ssh.exec_request
one_bridged = refl

bridged_as_ann :
    replies (incoming (publickey (text "good")) ∷ control ∷ []) accepted
    ≡ login true ∷ opened (bridged (some ann)) ∷ []
unfolding alknet.Interface.Ssh.respond alknet.Interface.Ssh.auth_publickey
    alknet.Interface.Ssh.channel_open_direct_tcpip RateLimit.may_attempt
    alknet.Interface.Ssh.open_reserved accept text_eq alknet.Interface.Ssh.new
    RateLimit.new_attempts
bridged_as_ann = refl
