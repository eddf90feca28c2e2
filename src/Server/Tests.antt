-- ===== src/Server/Tests.antt =====
-- The theorems on the limiters, the connection handler, listeners and the accept loop at concrete
-- inputs.
use alknet.Prelude.{ℕ, true, false, refl, Text, Option, none, some, text_eq, ◌↔◌, if◌then◌else◌}
use alknet.Prelude.{any, ok, returned}
use alknet.Auth.Identity.{IdentityProvider}
use alknet.Net.{tls}
use alknet.Server.Listener.{StreamListenerConfig, plain_stream, stream, validate_stream}
use alknet.Server.Stealth.{Connection, session, answered, routed, handle_connection}
use alknet.Server.Stealth.Detection.{SpeaksSsh, handle_connection-session_iff}
use alknet.Server.Accept
use alknet.Server.Accept.{
  Server, Incoming, Background, accept_fails, meanwhile, handled, ends, signal, accept_loop,
  on_background_all, finished, serving,
}
use alknet.Server.Accept.Reach.{handlers, served, served-accept_loop-le}
use alknet.Server.Accept.Shutdown.{is_signal, opened, opened_in, run-finishes}
use alknet.Prelude.HashMap
use alknet.Auth.Identity.{Identity}
use alknet.Net.{Net, tcp}
use alknet.Config.Forwarding.{ForwardingPolicy, allow_all}
use alknet.Server.Handler.{
  ServerHandler, handler_of, auth_publickey, connected, or_anonymous, channel_open_direct_tcpip,
}
use alknet.Server.Handler.Admission
use alknet.Server.Handler.Login.{login, after, spec_login, login-eq-spec_login}
use alknet.Server.RateLimit.{check, on_connect}
use alknet.Prelude.{◌≤◌, ◌≡◌, List, [], ◌∷◌, ◌++◌, text, arith}
use alknet.Server.RateLimit.{new, count, may_attempt, new_attempts}
use alknet.Server.RateLimit.Laws.{Event, arrives, leaves, run, spec_run, count-run}

abbrev events : List Event
events =
    arrives (text "a")
    ∷ arrives (text "a")
    ∷ arrives (text "a")
    ∷ arrives (text "b")
    ∷ leaves (text "a")
    ∷ []

count-run_example :
    count (run (new 2) events) (text "a")
    ≡ spec_run (new 2).max_per_ip (text "a") (count (new 2) (text "a")) events
count-run_example = count-run events (new 2) (text "a")

abbrev happenings : List Admission.Event
happenings =
    Admission.opens (some (text "a")) tcp 3
    ∷ Admission.opens (some (text "a")) tcp 3
    ∷ Admission.opens (some (text "b")) tcp 3
    ∷ Admission.closes 1
    ∷ Admission.closes 0
    ∷ []

run-Counts_example :
    count (Admission.run (Admission.start 1) happenings).limiter (text "a")
    ≡ Admission.connections (text "a") (Admission.run (Admission.start 1) happenings).live
run-Counts_example = Admission.run-Counts 1 happenings (text "a")

abbrev ann : Identity
ann = record { id = text "ann"; scopes = []; resources = HashMap.new }

abbrev resolve : Text → Option Identity
resolve key = if text_eq key (text "good") then some ann else none

abbrev keys : List Text
keys = text "bad" ∷ text "good" ∷ text "bad" ∷ text "good" ∷ []

abbrev fresh : ServerHandler
fresh = handler_of (some (text "a")) tcp 2 true

login-eq-spec_login_example :
    login resolve fresh keys
    ≡ spec_login resolve fresh.auth_limiter.max_attempts fresh.auth_limiter.failures keys
login-eq-spec_login_example = login-eq-spec_login resolve keys fresh

ann_logged_in : (after resolve fresh keys).authenticated_identity ≡ some ann
unfolding auth_publickey may_attempt new_attempts text_eq alknet.Server.RateLimit.on_failure
ann_logged_in = refl

abbrev net : Net
net = record {
  IpAddr = ℕ;
  ip_eq = λ a b. true;
  parse_ip = λ t. none;
  IpNetwork = ℕ;
  parse_network = λ t. none;
  network_contains = λ n a. true;
}

abbrev policy : ForwardingPolicy net
policy = allow_all

abbrev tls_config : StreamListenerConfig
tls_config = record (plain_stream (tls none) (text "0.0.0.0:443")) {
  tls_cert = some (text "cert.pem");
  tls_key = some (text "key.pem");
  stealth = true;
}

tls_config_passes : validate_stream tls_config ≡ ok tt
unfolding validate_stream alknet.Interface.Pairs.is_valid_pair
tls_config_passes = refl

abbrev nobody : IdentityProvider
nobody = record { resolve_from_fingerprint = λ f. none; resolve_from_token = λ t. none }

abbrev by_ssh : Connection
by_ssh = record { first_read = ok (text "SSH-2.0-OpenSSH"); ssh_stream = ok 7; requests = [] }

-- The banner in two pieces.
abbrev cut : Connection
cut = record { first_read = ok (text "SSH-2"); ssh_stream = ok 8; requests = [] }

handle_connection-session_iff_example :
    (handle_connection true nobody true true by_ssh ≡ session 7)
    ↔ ((by_ssh.ssh_stream ≡ ok 7) × (true ≡ true → true ≡ true → SpeaksSsh by_ssh.first_read))
handle_connection-session_iff_example = handle_connection-session_iff true nobody true true by_ssh 7

cut_is_http : handle_connection true nobody true true cut ≡ answered (routed [])
unfolding handle_connection
cut_is_http = refl

abbrev by_ssh_later : Connection
by_ssh_later = record { first_read = ok (text "SSH-2.0-OpenSSH"); ssh_stream = ok 9; requests = [] }

abbrev server : Server Text
server = record {
  limiter = new 1;
  live = [];
  outbound_proxy = none;
  listeners = stream tls_config ∷ [];
  max_auth_attempts = 10;
  is_shutdown = false;
  sessions = [];
}

-- The first connection is handled before the signal, the third while the shutdown waits.
abbrev incoming : List Incoming
incoming =
    Accept.arrives (some (text "a")) by_ssh
    ∷ Accept.arrives (some (text "a")) by_ssh
    ∷ meanwhile (handled 0)
    ∷ accept_fails (text "reset")
    ∷ Accept.arrives (some (text "b")) cut
    ∷ Accept.arrives (some (text "c")) by_ssh_later
    ∷ meanwhile (ends 2)
    ∷ signal
    ∷ []

abbrev drain : List Background
drain = handled 0 ∷ []

served-accept_loop-le_example :
    let reached = accept_loop true nobody tls_config server incoming in
    (served (text "a") reached.live ≡ Admission.connections (text "a") (handlers reached.live))
    × (served (text "a") reached.live ≤ 1)
served-accept_loop-le_example =
    served-accept_loop-le true nobody tls_config server 1 incoming (text "a") refl refl
      (omega arith)

run-finishes_example :
    let reached = accept_loop true nobody tls_config server incoming in
    let waiting : Server Text = record reached { is_shutdown = true } in
    (any is_signal incoming ≡ true
      → Accept.run true nobody server incoming drain
        ≡ returned (
            finished
              (opened_in true nobody tls_config server incoming)
              (opened_in true nobody tls_config server incoming
                ++ opened true nobody tls_config waiting drain)
              (record (on_background_all true nobody tls_config waiting drain) { sessions = [] })))
    × (any is_signal incoming ≡ false
        → Accept.run true nobody server incoming drain ≡ returned (serving reached))
run-finishes_example = run-finishes true nobody tls_config server [] incoming drain refl refl refl

-- The session that ended is still disconnected; the one that opened later is not.
one_session : opened_in true nobody tls_config server incoming ≡ 7 ∷ []
unfolding Accept.on_incoming alknet.Server.Handler.new check new HashMap.get HashMap.new on_connect
    HashMap.insert alknet.Server.Tasks.handle handle_connection alknet.Server.Handler.drop_handler
one_session = refl

another_aborted :
    opened true nobody tls_config (accept_loop true nobody tls_config server incoming) drain
    ≡ 9 ∷ []
unfolding accept_loop alknet.Server.Handler.new check new HashMap.get HashMap.new on_connect
    HashMap.insert alknet.Server.Tasks.handle handle_connection alknet.Server.Handler.drop_handler
another_aborted = refl
