-- ===== src/Client/Tests.antt =====
-- The theorems on forward specifications and on reconnection at concrete inputs.
use mathlib.Core.List.{Permᴰ}
use mathlib.Core.List.Permᴰ
use alknet.Prelude.{◌≡◌, refl, text, ok, arith}
use alknet.Prelude.{ℕ, ◌+◌, ◌*◌, ◌≤◌, ◌==◌, true, false, List, [], ◌∷◌, Text, Result, err, map}
use alknet.Client.Forward.{remote_kind}
use alknet.Client.Ssh.{SshClient, Attempt}
use alknet.Client.Manager.{
  Manager, Order, ForwardRequest, send_error, establish_session, re_register_forwards, turn, turns,
}
use alknet.Client.Manager.Recovery.{AllFail, Enumerates, Registers, slept, turns-recover}
use alknet.Client.Session.{Monitor, monitor_turn, build_remote_specs}
use alknet.Client.Session.Agreement.{managed, noted, request_of, monitor_turn-agrees}
use alknet.Client.Forward.{PortForwardSpec, local_kind, parse_spec, spec_text}
use alknet.Client.Forward.RoundTrip.{parse_spec-spec_text}

abbrev web : PortForwardSpec
web = record {
  kind = local_kind;
  bind_addr = text "127.0.0.1";
  bind_port = 8080;
  target_host = text "example.com";
  target_port = 80;
}

parse_spec-spec_text_example : parse_spec local_kind (spec_text web) ≡ ok web
parse_spec-spec_text_example = parse_spec-spec_text web refl refl (omega arith) (omega arith)

-- A client whose handles are numbers, zero the closed one; a forward adds its port to the handle.
abbrev ssh : SshClient
ssh = record {
  Stream = ℕ;
  Handle = ℕ;
  is_closed = λ h. h == 0;
  tcpip_forward = λ h addr port. (ok port, h + port);
  cancel_tcpip_forward = λ h addr port. (ok tt, h);
  channel_open_direct_tcpip = λ h host port from from_port. (ok 1, h);
}

abbrev no_route : Attempt ssh
no_route = record {
  connect = err (text "no route");
  connect_stream = λ s. ok s;
  authenticate = λ h. (ok true, h);
}

abbrev wrong_key : Attempt ssh
wrong_key = record { connect = ok 5; connect_stream = λ s. ok s; authenticate = λ h. (ok false, h) }

abbrev good : Attempt ssh
good = record { connect = ok 5; connect_stream = λ s. ok s; authenticate = λ h. (ok true, h) }

abbrev http_forward : ForwardRequest
http_forward = record { addr = text "0.0.0.0"; port = 80 }

abbrev broken : Manager ssh
broken = record { handle = 0; forwards = http_forward ∷ []; reconnect_attempts = 0; clock = 100 }

abbrev in_turn : Order
in_turn fs = fs

in_turn-Enumerates : Enumerates in_turn
in_turn-Enumerates fs = Permᴰ.refl fs

both_fail : AllFail (no_route ∷ wrong_key ∷ [])
unfolding establish_session
both_fail = ((send_error, refl), ((send_error, refl), tt))

good_establishes : establish_session good ≡ ok 5
unfolding establish_session
good_establishes = refl

turns-recover_example :
    let after = turns in_turn broken (no_route ∷ wrong_key ∷ good ∷ []) in
    ((asked : List ForwardRequest) × Permᴰ asked broken.forwards
      × Registers ssh 5 asked after.handle)
    × (after.forwards ≡ broken.forwards)
    × (after.reconnect_attempts ≡ 0)
    × (after.clock ≡ 100 + slept 0 2)
    × (slept 0 2 ≤ 31 * 3)
turns-recover_example =
    turns-recover in_turn (no_route ∷ wrong_key ∷ []) broken good 5 in_turn-Enumerates refl
      both_fail good_establishes

-- One second a turn, and the backoffs of 1, 2 and 4 seconds.
sleeps_ten : slept 0 2 ≡ 10
unfolding alknet.Client.Manager.backoff_duration
sleeps_ten = refl

abbrev remote_texts : List Text
remote_texts = text "0.0.0.0:80:localhost:8080" ∷ []

abbrev remote_web : PortForwardSpec
remote_web = record {
  kind = remote_kind;
  bind_addr = text "0.0.0.0";
  bind_port = 80;
  target_host = text "localhost";
  target_port = 8080;
}

remote_built : build_remote_specs remote_texts ≡ ok (remote_web ∷ [])
unfolding build_remote_specs alknet.Prelude.split_on alknet.Prelude.Decimal.parse_uint
remote_built = refl

abbrev monitor : Monitor ssh
monitor = record { handle = 0; attempts = 0; clock = 100 }

in_order : in_turn (noted (remote_web ∷ [])) ≡ map request_of (remote_web ∷ [])
unfolding alknet.Client.Manager.insert
in_order = refl

monitor_turn-agrees_example :
    managed (remote_web ∷ []) (monitor_turn (remote_web ∷ []) monitor good)
    ≡ turn in_turn (managed (remote_web ∷ []) monitor) good
monitor_turn-agrees_example =
    monitor_turn-agrees in_turn remote_texts (remote_web ∷ []) monitor good remote_built in_order
