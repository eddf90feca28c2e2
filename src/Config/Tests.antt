-- ===== src/Config/Tests.antt =====
-- The theorems on the forwarding and the auth policy and on the options at concrete inputs, with
-- addresses that are numbers.
use alknet.Auth.Identity.{Identity}
use alknet.Prelude.{panicked}
use alknet.Prelude.{ok, returned, starts_with, ◌⊎◌, ◌↔◌}
use alknet.Prelude.{
  ℕ, ◌≡◌, refl, Bool, true, false, Option, none, some, List, [], ◌∷◌, Text, text, ◌==◌,
}
use alknet.Prelude.HashMap
use alknet.Net.{Net, tcp}
use alknet.Config.AuthPolicy.{
  ApiKeyEntry, Certificate, AuthPolicy, PublicKey, identity_of, resolve_api_key,
  authenticate_certificate,
}
use alknet.Config.AuthPolicy.ApiKeys.{Resolves, resolve_api_key_iff}
use alknet.Config.AuthPolicy.Certificates.{Accepts, authenticate_certificate-iff_Accepts}
use alknet.Auth.Keys.Load.{file}
use alknet.Config.Static.{listeners_of}
use alknet.Config.Static.Listeners.{Usable, validate-iff_Usable}
use alknet.Server.Options
use alknet.Server.Options.{
  ServeOptions, tls_mode, new_options, set_transport_mode, set_tls_cert, set_tls_key,
}
use alknet.Config.Forwarding.{
  allow, deny, host, any_target, is_allow, ForwardingAction, ForwardingRule, ForwardingPolicy,
  check, match_host_pattern,
}
use alknet.Config.Forwarding.Rules.{Request, Prescribes, check-Prescribes}

abbrev toy_net : Net
toy_net = record {
  IpAddr = ℕ;
  ip_eq = λ a b. a == b;
  parse_ip = λ t. none;
  IpNetwork = ℕ;
  parse_network = λ t. none;
  network_contains = λ n a. n == a;
}

abbrev no_evil : ForwardingPolicy toy_net
no_evil = record {
  fallback = allow;
  rules =
      record { target = host (text "*.evil.com"); action = deny; principals = []; transports = [] }
      ∷ [];
}

abbrev to_evil : Request
to_evil = record {
  target = text "a.evil.com";
  port = 80;
  identity = record { id = []; scopes = []; resources = HashMap.new };
  transport = tcp;
}

check-Prescribes_example :
    ((action : ForwardingAction) × Prescribes to_evil no_evil.fallback no_evil.rules action)
    × ((action : ForwardingAction)
        → Prescribes to_evil no_evil.fallback no_evil.rules action
        → check no_evil to_evil.target to_evil.port to_evil.identity to_evil.transport
          ≡ is_allow action)
check-Prescribes_example = check-Prescribes no_evil to_evil

-- The rule does deny that host.
evil_denied : check no_evil (text "a.evil.com") 80 to_evil.identity tcp ≡ false
unfolding check alknet.Config.Forwarding.matches alknet.Prelude.text_eq
    alknet.Config.Forwarding.around_star alknet.Config.Forwarding.matches_principal
    alknet.Config.Forwarding.matches_transport
evil_denied = refl

abbrev entry_of : Text → Text → ApiKeyEntry
entry_of prefix hash = record {
  prefix = prefix;
  hash = hash;
  scopes = text "relay:connect" ∷ [];
  description = [];
  expires_at = some 100;
}

abbrev authority_key : PublicKey
authority_key = record { encoded = 1 ∷ 2 ∷ []; fingerprint = text "ca" }

abbrev auth : AuthPolicy
auth = record {
  authorized_keys = [];
  cert_authorities =
      record { public_key = authority_key; options = text "cert-authority" ∷ [] } ∷ [];
  api_keys =
      entry_of (text "alk_x") (text "sha256:none")
      ∷ entry_of (text "alk_a") (text "sha256:alk_abcdefgh")
      ∷ [];
}

resolve_api_key_iff_example :
    ((resolve_api_key (λ t. t) auth (text "alk_abcdefgh") 7 ≡ panicked) → ⊥)
    × ((who : Identity)
        → (resolve_api_key (λ t. t) auth (text "alk_abcdefgh") 7 ≡ returned (some who))
          ↔ Resolves (λ t. t) auth (text "alk_abcdefgh") 7 who)
resolve_api_key_iff_example = resolve_api_key_iff (λ t. t) auth (text "alk_abcdefgh") 7 refl

-- Of the two entries it is the second that resolves.
second_resolves :
    resolve_api_key (λ t. t) auth (text "alk_abcdefgh") 7
    ≡ returned (some (identity_of (entry_of (text "alk_a") (text "sha256:alk_abcdefgh"))))
unfolding resolve_api_key alknet.Prelude.text_eq
second_resolves = refl

abbrev cert : Certificate
cert = record {
  signature_key = 1 ∷ 2 ∷ [];
  verifies = true;
  valid_after = 5;
  valid_before = 9;
  valid_principals = text "ann" ∷ [];
  critical_options = (text "force-command", text "ls") ∷ [];
  extensions = [];
}

authenticate_certificate-iff_Accepts_example :
    (authenticate_certificate toy_net (λ t. t) auth cert (text "ann") none 7 ≡ ok tt)
    ↔ Accepts toy_net (λ t. t) auth cert (text "ann") none 7
authenticate_certificate-iff_Accepts_example =
    authenticate_certificate-iff_Accepts toy_net (λ t. t) auth cert (text "ann") none 7

-- The certificate is accepted at that time.
cert_accepted : authenticate_certificate toy_net (λ t. t) auth cert (text "ann") none 7 ≡ ok tt
unfolding authenticate_certificate alknet.Prelude.text_eq alknet.Prelude.contains
cert_accepted = refl

-- Options for TLS with a certificate, and no listeners of their own.
abbrev tls_options : ServeOptions Text
tls_options = set_transport_mode tls_mode (
    set_tls_cert (text "cert.pem") (set_tls_key (text "key.pem") (new_options (file (text "key")))))

validate-iff_Usable_example :
    (Options.validate tls_options ≡ ok tt) ↔ Usable (listeners_of tls_options)
validate-iff_Usable_example = validate-iff_Usable tls_options

tls_options_pass : Options.validate tls_options ≡ ok tt
unfolding Options.validate
tls_options_pass = refl
