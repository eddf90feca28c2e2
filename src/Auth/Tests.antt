-- ===== src/Auth/Tests.antt =====
-- The theorems on key files and on what is loaded of them at concrete inputs, where a key is its
-- base64 text.
use alknet.Prelude.{
  ◌≡◌, ◌↔◌, refl, true, some, List, [], ◌∷◌, Text, text, split_on, returned, panicked,
}
use mathlib.Core.List.{Memᴰ}
use alknet.Prelude.{ℕ, ◌==◌, ◌≢◌, none, ok}
use alknet.Net.{Net}
use alknet.Auth.Keys.Load.{
  KeyCrates, file, resolve_bytes, load_cert_authority_entries, load_public_keys,
}
use alknet.Auth.Keys.Entries.{Gives, load_cert_authority_entries_iff}
use alknet.Auth.ServerAuth
use alknet.Auth.ServerAuth.{ServerAuthConfig, config_of, from_keys_and_ca}
use alknet.Auth.ServerAuth.Agreement.{authenticate_certificate-agrees}
use alknet.Auth.ServerAuth.Trust.{authenticate_publickey_iff}
use alknet.Config.AuthPolicy
use alknet.Config.AuthPolicy.{PublicKey, CertAuthorityEntry, Certificate, new_policy}
use alknet.Auth.Keys.{is_options, parse_authorized_keys_line}
use alknet.Auth.Keys.Lines.{Joins, parse_authorized_keys_line-panicked_iff}

abbrev two_words : Text
two_words = text "cert-authority ssh-ed25519"

parse_authorized_keys_line-panicked_iff_example :
    (parse_authorized_keys_line {PublicKey = Text} (λ t. some t) (λ t. t) two_words ≡ panicked)
    ↔ ((options : Text) × (rest : Text) × Joins two_words options rest)
parse_authorized_keys_line-panicked_iff_example =
    parse_authorized_keys_line-panicked_iff {PublicKey = Text} (λ t. some t) (λ t. t) two_words

two_words_panic :
    parse_authorized_keys_line {PublicKey = Text} (λ t. some t) (λ t. t) two_words ≡ panicked
unfolding parse_authorized_keys_line is_options
two_words_panic = refl

options_begin : is_options (text "cert-authority") ≡ true
unfolding is_options
options_begin = refl

-- A file whose one line gives a certificate authority, with keys that are their own encoding.
abbrev ca_key : PublicKey
ca_key = record { encoded = text "AAAA"; fingerprint = text "AAAA" }

abbrev crates : KeyCrates Text
crates = record {
  path_exists = λ path. true;
  read_file = λ path. some (text "no-pty ssh-ed25519 AAAA me");
  lossy = λ b. b;
  trim = λ t. t;
  parse_base64 = λ t. some (record { encoded = t; fingerprint = t });
  decode_secret_key = λ t. ok t;
}

abbrev ca_entry : CertAuthorityEntry
ca_entry = record { public_key = ca_key; options = text "no-pty" ∷ [] }

file_resolves : resolve_bytes crates (file (text "keys")) ≡ ok (text "no-pty ssh-ed25519 AAAA me")
unfolding resolve_bytes
file_resolves = refl

file_loads : load_cert_authority_entries crates (file (text "keys")) ≡ returned (ok (ca_entry ∷ []))
unfolding load_cert_authority_entries split_on is_options
file_loads = refl

load_cert_authority_entries_iff_example : Memᴰ ca_entry (ca_entry ∷ []) ↔ (
    Gives crates (text "no-pty ssh-ed25519 AAAA me") ca_entry.public_key ca_entry.options
    × (ca_entry.options ≢ []))
load_cert_authority_entries_iff_example =
    load_cert_authority_entries_iff crates (file (text "keys")) (text "no-pty ssh-ed25519 AAAA me")
      file_resolves (ca_entry ∷ []) ca_entry file_loads

abbrev config : ServerAuthConfig
config = config_of (ca_key ∷ []) []

config_loads : from_keys_and_ca crates (some (file (text "keys"))) none ≡ returned (ok config)
unfolding from_keys_and_ca load_public_keys split_on is_options
config_loads = refl

authenticate_publickey_iff_example : (ServerAuth.authenticate_publickey config ca_key ≡ ok tt) ↔ (
    (pk : PublicKey) × ((options : List Text) × Gives crates
        (text "no-pty ssh-ed25519 AAAA me")
        pk
        options)
    × (pk.encoded ≡ ca_key.encoded))
authenticate_publickey_iff_example =
    authenticate_publickey_iff crates (file (text "keys")) none (text "no-pty ssh-ed25519 AAAA me")
      file_resolves config ca_key config_loads

abbrev some_cert : Certificate
some_cert = record {
  signature_key = text "AAAA";
  verifies = true;
  valid_after = 1;
  valid_before = 9;
  valid_principals = [];
  critical_options = (text "source-address", text "10.0.0.1") ∷ [];
  extensions = [];
}

abbrev no_net : Net
no_net = record {
  IpAddr = ℕ;
  ip_eq = λ a b. a == b;
  parse_ip = λ t. some 1;
  IpNetwork = ℕ;
  parse_network = λ t. none;
  network_contains = λ n a. n == a;
}

authenticate_certificate-agrees_example :
    ServerAuth.authenticate_certificate no_net
      (λ t. t)
      (config_of [] (ca_entry ∷ []))
      some_cert
      (text "ann")
      (some 1)
      5
    ≡ AuthPolicy.authenticate_certificate no_net
        (λ t. t)
        (new_policy [] (ca_entry ∷ []))
        some_cert
        (text "ann")
        (some 1)
        5
authenticate_certificate-agrees_example =
    authenticate_certificate-agrees no_net (λ t. t) [] (ca_entry ∷ []) some_cert (text "ann")
      (some 1) 5
