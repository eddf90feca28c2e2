-- ===== src/Auth/ServerAuth.antt =====
-- crates/alknet-core/src/auth/server_auth.rs: what the server is started with to let clients in. It
-- repeats the checks of `AuthPolicy`; the two are compared in Agreement.
pub mod Agreement
pub mod Trust
use alknet.Prelude.{
  ℕ, Bool, true, false, not, ◌&&◌, ◌||◌, Option, none, some, List, [], ◌∷◌, Text, text, text_eq,
  contains, split_on, any, ltb, leb, if◌then◌else◌, Result, ok, err, ◌>>◌, refuse_if, map, Run,
  returned, panicked,
}
use alknet.Net.{Net}
use alknet.Error.{ConfigError}
use alknet.Auth.Keys.Load.{KeySource, KeyCrates, load_public_keys, load_cert_authority_entries}
use alknet.Config.AuthPolicy.{
  PublicKey, CertAuthorityEntry, Certificate, AuthError, key_rejected, cert_invalid, cert_expired,
  cert_principal_mismatch,
}

-- The encoded keys are computed of the authorized ones when the record is made.
pub record ServerAuthConfig : Type 0 where
  pub authorized_keys : List PublicKey
  pub cert_authorities : List CertAuthorityEntry
  pub encoded_keys : List (List ℕ)

abbrev pub config_of : List PublicKey → List CertAuthorityEntry → ServerAuthConfig
config_of keys authorities = record {
  authorized_keys = keys;
  cert_authorities = authorities;
  encoded_keys = map (λ (k : PublicKey). k.encoded) keys;
}

-- `match source { Some(src) => load(src)?, None => Vec::new() }`
abbrev pub load_or_none :
    {A : Type 0}
    → (KeySource → Run (Result (List A) ConfigError))
    → Option KeySource
    → Run (Result (List A) ConfigError)
load_or_none load none = returned (ok [])
load_or_none load (some source) = load source

abbrev pub both_loaded :
    Run (Result (List PublicKey) ConfigError)
    → Run (Result (List CertAuthorityEntry) ConfigError)
    → Run (Result ServerAuthConfig ConfigError)
both_loaded panicked authorities = panicked
both_loaded (returned (err e)) authorities = returned (err e)
both_loaded (returned (ok keys)) panicked = panicked
both_loaded (returned (ok keys)) (returned (err e)) = returned (err e)
both_loaded (returned (ok keys)) (returned (ok authorities)) =
    returned (ok (config_of keys authorities))

unfoldable pub from_keys_and_ca :
    {PrivateKey : Type 0}
    → KeyCrates PrivateKey
    → Option KeySource
    → Option KeySource
    → Run (Result ServerAuthConfig ConfigError)
from_keys_and_ca crates authorized_keys cert_authority =
    both_loaded (load_or_none (load_public_keys crates) authorized_keys)
      (load_or_none (load_cert_authority_entries crates) cert_authority)

unfoldable pub authenticate_publickey : ServerAuthConfig → PublicKey → Result (Unit {0}) AuthError
authenticate_publickey c key =
    if contains c.encoded_keys key.encoded then ok tt else err key_rejected

abbrev pub is_in : (net : Net) → Option net.IpNetwork → net.IpAddr → Bool
is_in net none ip = false
is_in net (some cidr) ip = net.network_contains cidr ip

abbrev pub is_ip : (net : Net) → Option net.IpAddr → net.IpAddr → Bool
is_ip net none ip = false
is_ip net (some net_ip) ip = net.ip_eq net_ip ip

abbrev pub allows_ip : (net : Net) → Text → net.IpAddr → Bool
allows_ip net [] ip = false
allows_ip net (c ∷ pattern) ip =
    is_in net (net.parse_network (c ∷ pattern)) ip || is_ip net (net.parse_ip (c ∷ pattern)) ip

unfoldable pub check_extensions : Certificate → CertAuthorityEntry → Result (Unit {0}) AuthError
check_extensions cert ca_entry =
    refuse_if
      (any (λ o. text_eq o (text "permit-port-forwarding")) ca_entry.options
        && not (
            any (λ (e : Text × Text). text_eq e.0 (text "permit-port-forwarding")) cert.extensions))
      cert_invalid

-- `self.cert_authorities.iter().find(…)`
unfoldable pub matching_ca : Certificate → List CertAuthorityEntry → Option CertAuthorityEntry
matching_ca cert [] = none
matching_ca cert (ca ∷ authorities) =
    let rest = matching_ca cert authorities in
    if text_eq cert.signature_key ca.public_key.encoded then some ca else rest

abbrev pub is_empty : List Text → Bool
is_empty [] = true
is_empty (_ ∷ _) = false

module _ (net : Net) (trim : Text → Text) where
  unfoldable pub check_source_address : Text → Option net.IpAddr → Bool
  check_source_address allowed none = false
  check_source_address allowed (some ip) =
      any (λ pattern. allows_ip net (trim pattern) ip) (split_on b',' allowed)

  -- One option, and those after it.
  abbrev pub check_option :
      Text → Text → Option net.IpAddr → Result (Unit {0}) AuthError → Result (Unit {0}) AuthError
  check_option name contents client_ip rest =
      if text_eq name (text "source-address")
      then (refuse_if (not (check_source_address contents client_ip)) cert_invalid >> rest)
      else if text_eq name (text "force-command")
      then rest
      else if text_eq name (text "no-pty")
      then rest
      else err cert_invalid

  unfoldable pub check_critical_options :
      List (Text × Text) → Option net.IpAddr → Result (Unit {0}) AuthError
  unfolding check_source_address
  check_critical_options [] client_ip = ok tt
  check_critical_options ((name, contents) ∷ options) client_ip =
      check_option name contents client_ip (check_critical_options options client_ip)

  unfoldable pub authenticate_certificate :
      ServerAuthConfig → Certificate → Text → Option net.IpAddr → ℕ → Result (Unit {0}) AuthError
  unfolding check_critical_options check_extensions matching_ca
  authenticate_certificate c cert user client_ip now = elim (matching_ca cert c.cert_authorities) [
    | none ↦ err cert_invalid
    | some ca_entry ↦ do
      refuse_if (not cert.verifies) cert_invalid
      refuse_if (ltb now cert.valid_after || leb cert.valid_before now) cert_expired
      refuse_if
          (not (is_empty cert.valid_principals)
            && not (any (λ p. text_eq p user) cert.valid_principals))
          cert_principal_mismatch
      check_critical_options cert.critical_options client_ip
      check_extensions cert ca_entry
  ]
