-- ===== src/Config/AuthPolicy.antt =====
-- `AuthPolicy` of crates/alknet-core/src/config/dynamic_config.rs: whom the server lets in. A key is
-- its encoded data and its fingerprint, and a certificate what its accessors return, which the crate
-- ssh_key computes. `digest` is the hexadecimal SHA-256 of a token, and `trim` is `str::trim`.
pub mod ApiKeys
pub mod Certificates
use alknet.Prelude.{
  ℕ, ◌≤◌, Bool, true, false, not, ◌&&◌, ◌||◌, Option, none, some, List, [], ◌∷◌, ◌++◌, Text, text,
  text_eq, contains, starts_with, split_on, any, ltb, leb, length, take, drop, if◌then◌else◌, ◌==◌,
  Result, ok, err, ◌>>=◌, map, Run, returned, panicked,
}
use alknet.Prelude.HashMap
use alknet.Net.{Net}
use alknet.Auth.Identity.{Identity}

pub record ApiKeyEntry : Type 0 where
  pub prefix : Text
  pub hash : Text
  pub scopes : List Text
  pub description : Text
  pub expires_at : Option ℕ

pub record PublicKey : Type 0 where
  pub encoded : List ℕ
  pub fingerprint : Text

pub record CertAuthorityEntry : Type 0 where
  pub public_key : PublicKey
  pub options : List Text

pub record Certificate : Type 0 where
  pub signature_key : List ℕ
  pub verifies : Bool
  pub valid_after : ℕ
  pub valid_before : ℕ
  pub valid_principals : List Text
  pub critical_options : List (Text × Text)
  pub extensions : List (Text × Text)

pub data AuthError : Type 0 where
  key_rejected cert_invalid cert_expired cert_principal_mismatch no_matching_key : AuthError

pub record AuthPolicy : Type 0 where
  pub authorized_keys : List PublicKey
  pub cert_authorities : List CertAuthorityEntry
  pub api_keys : List ApiKeyEntry

-- `AuthPolicy::new`, of which `from_server_auth_config` and `empty` are uses.
abbrev pub new_policy : List PublicKey → List CertAuthorityEntry → AuthPolicy
new_policy keys authorities = record {
  authorized_keys = keys;
  cert_authorities = authorities;
  api_keys = [];
}

-- `encoded_keys` and the keys of `fingerprint_to_key`, which are made of the authorized keys.
abbrev pub encoded_keys : AuthPolicy → List (List ℕ)
encoded_keys p = map (λ (k : PublicKey). k.encoded) p.authorized_keys

abbrev pub fingerprints : AuthPolicy → List Text
fingerprints p = map (λ (k : PublicKey). k.fingerprint) p.authorized_keys

unfoldable pub resolve_identity_from_fingerprint : AuthPolicy → Text → Option Identity
resolve_identity_from_fingerprint p fingerprint =
    if contains (fingerprints p) fingerprint
    then some
        (record { id = fingerprint; scopes = text "relay:connect" ∷ []; resources = HashMap.new })
    else none

-- Whether a text may be cut at its eighth byte: a continuation byte of UTF-8 must not stand there.
abbrev pub may_cut : List ℕ → Bool
may_cut [] = true
may_cut (b ∷ _) = not (leb 128 b && ltb b 192)

-- `self.api_keys.iter().find(|e| prefix_part.starts_with(&e.prefix))`
unfoldable pub find_entry : Text → List ApiKeyEntry → Option ApiKeyEntry
find_entry prefix_part [] = none
find_entry prefix_part (e ∷ entries) =
    let rest = find_entry prefix_part entries in
    if starts_with e.prefix prefix_part then some e else rest

abbrev pub is_over : Option ℕ → ℕ → Bool
is_over none now = false
is_over (some expires_at) now = leb expires_at now

abbrev pub identity_of : ApiKeyEntry → Identity
identity_of e = record { id = e.prefix; scopes = e.scopes; resources = HashMap.new }

unfoldable pub resolve_api_key : (Text → Text) → AuthPolicy → Text → ℕ → Run (Option Identity)
unfolding find_entry
resolve_api_key digest p token now =
    if not (starts_with (text "alk_") token)
    then returned none
    else if not (may_cut (drop 8 token))
    then panicked
    else elim (find_entry (take 8 token) p.api_keys) [
      | none ↦ returned none
      | some entry ↦
          if not (text_eq entry.hash (text "sha256:" ++ digest token))
          then returned none
          else if is_over entry.expires_at now
          then returned none
          else returned (some (identity_of entry))
    ]

unfoldable pub authenticate_publickey : AuthPolicy → PublicKey → Result (Unit {0}) AuthError
authenticate_publickey p key =
    if contains (encoded_keys p) key.encoded then ok tt else err key_rejected

abbrev pub ip_matches : (net : Net) → Option net.IpNetwork → Option net.IpAddr → net.IpAddr → Bool
ip_matches net (some cidr) other ip = network_or net (net.network_contains cidr ip) other ip
  where
    network_or : (net : Net) → Bool → Option net.IpAddr → net.IpAddr → Bool
    network_or net inside none ip = inside
    network_or net inside (some net_ip) ip = inside || net.ip_eq net_ip ip
ip_matches net none none ip = false
ip_matches net none (some net_ip) ip = net.ip_eq net_ip ip

-- One pattern of `check_source_address`, which is trimmed first.
unfoldable pub pattern_matches : (net : Net) → Text → net.IpAddr → Bool
pattern_matches net [] ip = false
pattern_matches net (c ∷ pattern) ip =
    ip_matches net (net.parse_network (c ∷ pattern)) (net.parse_ip (c ∷ pattern)) ip

unfoldable pub check_extensions : Certificate → CertAuthorityEntry → Result (Unit {0}) AuthError
check_extensions cert ca_entry =
    if contains ca_entry.options (text "permit-port-forwarding")
    then (if any (λ (e : Text × Text). text_eq e.0 (text "permit-port-forwarding")) cert.extensions
        then ok tt
        else err cert_invalid)
    else ok tt

-- The first authority whose key signed the certificate.
unfoldable pub find_authority : List ℕ → List CertAuthorityEntry → Option CertAuthorityEntry
find_authority signature_key [] = none
find_authority signature_key (ca ∷ authorities) =
    let rest = find_authority signature_key authorities in
    if text_eq signature_key ca.public_key.encoded then some ca else rest

abbrev pub no_principals : List Text → Bool
no_principals [] = true
no_principals (_ ∷ _) = false

module _ (net : Net) (trim : Text → Text) where
  unfoldable pub check_source_address : Text → Option net.IpAddr → Bool
  unfolding pattern_matches
  check_source_address allowed none = false
  check_source_address allowed (some ip) =
      any (λ pattern. pattern_matches net (trim pattern) ip) (split_on b',' allowed)

  abbrev pub option_allowed : Text → Text → Option net.IpAddr → Bool
  option_allowed name contents client_ip =
      if text_eq name (text "source-address")
      then check_source_address contents client_ip
      else text_eq name (text "force-command") || text_eq name (text "no-pty")

  unfoldable pub check_critical_options :
      List (Text × Text) → Option net.IpAddr → Result (Unit {0}) AuthError
  unfolding check_source_address
  check_critical_options [] client_ip = ok tt
  check_critical_options ((name, contents) ∷ options) client_ip =
      let rest = check_critical_options options client_ip in
      if option_allowed name contents client_ip then rest else err cert_invalid

  unfoldable pub authenticate_certificate :
      AuthPolicy → Certificate → Text → Option net.IpAddr → ℕ → Result (Unit {0}) AuthError
  unfolding check_critical_options check_extensions find_authority
  authenticate_certificate p cert user client_ip now =
      elim (find_authority cert.signature_key p.cert_authorities) [
        | none ↦ err cert_invalid
        | some ca_entry ↦
            if not cert.verifies
            then err cert_invalid
            else if ltb now cert.valid_after || leb cert.valid_before now
            then err cert_expired
            else if not (no_principals cert.valid_principals)
                && not (contains cert.valid_principals user)
            then err cert_principal_mismatch
            else (check_critical_options cert.critical_options client_ip >>= λ _.
                check_extensions cert ca_entry)
      ]
