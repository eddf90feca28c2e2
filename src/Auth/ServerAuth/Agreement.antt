-- ===== src/Auth/ServerAuth/Agreement.antt =====
-- The two copies of the checks decide alike.
use alknet.Prelude.{
  ℕ, Bool, ◌||◌, Option, none, some, List, [], ◌∷◌, Text, text, text_eq, contains, split_on, any,
  ◌≡◌, refl, ap, arith, Option-cases, inl, inr,
}
use alknet.Net.{Net}
use alknet.Auth.ServerAuth
use alknet.Auth.ServerAuth.{
  ServerAuthConfig, config_of, is_empty, is_in, is_ip, allows_ip, matching_ca,
}
use alknet.Config.AuthPolicy
use alknet.Config.AuthPolicy.{
  PublicKey, CertAuthorityEntry, Certificate, AuthError, AuthPolicy, find_authority,
  pattern_matches, ip_matches, new_policy, no_principals,
}

contains-eq-any : (ts : List Text) (s : Text) → contains ts s ≡ any (λ t. text_eq t s) ts
unfolding contains
contains-eq-any [] s = refl
contains-eq-any (t ∷ ts) s = ap (λ b. text_eq t s || b) (contains-eq-any ts s)

matching_ca-eq :
    (cert : Certificate) (cas : List CertAuthorityEntry)
    → matching_ca cert cas ≡ find_authority cert.signature_key cas
unfolding matching_ca find_authority
matching_ca-eq cert [] = refl
matching_ca-eq cert (ca ∷ cas) = rw (matching_ca-eq cert cas) refl

is_in_or-eq :
    (net : Net) (cidr : Option net.IpNetwork) (net_ip : Option net.IpAddr) (ip : net.IpAddr)
    → (is_in net cidr ip || is_ip net net_ip ip) ≡ ip_matches net cidr net_ip ip
is_in_or-eq net none none ip = refl
is_in_or-eq net none (some _) ip = refl
is_in_or-eq net (some _) none ip = ground arith
is_in_or-eq net (some _) (some _) ip = refl

allows_ip-eq :
    (net : Net) (pattern : Text) (ip : net.IpAddr)
    → allows_ip net pattern ip ≡ pattern_matches net pattern ip
unfolding pattern_matches
allows_ip-eq net [] ip = refl
allows_ip-eq net (c ∷ pattern) ip =
    is_in_or-eq net (net.parse_network (c ∷ pattern)) (net.parse_ip (c ∷ pattern)) ip

any-cong : {A : Type 0} (p q : A → Bool) (xs : List A) → ((x : A) → p x ≡ q x) → any p xs ≡ any q xs
any-cong p q [] same = refl
any-cong p q (x ∷ xs) same = rw (same x, any-cong p q xs same) refl

check_extensions-eq :
    (cert : Certificate) (ca : CertAuthorityEntry)
    → ServerAuth.check_extensions cert ca ≡ AuthPolicy.check_extensions cert ca
unfolding ServerAuth.check_extensions AuthPolicy.check_extensions
check_extensions-eq cert ca =
    ground (arith, contains-eq-any ca.options (text "permit-port-forwarding"))

is_empty-eq : (principals : List Text) → is_empty principals ≡ no_principals principals
is_empty-eq [] = refl
is_empty-eq (_ ∷ _) = refl

module _ (net : Net) (trim : Text → Text) where
  check_source_address-eq :
      (allowed : Text) (client_ip : Option net.IpAddr)
      → ServerAuth.check_source_address net trim allowed client_ip
        ≡ AuthPolicy.check_source_address net trim allowed client_ip
  unfolding ServerAuth.check_source_address AuthPolicy.check_source_address
  check_source_address-eq allowed none = refl
  check_source_address-eq allowed (some ip) =
      any-cong _ _ (split_on b',' allowed) (λ pattern. allows_ip-eq net (trim pattern) ip)

  check_critical_options-eq :
      (options : List (Text × Text)) (client_ip : Option net.IpAddr)
      → ServerAuth.check_critical_options net trim options client_ip
        ≡ AuthPolicy.check_critical_options net trim options client_ip
  unfolding ServerAuth.check_critical_options AuthPolicy.check_critical_options
  check_critical_options-eq [] client_ip = refl
  check_critical_options-eq ((name, contents) ∷ options) client_ip = ground (
    arith,
    check_source_address-eq contents client_ip,
    check_critical_options-eq options client_ip,
  )

  -- The configuration and the policy that is made of it give the same answer, also the same error,
  -- for each certificate, user, address and time.
  pub authenticate_certificate-agrees :
      (keys : List PublicKey) (authorities : List CertAuthorityEntry) (cert : Certificate)
      (user : Text) (client_ip : Option net.IpAddr) (now : ℕ)
      → ServerAuth.authenticate_certificate net trim
          (config_of keys authorities)
          cert
          user
          client_ip
          now
        ≡ AuthPolicy.authenticate_certificate net trim
            (new_policy keys authorities)
            cert
            user
            client_ip
            now
  unfolding ServerAuth.authenticate_certificate AuthPolicy.authenticate_certificate
  authenticate_certificate-agrees keys authorities cert user client_ip now =
      elim (Option-cases (find_authority cert.signature_key authorities)) [
        | inl none_found ↦ ground (arith, matching_ca-eq cert authorities)
        | inr (ca, found) ↦ ground (
          arith,
          matching_ca-eq cert authorities,
          contains-eq-any cert.valid_principals user,
          is_empty-eq cert.valid_principals,
          check_critical_options-eq cert.critical_options client_ip,
          check_extensions-eq cert ca,
        )
      ]
