-- ===== src/Server/Listener/Validity.antt =====
-- Which listeners `validate` accepts.
use alknet.Prelude.{Bool, true, false, ◌≡◌, ◌↔◌, refl, Option, none, some, Text, ok, arith}
use alknet.Net.{TransportKind, tcp, tls, iroh, web_transport}
use alknet.Interface.Pairs.{is_valid_pair}
use alknet.Server.Listener.{StreamListenerConfig, is_tls, check_certificates, validate_stream}

-- A certificate comes with its key; without them there is a domain to ask for them.
abbrev TlsCertificates : Option Text → Option Text → Option Text → Type 0
TlsCertificates (some _) (some _) acme = Unit
TlsCertificates none none (some _) = Unit
TlsCertificates _ _ _ = ⊥

-- A certificate and its key come together, and TLS has them or a domain to ask for them; without
-- TLS there is none of the three.
abbrev pub HasCertificates : Bool → Option Text → Option Text → Option Text → Type 0
HasCertificates true cert key acme = TlsCertificates cert key acme
HasCertificates false cert key acme = (cert ≡ none) × (key ≡ none) × (acme ≡ none)

abbrev pub IsValidStream : StreamListenerConfig → Type 0
IsValidStream c =
    (is_valid_pair c.transport_kind c.interface ≡ true)
    × (c.stealth ≡ true → is_tls c.transport_kind ≡ true)
    × HasCertificates (is_tls c.transport_kind) c.tls_cert c.tls_key c.acme_domain

no_certificates :
    (cert key acme : Option Text)
    → (check_certificates tcp cert key acme ≡ ok tt)
      ↔ ((cert ≡ none) × (key ≡ none) × (acme ≡ none))
no_certificates (some _) key acme = (λ h. cc, λ h. cc)
no_certificates none (some _) acme = (λ h. cc, λ h. cc)
no_certificates none none (some _) = (λ h. cc, λ h. cc)
no_certificates none none none = (λ _. (refl, refl, refl), λ _. refl)

pub check_certificates_iff :
    (kind : TransportKind) (cert key acme : Option Text)
    → (check_certificates kind cert key acme ≡ ok tt) ↔ HasCertificates (is_tls kind) cert key acme
check_certificates_iff (tls _) (some _) (some _) acme = (λ _. tt, λ _. refl)
check_certificates_iff (tls _) (some _) none acme = (λ h. cc, λ h. absurd h)
check_certificates_iff (tls _) none (some _) (some _) = (λ h. cc, λ h. absurd h)
check_certificates_iff (tls _) none (some _) none = (λ h. cc, λ h. absurd h)
check_certificates_iff (tls _) none none (some _) = (λ _. tt, λ _. refl)
check_certificates_iff (tls _) none none none = (λ h. cc, λ h. absurd h)
check_certificates_iff tcp cert key acme = no_certificates cert key acme
check_certificates_iff (iroh _) cert key acme = no_certificates cert key acme
check_certificates_iff (web_transport _) cert key acme = no_certificates cert key acme

-- A stream listener passes `validate` exactly where its interface runs on its transport, it is
-- stealthy only over TLS, and it has the certificates that its transport needs and no others.
pub validate_stream-iff_IsValidStream :
    (c : StreamListenerConfig) → (validate_stream c ≡ ok tt) ↔ IsValidStream c
unfolding validate_stream
validate_stream-iff_IsValidStream c =
    ground (arith, check_certificates_iff c.transport_kind c.tls_cert c.tls_key c.acme_domain)
