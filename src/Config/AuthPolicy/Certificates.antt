-- ===== src/Config/AuthPolicy/Certificates.antt =====
-- Which certificates are accepted.
use mathlib.Core.List.{Memᴰ}
use mathlib.Core.List.Memᴰ.{head, tail, cases_cons, not-nil}
use alknet.Prelude.{
  ℕ, ◌≤◌, ◌<◌, ◌≡◌, refl, sym, subst, ◌≢◌, split_on, ◌↔◌, ◌⊎◌, inl, inr, true, Option, none, some,
  List, [], ◌∷◌, Text, text, text_eq, text_eq_iff, contains, any, arith, ok, Bool-cases,
  Option-cases, Result-cases,
}
use alknet.Net.{Net}
use alknet.Config.AuthPolicy.{
  CertAuthorityEntry, Certificate, AuthPolicy, pattern_matches, ip_matches, check_source_address,
  option_allowed, check_critical_options, check_extensions, find_authority, no_principals,
  authenticate_certificate,
}

-- An authority is the first of a list whose key is the given one.
pub data FirstSigner (key : List ℕ) : List CertAuthorityEntry → CertAuthorityEntry → Type 0 where
  here :
      {ca : CertAuthorityEntry} {cas : List CertAuthorityEntry}
      → ca.public_key.encoded ≡ key
      → FirstSigner key (ca ∷ cas) ca
  later :
      {ca signer : CertAuthorityEntry} {cas : List CertAuthorityEntry}
      → ca.public_key.encoded ≢ key
      → FirstSigner key cas signer
      → FirstSigner key (ca ∷ cas) signer

find_authority-FirstSigner :
    (key : List ℕ) (cas : List CertAuthorityEntry) (ca : CertAuthorityEntry)
    → find_authority key cas ≡ some ca
    → FirstSigner key cas ca
unfolding find_authority
find_authority-FirstSigner key [] ca h = absurd (ground arith)
find_authority-FirstSigner key (d ∷ cas) ca h =
    elim (Bool-cases (text_eq key d.public_key.encoded)) [
      | inl same ↦
          subst (FirstSigner key (d ∷ cas)) (ground arith)
            (here {cas = cas} (sym ((text_eq_iff key d.public_key.encoded).0 same)))
      | inr other ↦
          later (λ e. let same = (text_eq_iff key d.public_key.encoded).1 (sym e) in ground arith)
            (find_authority-FirstSigner key cas ca (ground arith))
    ]

FirstSigner-find_authority :
    (key : List ℕ) (cas : List CertAuthorityEntry) (ca : CertAuthorityEntry)
    → FirstSigner key cas ca
    → find_authority key cas ≡ some ca
unfolding find_authority
FirstSigner-find_authority key [] ca first = elim first [ ]
FirstSigner-find_authority key (d ∷ cas) ca (here same) =
    let hit = (text_eq_iff key d.public_key.encoded).1 (sym same) in ground arith
FirstSigner-find_authority key (d ∷ cas) ca (later other first) =
    elim (Bool-cases (text_eq key d.public_key.encoded)) [
      | inl same ↦ absurd (other (sym ((text_eq_iff key d.public_key.encoded).0 same)))
      | inr miss ↦ let rest = FirstSigner-find_authority key cas ca first in ground arith
    ]

module _ (net : Net) (trim : Text → Text) where
  -- A trimmed pattern names an address: as a network that contains it, or as the address itself.
  abbrev pub Names : Text → net.IpAddr → Type 0
  Names pattern ip =
      (pattern ≢ [])
      × (((network : net.IpNetwork) × (net.parse_network pattern ≡ some network)
            × (net.network_contains network ip ≡ true))
          ⊎ ((address : net.IpAddr) × (net.parse_ip pattern ≡ some address)
              × (net.ip_eq address ip ≡ true)))

  -- The client's address is known, and one of the patterns between the commas names it.
  abbrev pub HasSource : Text → Option net.IpAddr → Type 0
  HasSource allowed client_ip =
      (ip : net.IpAddr) × (client_ip ≡ some ip)
      × ((pattern : Text) × Memᴰ pattern (split_on b',' allowed) × Names (trim pattern) ip)

  pattern_matches-iff_Names :
      (pattern : Text) (ip : net.IpAddr)
      → (pattern_matches net pattern ip ≡ true) ↔ Names pattern ip
  unfolding pattern_matches
  pattern_matches-iff_Names [] ip =
      (λ h. absurd (ground arith), λ (some_pattern, _). absurd (some_pattern refl))
  pattern_matches-iff_Names (c ∷ pattern) ip =
      by_parts (net.parse_network (c ∷ pattern)) (net.parse_ip (c ∷ pattern))
    where
      by_parts :
          (network : Option net.IpNetwork) (address : Option net.IpAddr)
          → (ip_matches net network address ip ≡ true) ↔ (
              (c ∷ pattern ≢ [])
              × (((n : net.IpNetwork) × (network ≡ some n) × (net.network_contains n ip ≡ true))
                  ⊎ ((a : net.IpAddr) × (address ≡ some a) × (net.ip_eq a ip ≡ true))))
      by_parts none none = (
        λ h. absurd (ground arith),
        λ (_, either). elim either [ inl (n, e, h) ↦ absurd (cc) | inr (a, e, h) ↦ absurd (cc) ],
      )
      by_parts none (some a) = (
        λ h. (λ e. cc, inr (a, refl, h)),
        λ (_, either). elim either [ inl (n, e, h) ↦ absurd (cc) | inr (b, e, h) ↦ ground arith ],
      )
      by_parts (some n) none = (
        λ h. (λ e. cc, inl (n, refl, ground arith)),
        λ (_, either). elim either [ inl (m, e, h) ↦ ground arith | inr (b, e, h) ↦ absurd (cc) ],
      )
      by_parts (some n) (some a) = (
        λ h. (
          λ e. cc,
          elim (Bool-cases (net.network_contains n ip)) [
            | inl inside ↦ inl (n, refl, inside)
            | inr outside ↦ inr (a, refl, ground arith)
          ],
        ),
        λ (_, either). elim either [ inl (m, e, h) ↦ ground arith | inr (b, e, h) ↦ ground arith ],
      )

  any-pattern_matches-iff_Names :
      (patterns : List Text) (ip : net.IpAddr)
      → (any (λ pattern. pattern_matches net (trim pattern) ip) patterns ≡ true)
        ↔ ((pattern : Text) × Memᴰ pattern patterns × Names (trim pattern) ip)
  any-pattern_matches-iff_Names [] ip =
      (λ h. absurd (ground arith), λ (q, there, _). absurd (not-nil there))
  any-pattern_matches-iff_Names (p ∷ patterns) ip = (
    λ h. elim (Bool-cases (pattern_matches net (trim p) ip)) [
      | inl hit ↦ (p, head refl, (pattern_matches-iff_Names (trim p) ip).0 hit)
      | inr miss ↦
          let (q, there, named) = (any-pattern_matches-iff_Names patterns ip).0 (ground arith) in
          (q, tail there, named)
    ],
    λ (q, there, named). elim (cases_cons there) [
      | inl same ↦
          let hit =
            (pattern_matches-iff_Names (trim p) ip).1 (subst (λ t. Names (trim t) ip) same named) in
          ground arith
      | inr behind ↦
          let hit = (any-pattern_matches-iff_Names patterns ip).1 (q, behind, named) in ground arith
    ],
  )

  check_source_address_iff :
      (allowed : Text) (client_ip : Option net.IpAddr)
      → (check_source_address net trim allowed client_ip ≡ true) ↔ HasSource allowed client_ip
  unfolding check_source_address
  check_source_address_iff allowed none = (λ h. absurd (ground arith), λ (ip, e, _). absurd (cc))
  check_source_address_iff allowed (some ip) = (
    λ h. (ip, refl, (any-pattern_matches-iff_Names (split_on b',' allowed) ip).0 h),
    λ (other, e, found).
        let same : other ≡ ip = cc in
        (any-pattern_matches-iff_Names (split_on b',' allowed) ip).1 (
          subst
            (λ x. (pattern : Text) × Memᴰ pattern (split_on b',' allowed) × Names (trim pattern) x)
            same found),
  )

  -- A critical option is known, and a source address is one that the client has.
  abbrev pub IsAllowed : Option net.IpAddr → Text × Text → Type 0
  IsAllowed client_ip (name, contents) =
      ((name ≡ text "source-address") × HasSource contents client_ip)
      ⊎ ((name ≡ text "force-command") ⊎ (name ≡ text "no-pty"))

  abbrev pub AllAllowed : Option net.IpAddr → List (Text × Text) → Type 0
  AllAllowed client_ip [] = Unit
  AllAllowed client_ip (option ∷ options) =
      IsAllowed client_ip option × AllAllowed client_ip options

  -- What a certificate must satisfy, for a user and a client's address at a time.
  pub record Accepts (p : AuthPolicy) (cert : Certificate) (user : Text)
      (client_ip : Option net.IpAddr) (now : ℕ) : Type 0 where
    pub authority : CertAuthorityEntry
    pub signed_by : FirstSigner cert.signature_key p.cert_authorities authority
    pub verified : cert.verifies ≡ true
    pub begun : cert.valid_after ≤ now
    pub not_over : now < cert.valid_before
    pub for_user :
        (no_principals cert.valid_principals ≡ true) ⊎ (contains cert.valid_principals user ≡ true)
    pub allowed : AllAllowed client_ip cert.critical_options
    pub extended :
        contains authority.options (text "permit-port-forwarding") ≡ true
        → any (λ (e : Text × Text). text_eq e.0 (text "permit-port-forwarding")) cert.extensions
          ≡ true

  option_allowed-IsAllowed :
      (client_ip : Option net.IpAddr) (name contents : Text)
      → option_allowed net trim name contents client_ip ≡ true
      → IsAllowed client_ip (name, contents)
  option_allowed-IsAllowed client_ip name contents h =
      elim (Bool-cases (text_eq name (text "source-address"))) [
        | inl same ↦ inl (
          (text_eq_iff name (text "source-address")).0 same,
          (check_source_address_iff contents client_ip).0 (ground arith),
        )
        | inr other ↦ elim (Bool-cases (text_eq name (text "force-command"))) [
          | inl same ↦ inr (inl ((text_eq_iff name (text "force-command")).0 same))
          | inr another ↦ inr (inr ((text_eq_iff name (text "no-pty")).0 (ground arith)))
        ]
      ]

  IsAllowed-option_allowed :
      (client_ip : Option net.IpAddr) (name contents : Text)
      → IsAllowed client_ip (name, contents)
      → option_allowed net trim name contents client_ip ≡ true
  unfolding text_eq
  IsAllowed-option_allowed client_ip name contents (inl (e, h)) =
      rw e ((check_source_address_iff contents client_ip).1 h)
  IsAllowed-option_allowed client_ip name contents (inr (inl e)) = rw e refl
  IsAllowed-option_allowed client_ip name contents (inr (inr e)) = rw e refl

  options-AllAllowed :
      (client_ip : Option net.IpAddr) (options : List (Text × Text))
      → check_critical_options net trim options client_ip ≡ ok tt
      → AllAllowed client_ip options
  unfolding check_critical_options
  options-AllAllowed client_ip [] h = tt
  options-AllAllowed client_ip ((name, contents) ∷ options) h = (
    option_allowed-IsAllowed client_ip name contents (ground arith),
    options-AllAllowed client_ip options (ground arith),
  )

  AllAllowed-options :
      (client_ip : Option net.IpAddr) (options : List (Text × Text))
      → AllAllowed client_ip options
      → check_critical_options net trim options client_ip ≡ ok tt
  unfolding check_critical_options
  AllAllowed-options client_ip [] h = refl
  AllAllowed-options client_ip ((name, contents) ∷ options) (one, rest) =
      let this = IsAllowed-option_allowed client_ip name contents one in
      let others = AllAllowed-options client_ip options rest in ground arith

  -- A certificate is accepted exactly if an authority with its signature's key is listed, of which the
  -- first counts, the signature verifies, the time is in its half-open period, it names no principals or the user,
  -- each critical option is a list of source addresses that
  -- names the client's, force-command or no-pty, and it
  -- permits port forwarding if the authority's entry says so.
  pub authenticate_certificate-iff_Accepts :
      (p : AuthPolicy) (cert : Certificate) (user : Text) (client_ip : Option net.IpAddr) (now : ℕ)
      → (authenticate_certificate net trim p cert user client_ip now ≡ ok tt)
        ↔ Accepts p cert user client_ip now
  unfolding authenticate_certificate check_extensions
  authenticate_certificate-iff_Accepts p cert user client_ip now = (accepts, authenticates)
    where
      accepts :
          authenticate_certificate net trim p cert user client_ip now ≡ ok tt
          → Accepts p cert user client_ip now
      accepts h = elim (Option-cases (find_authority cert.signature_key p.cert_authorities)) [
        | inl unknown ↦ absurd (ground arith)
        | inr (ca, known) ↦
            elim (Result-cases (check_critical_options net trim cert.critical_options client_ip)) [
              | inr (x, bad) ↦ absurd (ground arith)
              | inl (u, good) ↦ record {
                authority = ca;
                signed_by =
                    find_authority-FirstSigner cert.signature_key p.cert_authorities ca known;
                verified = ground arith;
                begun = ground arith;
                not_over = ground arith;
                for_user = elim (Bool-cases (no_principals cert.valid_principals)) [
                  | inl free ↦ inl free
                  | inr bound ↦ inr (ground arith)
                ];
                allowed = options-AllAllowed client_ip cert.critical_options good;
                extended = λ needs. ground arith;
              }
            ]
      ]

      authenticates :
          Accepts p cert user client_ip now
          → authenticate_certificate net trim p cert user client_ip now ≡ ok tt
      authenticates a =
          let good = AllAllowed-options client_ip cert.critical_options a.allowed in
          let known =
            FirstSigner-find_authority cert.signature_key p.cert_authorities a.authority
              a.signed_by in
          elim (Bool-cases (contains a.authority.options (text "permit-port-forwarding"))) [
            | inl needs ↦
                let has = a.extended needs in
                ground (arith, known, a.verified, a.begun, a.not_over, a.for_user)
            | inr free ↦ ground (arith, known, a.verified, a.begun, a.not_over, a.for_user)
          ]
