-- ===== src/Server/Stealth/Detection.antt =====
-- When a connection is taken for SSH, and what the others are answered.
use alknet.Prelude.{
  ℕ, Bool, true, false, not, List, [], ◌∷◌, Text, text, text_eq, starts_with, length, take, leb,
  if◌then◌else◌, Result, ok, err, ◌≡◌, ◌↔◌, refl, arith,
}
use alknet.Auth.Identity.{IdentityProvider}
use alknet.Server.Stealth.{
  ProtocolDetection, Answered, ssh_protocol, http_protocol, ssh_banner_prefix, detect_protocol,
  detected, is_empty, Connection, handle_connection, session, answered, run_stream,
  handle_http_stealth,
}

text_eq-take : (p s : Text) → text_eq (take (length p) s) p ≡ starts_with p s
unfolding text_eq
text_eq-take [] s = refl
text_eq-take (a ∷ p) [] = refl
text_eq-take (a ∷ p) (b ∷ s) = ground (arith, text_eq-take p s)

starts_with-length : (p s : Text) → starts_with p s ≡ true → leb (length p) (length s) ≡ true
starts_with-length [] s h = ground arith
starts_with-length (a ∷ p) [] h = ground arith
starts_with-length (a ∷ p) (b ∷ s) h = ground (arith, starts_with-length p s)

-- The three branches come to the test of the prefix.
branches :
    (a : ℕ) (p buf : Text)
    → (if leb (length (a ∷ p)) (length buf)
        then detected (text_eq (take (length (a ∷ p)) buf) (a ∷ p))
        else if not (is_empty buf)
        then detected (starts_with (a ∷ p) buf)
        else http_protocol)
      ≡ detected (starts_with (a ∷ p) buf)
branches a p [] = ground arith
branches a p (b ∷ buf) = ground (arith, text_eq-take (a ∷ p) (b ∷ buf))

detected_iff : (b : Bool) → (detected b ≡ ssh_protocol) ↔ (b ≡ true)
detected_iff true = (λ _. refl, λ _. refl)
detected_iff false = (λ h. cc, λ h. cc)

detect_protocol-eq :
    (buf : List ℕ) → detect_protocol (ok buf) ≡ detected (starts_with ssh_banner_prefix buf)
unfolding detect_protocol
detect_protocol-eq buf = branches b'S' (text "SH-2.0-") buf

-- Whether the first read of a connection holds the whole prefix of the SSH banner.
abbrev pub SpeaksSsh : Result (List ℕ) Text → Type 0
SpeaksSsh (err e) = ⊥
SpeaksSsh (ok buf) = starts_with ssh_banner_prefix buf ≡ true

detect_protocol-iff_SpeaksSsh :
    (read : Result (List ℕ) Text) → (detect_protocol read ≡ ssh_protocol) ↔ SpeaksSsh read
unfolding detect_protocol
detect_protocol-iff_SpeaksSsh (err e) = (λ h. cc, λ h. absurd h)
detect_protocol-iff_SpeaksSsh (ok buf) = rw (detect_protocol-eq buf) (detected_iff _)

run_stream_iff : (r : Result ℕ Text) (name : ℕ) → (run_stream r ≡ session name) ↔ (r ≡ ok name)
run_stream_iff (ok n) name = (λ h. cc, λ h. cc)
run_stream_iff (err e) name = (λ h. cc, λ h. cc)

stealthy_iff :
    (d : ProtocolDetection) (a : Answered) (r : Result ℕ Text) (name : ℕ)
    → ((elim d [ http_protocol ↦ answered a | ssh_protocol ↦ run_stream r ]) ≡ session name)
      ↔ ((r ≡ ok name) × (d ≡ ssh_protocol))
stealthy_iff http_protocol a r name = (λ h. cc, λ (_, h). cc)
stealthy_iff ssh_protocol a r name =
    let (into, back) = run_stream_iff r name in (λ h. (into h, refl), λ (h, _). back h)

-- A connection becomes the SSH session of this name exactly where russh opens it, and, if the server
-- is stealthy on a TLS transport, the first read of the stream already holds the whole prefix of the
-- banner.
pub handle_connection-session_iff :
    (http_feature : Bool) (provider : IdentityProvider) (stealth transport_is_tls : Bool)
    (c : Connection) (name : ℕ)
    → (handle_connection http_feature provider stealth transport_is_tls c ≡ session name) ↔ (
        (c.ssh_stream ≡ ok name)
        × (stealth ≡ true → transport_is_tls ≡ true → SpeaksSsh c.first_read))
unfolding handle_connection
handle_connection-session_iff http_feature provider true true c name =
    let (into, back) =
      stealthy_iff (detect_protocol c.first_read)
        (handle_http_stealth http_feature provider c.requests) c.ssh_stream name in
    let (speaks, detects) = detect_protocol-iff_SpeaksSsh c.first_read in
    (
      λ h. ((into h).0, λ _ _. speaks ((into h).1)),
      λ (opened, spoken). back (opened, detects (spoken refl refl)),
    )
handle_connection-session_iff http_feature provider true false c name =
    ground (arith, run_stream_iff c.ssh_stream name)
handle_connection-session_iff http_feature provider false tls c name =
    ground (arith, run_stream_iff c.ssh_stream name)
