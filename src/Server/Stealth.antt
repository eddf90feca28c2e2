-- ===== src/Server/Stealth.antt =====
-- crates/alknet-core/src/server/stealth.rs, and `handle_connection` of serve.rs, which uses it. The
-- first read of a stream gives bytes or an error; the SSH protocol on the stream is russh's.
pub mod Detection
use alknet.Prelude.{
  ℕ, Bool, true, false, not, ◌&&◌, List, [], ◌∷◌, ◌++◌, Text, text, text_eq, starts_with, length,
  take, leb, if◌then◌else◌, Result, ok, err, refuse_if, map,
}
use alknet.Auth.Identity.{IdentityProvider}
use alknet.Http.{Request, Response, route}

pub data ProtocolDetection : Type 0 where
  ssh_protocol http_protocol : ProtocolDetection

abbrev pub ssh_banner_prefix : Text
ssh_banner_prefix = text "SSH-2.0-"

abbrev crlf : Text
crlf = 13 ∷ 10 ∷ []

abbrev pub fake_nginx_404 : Text
fake_nginx_404 = text "HTTP/1.1 404 Not Found" ++ crlf ++ text "Server: nginx" ++ crlf ++ crlf

abbrev pub detected : Bool → ProtocolDetection
detected true = ssh_protocol
detected false = http_protocol

abbrev pub is_empty : List ℕ → Bool
is_empty [] = true
is_empty (_ ∷ _) = false

unfoldable pub detect_protocol : Result (List ℕ) Text → ProtocolDetection
detect_protocol (err e) = http_protocol
detect_protocol (ok buf) =
    if leb (length ssh_banner_prefix) (length buf)
    then detected (text_eq (take (length ssh_banner_prefix) buf) ssh_banner_prefix)
    else if not (is_empty buf)
    then detected (starts_with ssh_banner_prefix buf)
    else http_protocol

unfoldable pub validate_stealth_config : Bool → Bool → Result (Unit {0}) Text
validate_stealth_config stealth transport_is_tls =
    refuse_if (stealth && not transport_is_tls)
      (text "stealth mode requires TLS transport (--transport tls)")

-- What a client gets that is not taken for SSH: with the feature `http` the answers of the router
-- to its requests, and otherwise the bytes of the fake page.
pub data Answered : Type 0 where
  routed : List Response → Answered
  fake_page : List ℕ → Answered

unfoldable pub handle_http_stealth : Bool → IdentityProvider → List Request → Answered
unfolding route
handle_http_stealth true provider requests = routed (map (route provider) requests)
handle_http_stealth false provider requests = fake_page fake_nginx_404

-- What becomes of a connection: an SSH session of this name, an error of russh, or answers.
pub data Handled : Type 0 where
  session : ℕ → Handled
  failed : Text → Handled
  answered : Answered → Handled

-- A connection as the server meets it: its first read, what `run_stream` of russh makes of it, and
-- the requests on it when it speaks HTTP.
pub record Connection : Type 0 where
  pub first_read : Result (List ℕ) Text
  pub ssh_stream : Result ℕ Text
  pub requests : List Request

abbrev pub run_stream : Result ℕ Text → Handled
run_stream (ok name) = session name
run_stream (err e) = failed e

unfoldable pub handle_connection : Bool → IdentityProvider → Bool → Bool → Connection → Handled
unfolding detect_protocol handle_http_stealth
handle_connection http_feature provider stealth transport_is_tls c =
    if stealth && transport_is_tls
    then elim (detect_protocol c.first_read) [
      | http_protocol ↦ answered (handle_http_stealth http_feature provider c.requests)
      | ssh_protocol ↦ run_stream c.ssh_stream
    ]
    else run_stream c.ssh_stream
