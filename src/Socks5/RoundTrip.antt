-- ===== src/Socks5/RoundTrip.antt =====
-- Requests and replies are read as they were written, and the two ends of the protocol agree.
use alknet.Prelude.{
  ℕ, ◌%◌, ◌<◌, ◌≡◌, refl, true, List, [], ◌∷◌, ◌++◌, Text, ok, length, arith, ◌∙◌, length-append,
  take_of_append, drop_of_append, append_assoc, ap,
}
use alknet.Prelude.BigEndian.{u16_bytes, u16_of-u16_bytes}
use alknet.Socks5.{
  Socks5Address, ipv4, ipv6, domain, Socks5Request, Socks5Reply, read_exact, read_methods,
  read_address, read_request, reply_bytes, address_bytes, reply_success, unspecified,
}
use alknet.Socks5.Server.{Outside, Served, handle_socks5_connection, serve_request, host_of}
use alknet.Socks5.Client.{greeting, connect_request, skip_address, read_reply, connect_socks5}

read_exact-append :
    (n : ℕ) (xs rest : List ℕ) → length xs ≡ n → read_exact n (xs ++ rest) ≡ ok (xs, rest)
read_exact-append n xs rest h =
    ground (arith, length-append xs rest, take_of_append n xs rest h, drop_of_append n xs rest h)

-- An address that fits its type of the protocol.
abbrev pub Fits : (List ℕ → Text) → Socks5Address → Type 0
Fits lossy (ipv4 octets) = length octets ≡ 4
Fits lossy (ipv6 octets) = length octets ≡ 16
Fits lossy (domain name) = (length name < 256) × (lossy name ≡ name)

-- The bytes of an address after its type.
abbrev body_bytes : Socks5Address → List ℕ
body_bytes (ipv4 octets) = octets
body_bytes (ipv6 octets) = octets
body_bytes (domain name) = length name % 256 ∷ name

abbrev type_byte : Socks5Address → ℕ
type_byte (ipv4 _) = 1
type_byte (ipv6 _) = 4
type_byte (domain _) = 3

read_address-body :
    (lossy : List ℕ → Text) (a : Socks5Address) (rest : List ℕ)
    → Fits lossy a
    → read_address lossy (type_byte a) (body_bytes a ++ rest) ≡ ok (a, rest)
unfolding read_address
read_address-body lossy (ipv4 octets) rest h = rw (read_exact-append 4 octets rest h) refl
read_address-body lossy (ipv6 octets) rest h = rw (read_exact-append 16 octets rest h) refl
read_address-body lossy (domain name) rest (short, same) =
    rw (read_exact-append (length name % 256) name rest (omega arith), same) refl

abbrev pub as_request : Socks5Reply → Socks5Request
as_request r = record { version = r.version; command = r.reply; address = r.address; port = r.port }

address_bytes-eq : (a : Socks5Address) → address_bytes a ≡ type_byte a ∷ body_bytes a
unfolding address_bytes
address_bytes-eq (ipv4 octets) = refl
address_bytes-eq (ipv6 octets) = refl
address_bytes-eq (domain name) = refl

-- The bytes of a reply are read as a request with its fields, and what follows is left: so the two
-- share their layout. A name is shorter than 256 bytes and valid UTF-8, and an address of its type's
-- length.
pub read_request-reply_bytes :
    (lossy : List ℕ → Text) (r : Socks5Reply) (rest : List ℕ)
    → Fits lossy r.address
    → r.port < 65536
    → read_request lossy (reply_bytes r ++ rest) ≡ ok (as_request r, rest)
unfolding read_request reply_bytes
read_request-reply_bytes lossy r rest h k =
    rw
      (
        address_bytes-eq r.address,
        append_assoc (body_bytes r.address) (u16_bytes r.port) rest,
        read_address-body lossy r.address (u16_bytes r.port ++ rest) h,
        u16_of-u16_bytes r.port k,
      )
      refl

connect_request-eq :
    (ip_text : Text) (port : ℕ)
    → connect_request ip_text port
      ≡ reply_bytes (record { version = 5; reply = 1; address = domain ip_text; port = port })
unfolding connect_request reply_bytes address_bytes
connect_request-eq ip_text port = refl

abbrev asked : Text → ℕ → List ℕ
asked ip_text port = greeting ++ connect_request ip_text port

abbrev pub answered : List ℕ
answered = 5 ∷ 0 ∷ reply_bytes (reply_success (ipv4 unspecified) 0)

abbrev connected : Text → ℕ → Socks5Request
connected ip_text port = record { version = 5; command = 1; address = domain ip_text; port = port }

abbrev accepted : Text → ℕ → List ℕ → Served
accepted ip_text port rest = record {
  written = reply_bytes (reply_success (ipv4 unspecified) 0);
  outcome = ok ((ip_text, port), rest);
}

serve_request_of_read :
    (outside : Outside) (ip_text : Text) (port : ℕ) (input rest : List ℕ)
    → outside.opens ip_text port ≡ true
    → read_request outside.lossy input ≡ ok (connected ip_text port, rest)
    → serve_request outside input ≡ accepted ip_text port rest
unfolding serve_request host_of
serve_request_of_read outside ip_text port input rest opened e = rw (serve_request, e, opened) refl

serve_request-connect_request :
    (outside : Outside) (ip_text : Text) (port : ℕ) (rest : List ℕ)
    → Fits outside.lossy (domain ip_text)
    → port < 65536
    → outside.opens ip_text port ≡ true
    → serve_request outside (connect_request ip_text port ++ rest) ≡ accepted ip_text port rest
serve_request-connect_request outside ip_text port rest h k opened =
    serve_request_of_read outside ip_text port (connect_request ip_text port ++ rest) rest opened (
      ap (λ b. read_request outside.lossy (b ++ rest)) (connect_request-eq ip_text port)
      ∙ read_request-reply_bytes outside.lossy
          (record { version = 5; reply = 1; address = domain ip_text; port = port }) rest h k)

handle-asked :
    (outside : Outside) (input : List ℕ) (served : Served)
    → serve_request outside input ≡ served
    → handle_socks5_connection outside (greeting ++ input)
      ≡ record { written = 5 ∷ 0 ∷ served.written; outcome = served.outcome }
unfolding handle_socks5_connection read_methods
handle-asked outside input served e =
    rw (handle_socks5_connection, read_exact-append 1 (0 ∷ []) input refl, e) refl

written-connect_socks5 :
    (ip_text : Text) (port : ℕ)
    → (connect_socks5 ip_text port answered).written ≡ asked ip_text port
unfolding connect_socks5
written-connect_socks5 ip_text port = refl

-- The proxy client and the proxy server of the program agree: on what the client writes, with any
-- bytes after it, the server opens a channel to exactly the client's address and port and passes
-- those bytes on, and on what the server writes back the client takes the tunnel as standing, with
-- no byte left over. The address's text is shorter than 256 bytes and valid UTF-8.
pub connect_socks5-handle_socks5_connection :
    (outside : Outside) (ip_text : Text) (port : ℕ) (rest : List ℕ)
    → Fits outside.lossy (domain ip_text)
    → port < 65536
    → outside.opens ip_text port ≡ true
    → (handle_socks5_connection outside ((connect_socks5 ip_text port answered).written ++ rest)
        ≡ record { written = answered; outcome = ok ((ip_text, port), rest) })
      × ((connect_socks5 ip_text port answered).outcome ≡ ok [])
unfolding connect_socks5 read_reply skip_address reply_bytes address_bytes
connect_socks5-handle_socks5_connection outside ip_text port rest h k opened = (
  handle-asked outside (connect_request ip_text port ++ rest) (accepted ip_text port rest)
      (serve_request-connect_request outside ip_text port rest h k opened),
  refl,
)
