-- ===== src/Cli/Serving.antt =====
-- What `alknet serve` starts fits together.
use alknet.Prelude.{
  Bool, true, false, not, ◌&&◌, Option, none, some, [], ◌∷◌, Text, text, if◌then◌else◌, Result, ok,
  err, ◌>>◌, >>=-eq-ok, ok_injective, Result-cases, map_err, map_err-ok, refuse_if_iff, is_some,
  Run, returned, panicked, ◌≡◌, inl, inr, refl, sym, ap, subst, ◌∙◌,
}
use alknet.Net.{Net, tcp, tls, iroh}
use alknet.Error.{ConfigError, config_text}
use alknet.Auth.Keys.Load.{KeySource, KeyCrates, file}
use alknet.Config.Static.{stream_of, listeners_of, transport_kind_of}
use alknet.Server.Accept
use alknet.Server.Accept.{Server, ServeError}
use alknet.Server.Accept.Start.{new-listeners_of}
use alknet.Server.Listener.{StreamListenerConfig, stream}
use alknet.Server.Options
use alknet.Server.Options.{
  ServeOptions, is_tls_mode, ServeTransportMode, tcp_mode, tls_mode, iroh_mode,
}
use alknet.Cli.{
  Features, Parsers, ServeArgs, Acceptor, tcp_acceptor, acme_acceptor, tls_acceptor, iroh_acceptor,
  given, required, optional, serve_options, tls_bind, acceptor, checked, with_acceptor,
  make_and_bind, run_serve,
}

-- An option that is given to a builder ends up in its field.
given-put :
    {A Options : Type 0} (o : Option A) (set : A → Options → Options) (put : Option A → Options)
    (inner : Options)
    → inner ≡ put none
    → ((a : A) → set a (put none) ≡ put (some a))
    → given o set inner ≡ put o
given-put none set put inner e h = e
given-put (some a) set put inner e h = ap (set a) e ∙ h a

abbrev pub map_file : Option Text → Option KeySource
map_file none = none
map_file (some path) = some (file path)

module _ {SocketAddr : Type 0} (features : Features) (parsers : Parsers SocketAddr) where
  abbrev filled :
      ServeArgs
      → Option KeySource
      → Option KeySource
      → Option Text
      → Option Text
      → Option Text
      → Option Text
      → Option Text
      → ServeOptions SocketAddr
  filled a keys ca cert key acme proxy relay = record {
    key = file a.key;
    authorized_keys = keys;
    cert_authority = ca;
    transport_mode = a.transport;
    listen_addr = a.listen;
    tls_cert = cert;
    tls_key = key;
    acme_domain = acme;
    stealth = a.stealth;
    proxy = proxy;
    iroh_relay = relay;
    max_connections_per_ip = a.max_connections_per_ip;
    max_auth_attempts = a.max_auth_attempts;
    listeners = none;
  }

  serve_options-filled :
      (a : ServeArgs)
      → serve_options features parsers a
        ≡ filled a
            (map_file a.authorized_keys)
            (map_file a.cert_authority)
            a.tls_cert
            a.tls_key
            a.acme_domain
            a.proxy
            a.iroh_relay
  serve_options-filled a =
      given-put a.iroh_relay _
        (λ o.
          filled a (map_file a.authorized_keys) (map_file a.cert_authority) a.tls_cert a.tls_key
            a.acme_domain a.proxy o)
        _
        (given-put a.proxy _
          (λ o.
            filled a (map_file a.authorized_keys) (map_file a.cert_authority) a.tls_cert a.tls_key
              a.acme_domain o none)
          _
          (given-put a.acme_domain _
            (λ o.
              filled a (map_file a.authorized_keys) (map_file a.cert_authority) a.tls_cert a.tls_key
                o none none)
            _
            (given-put a.tls_key _
              (λ o.
                filled a (map_file a.authorized_keys) (map_file a.cert_authority) a.tls_cert o none
                  none none)
              _
              (given-put a.tls_cert _
                (λ o.
                  filled a (map_file a.authorized_keys) (map_file a.cert_authority) o none none none
                    none)
                _
                (given-put a.cert_authority _
                  (λ o. filled a (map_file a.authorized_keys) (map_file o) none none none none none)
                  _
                  (given-put a.authorized_keys _
                    (λ o. filled a (map_file o) none none none none none none) _ refl (λ _. refl))
                  (λ _. refl))
                (λ _. refl))
              (λ _. refl))
            (λ _. refl))
          (λ _. refl))
        (λ _. refl)

  -- What accepts the connections serves the transport of a listener with this address and these
  -- certificates.
  abbrev pub Fits : StreamListenerConfig → Acceptor SocketAddr → Type 0
  Fits c (tcp_acceptor addr) =
      (c.transport_kind ≡ tcp) × (parsers.parse_addr c.listen_addr ≡ ok addr)
  Fits c (tls_acceptor addr cert key) =
      (c.transport_kind ≡ tls none)
      × (parsers.parse_addr c.listen_addr ≡ ok addr)
      × (c.tls_cert ≡ some cert)
      × (c.tls_key ≡ some key)
  Fits c (acme_acceptor addr domain) =
      (c.transport_kind ≡ tls none)
      × (parsers.parse_addr c.listen_addr ≡ ok addr)
      × (c.acme_domain ≡ some domain)
  Fits c (iroh_acceptor relay proxy) = c.transport_kind ≡ iroh []

  required-ok : {A : Type 0} (o : Option A) (e : Text) (a : A) → required o e ≡ ok a → o ≡ some a
  required-ok (some b) e a h = cc
  required-ok none e a h = cc

  abbrev options_of : ServeArgs → ServeOptions SocketAddr
  options_of a =
      filled a (map_file a.authorized_keys) (map_file a.cert_authority) a.tls_cert a.tls_key
        a.acme_domain a.proxy a.iroh_relay

  abbrev listener : ServeArgs → ServeTransportMode → StreamListenerConfig
  listener a mode = record (stream_of (options_of a)) { transport_kind = transport_kind_of mode }

  tls_bind-Fits :
      (a : ServeArgs) (addr : SocketAddr) (domain : Option Text) (accepts : Acceptor SocketAddr)
      → parsers.parse_addr a.listen ≡ ok addr
      → ((d : Text) → domain ≡ some d → a.acme_domain ≡ some d)
      → tls_bind features parsers a addr domain ≡ ok accepts
      → Fits (listener a tls_mode) accepts
  tls_bind-Fits a addr (some d) accepts parsed asked h =
      subst (Fits (listener a tls_mode)) (ok_injective h) (refl, parsed, asked d refl)
  tls_bind-Fits a addr none accepts parsed asked h =
      let (cert, has_cert, next) = >>=-eq-ok (required a.tls_cert _) _ h in
      let (key, has_key, last) = >>=-eq-ok (required a.tls_key _) _ next in
      subst (Fits (listener a tls_mode)) (ok_injective last)
        (refl, parsed, required-ok a.tls_cert _ cert has_cert, required-ok a.tls_key _ key has_key)

  if_acme :
      (acme : Bool) (domain : Option Text) (d : Text)
      → (if acme then domain else none) ≡ some d
      → domain ≡ some d
  if_acme true domain d h = h
  if_acme false domain d h = cc

  acceptor-Fits :
      (a : ServeArgs) (mode : ServeTransportMode) (accepts : Acceptor SocketAddr)
      → acceptor features parsers a mode ≡ ok accepts
      → Fits (listener a mode) accepts
  acceptor-Fits a tcp_mode accepts h =
      let (addr, parsed, last) = >>=-eq-ok (map_err _ (parsers.parse_addr a.listen)) _ h in
      subst (Fits (listener a tcp_mode)) (ok_injective last) (refl, map_err-ok _ _ addr parsed)
  acceptor-Fits a tls_mode accepts h =
      let (_, bound) = (refuse_if_iff (not features.tls) _ _ accepts).0 h in
      let (addr, parsed, last) = >>=-eq-ok (map_err _ (parsers.parse_addr a.listen)) _ bound in
      tls_bind-Fits a addr (if features.acme then a.acme_domain else none) accepts
        (map_err-ok _ _ addr parsed) (if_acme features.acme a.acme_domain) last
  acceptor-Fits a iroh_mode accepts h =
      let (_, bound) = (refuse_if_iff (not features.iroh) _ _ accepts).0 h in
      let (relay, _, next) =
        >>=-eq-ok (optional parsers.parse_url (text "invalid iroh relay URL: ") a.iroh_relay) _
          bound in
      let (proxy, _, last) =
        >>=-eq-ok (optional parsers.parse_url (text "invalid proxy URL: ") a.proxy) _ next in
      subst (Fits (listener a iroh_mode)) (ok_injective last) refl

  module _ (net : Net) (Credentials : Type 0) {PrivateKey : Type 0}
      (crates : KeyCrates PrivateKey) where
    abbrev pub make : ServeOptions SocketAddr → Run (Result (Server SocketAddr) ServeError)
    make = Accept.new net Credentials parsers.parse_addr crates

    returned_injective :
        {x y : Result (Server SocketAddr × Acceptor SocketAddr) Text}
        → ◌≡◌ {A = Run (Result (Server SocketAddr × Acceptor SocketAddr) Text)}
            (returned x)
            (returned y)
        → x ≡ y
    returned_injective h = cc

    then_ok :
        (r : Result (Unit {0}) ConfigError) (x o : ServeOptions SocketAddr)
        → (map_err config_text r >> ok x) ≡ ok o
        → x ≡ o
    then_ok (ok _) x o h = ok_injective h
    then_ok (err e) x o h = cc

    checked-options :
        (a : ServeArgs) (o : ServeOptions SocketAddr)
        → checked features parsers a ≡ ok o
        → serve_options features parsers a ≡ o
    checked-options a o h =
        let (_, second) =
          (refuse_if_iff (is_some a.acme_domain && not features.acme)
              (text "ACME support is not available (alknet built without 'acme' feature)") _ o).0
            h in
        let (_, third) =
          (refuse_if_iff (a.stealth && not (is_tls_mode a.transport))
              (text "stealth mode requires TLS transport (--transport tls)") _ o).0
            second in
        then_ok (Options.validate (serve_options features parsers a)) _ o third

    made_with :
        (a : ServeArgs) (made : Run (Result (Server SocketAddr) ServeError)) (s : Server SocketAddr)
        (accepts : Acceptor SocketAddr)
        → with_acceptor features parsers a made ≡ returned (ok (s, accepts))
        → (made ≡ returned (ok s)) × (acceptor features parsers a a.transport ≡ ok accepts)
    made_with a panicked s accepts h = cc
    made_with a (returned (err e)) s accepts h = cc
    made_with a (returned (ok t)) s accepts h =
        let (bound, got, last) =
          >>=-eq-ok (acceptor features parsers a a.transport) (λ x. ok (t, x))
            (returned_injective h) in
        let same = ok_injective last in
        (
          ap (λ (p : Server SocketAddr × Acceptor SocketAddr). returned (ok p.0)) same,
          got ∙ ap (λ (p : Server SocketAddr × Acceptor SocketAddr). ok p.1) same,
        )

    -- Where `alknet serve` starts, the server has one listener, a stream listener that passes the
    -- checks of the options, and what accepts its connections serves the transport of that listener,
    -- at its address and with its certificates.
    pub run_serve-Fits :
        (a : ServeArgs) (s : Server SocketAddr) (accepts : Acceptor SocketAddr)
        → run_serve features parsers make a ≡ returned (ok (s, accepts))
        → (c : StreamListenerConfig) × (s.listeners ≡ stream c ∷ [])
          × (Options.validate (serve_options features parsers a) ≡ ok tt)
          × Fits c accepts
    unfolding run_serve listeners_of
    run_serve-Fits a s accepts h = elim (Result-cases (checked features parsers a)) [
      | inr (e, refused) ↦
          let stopped : run_serve features parsers make a ≡ returned (err e) =
            ap (make_and_bind features parsers make a) refused in
          absurd (cc)
      | inl (o, passed) ↦
          let (made, bound) =
            made_with a (make o) s accepts
              (sym (ap (make_and_bind features parsers make a) passed) ∙ h) in
          let (valid, listed) =
            new-listeners_of parsers.parse_addr crates net Credentials o s made in
          let built = checked-options a o passed in
          let direct = sym built ∙ serve_options-filled a in
          (
            listener a a.transport,
            listed ∙ ap listeners_of direct ∙ refl,
            ap Options.validate built ∙ valid,
            acceptor-Fits a a.transport accepts bound,
          )
    ]
