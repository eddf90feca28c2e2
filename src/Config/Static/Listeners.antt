-- ===== src/Config/Static/Listeners.antt =====
-- The listeners that a server gets, compared with the options that it was started with.
use alknet.Prelude.{
  true, Option, none, Option-cases, List, [], ◌∷◌, Text, Result, ok, err, ◌>>=◌, >>=-eq-ok,
  Result-cases, Run, returned, panicked, ◌≡◌, ◌≢◌, ◌↔◌, inl, inr, refl, sym, subst, ◌∙◌, arith,
}
use alknet.Net.{Net}
use alknet.Error.{ConfigError}
use alknet.Interface.Pairs.{ssh, is_valid_pair}
use alknet.Auth.Keys.Load.{KeyCrates, load_private_key}
use alknet.Auth.ServerAuth.{ServerAuthConfig, from_keys_and_ca}
use alknet.Config.Static.{
  StaticConfig, DynamicConfig, ProxyMode, transport_kind_of, stream_of, listeners_of, static_of,
  with_auth, parse_proxy_config, from_serve_options,
}
use alknet.Server.Listener
use alknet.Server.Listener.{ListenerConfig, stream, check_certificates, is_tls, validate_stream}
use alknet.Server.Options
use alknet.Server.Options.{
  ServeTransportMode, tcp_mode, tls_mode, iroh_mode, is_tls_mode, check_mode, validate_all,
  validate_listeners, ServeOptions,
}

check_mode_iff :
    (mode : ServeTransportMode) (cert key acme : Option Text)
    → (check_mode mode cert key acme ≡ ok tt)
      ↔ (check_certificates (transport_kind_of mode) cert key acme ≡ ok tt)
check_mode_iff tls_mode cert key acme = ground arith
check_mode_iff tcp_mode cert key acme = (λ h. h, λ h. h)
check_mode_iff iroh_mode cert key acme = (λ h. h, λ h. h)

is_tls-transport_kind_of :
    (mode : ServeTransportMode) → is_tls (transport_kind_of mode) ≡ is_tls_mode mode
is_tls-transport_kind_of tls_mode = refl
is_tls-transport_kind_of tcp_mode = refl
is_tls-transport_kind_of iroh_mode = refl

runs_ssh : (mode : ServeTransportMode) → is_valid_pair (transport_kind_of mode) ssh ≡ true
unfolding is_valid_pair
runs_ssh tls_mode = refl
runs_ssh tcp_mode = refl
runs_ssh iroh_mode = refl

module _ {SocketAddr : Type 0} where
  -- There is a listener, and each passes its own check.
  abbrev pub AllValid : List (ListenerConfig SocketAddr) → Type 0
  AllValid [] = Unit
  AllValid (l ∷ ls) = (Listener.validate l ≡ ok tt) × AllValid ls

  abbrev pub Usable : List (ListenerConfig SocketAddr) → Type 0
  Usable ls = (ls ≢ []) × AllValid ls

  validate_all_iff :
      (ls : List (ListenerConfig SocketAddr)) → (validate_all ls ≡ ok tt) ↔ AllValid ls
  unfolding validate_all
  validate_all_iff [] = (λ _. tt, λ _. refl)
  validate_all_iff (l ∷ ls) = ground (arith, validate_all_iff ls)

  validate-stream_of :
      (o : ServeOptions SocketAddr)
      → o.listeners ≡ none
      → (Options.validate o ≡ ok tt) ↔ (validate_stream (stream_of o) ≡ ok tt)
  unfolding Options.validate validate_stream
  validate-stream_of o h = ground (
    arith,
    check_mode_iff o.transport_mode o.tls_cert o.tls_key o.acme_domain,
    is_tls-transport_kind_of o.transport_mode,
    runs_ssh o.transport_mode,
  )

  validate_listeners_iff :
      (ls : List (ListenerConfig SocketAddr)) → (validate_listeners ls ≡ ok tt) ↔ Usable ls
  validate_listeners_iff [] = (λ h. cc, λ (some_listener, _). absurd (some_listener refl))
  validate_listeners_iff (l ∷ ls) = (
    λ h. (λ empty. cc, (validate_all_iff (l ∷ ls)).0 h),
    λ (_, valid). (validate_all_iff (l ∷ ls)).1 valid,
  )

  listeners_of-none :
      (o : ServeOptions SocketAddr)
      → o.listeners ≡ none
      → listeners_of o ≡ stream (stream_of o) ∷ []
  unfolding listeners_of
  listeners_of-none o h = rw (h, listeners_of) refl

  one_Usable :
      (o : ServeOptions SocketAddr)
      → (validate_stream (stream_of o) ≡ ok tt) ↔ Usable (stream (stream_of o) ∷ [])
  unfolding Listener.validate
  one_Usable o = (λ h. (λ empty. cc, (h, tt)), λ (_, (h, _)). h)

  -- The options pass their check exactly where the listeners that the server makes of them are at
  -- least one, and each of them passes the check of a listener.
  pub validate-iff_Usable :
      (o : ServeOptions SocketAddr) → (Options.validate o ≡ ok tt) ↔ Usable (listeners_of o)
  unfolding listeners_of Options.validate
  validate-iff_Usable o = elim (Option-cases o.listeners) [
    | inl h ↦
        let (into, back) = validate-stream_of o h in
        let (usable, valid) = one_Usable o in
        (
          λ checked. rw (h, listeners_of) (usable (into checked)),
          λ listed. back (valid (subst Usable (listeners_of-none o h) listed)),
        )
    | inr (ls, h) ↦ rw (h, listeners_of, Options.validate) (validate_listeners_iff ls)
  ]

module _ {SocketAddr : Type 0} (parse_addr : Text → Result SocketAddr Text) {PrivateKey : Type 0}
    (crates : KeyCrates PrivateKey) (net : Net) (Credentials : Type 0)
    (o : ServeOptions SocketAddr) where
  abbrev pub Made :
      Run (Result (StaticConfig SocketAddr PrivateKey × DynamicConfig net Credentials) ConfigError)
      → Type 0
  Made panicked = Unit
  Made (returned (err e)) = Unit
  Made (returned (ok (made, dynamic))) =
      (made.listeners ≡ listeners_of o)
      × (made.max_connections_per_ip ≡ o.max_connections_per_ip)
      × (made.max_auth_attempts ≡ o.max_auth_attempts)

  with_proxy-Made :
      (host_key : PrivateKey) (dynamic : DynamicConfig net Credentials)
      (proxy : Result (Option (ProxyMode SocketAddr)) ConfigError)
      → Made (returned (proxy >>= λ p. ok (static_of o host_key p, dynamic)))
  with_proxy-Made host_key dynamic (err e) = tt
  with_proxy-Made host_key dynamic (ok proxy) = (refl, refl, refl)

  with_auth-Made :
      (host_key : PrivateKey) (auth : Run (Result ServerAuthConfig ConfigError))
      → Made (with_auth parse_addr crates {net = net} {Credentials = Credentials} o host_key auth)
  with_auth-Made host_key panicked = tt
  with_auth-Made host_key (returned (err e)) = tt
  with_auth-Made host_key (returned (ok c)) =
      with_proxy-Made host_key _ (parse_proxy_config parse_addr o.proxy)

  pub from_serve_options-Made :
      (made : StaticConfig SocketAddr PrivateKey) (dynamic : DynamicConfig net Credentials)
      → from_serve_options parse_addr crates o ≡ returned (ok (made, dynamic))
      → (Options.validate o ≡ ok tt) × Made (returned (ok (made, dynamic)))
  unfolding from_serve_options
  from_serve_options-Made made dynamic h =
      elim (Result-cases (Options.validate o >>= λ _. load_private_key crates o.key)) [
        | inr (e, failed) ↦
            let stopped : from_serve_options parse_addr crates {net = net}
                  {Credentials = Credentials} o
                ≡ returned (err e) =
              rw (failed, from_serve_options) refl in
            absurd (cc)
        | inl (host_key, loaded) ↦
            let (_, checked, _) = >>=-eq-ok (Options.validate o) _ loaded in
            let auth = from_keys_and_ca crates o.authorized_keys o.cert_authority in
            let goes_on : from_serve_options parse_addr crates {net = net}
                  {Credentials = Credentials} o
                ≡ with_auth parse_addr crates o host_key auth =
              rw (loaded, from_serve_options) refl in
            (checked, subst Made (sym goes_on ∙ h) (with_auth-Made host_key auth))
      ]

  -- Where a configuration is made of the options, its listeners are those of the options, at least
  -- one, and each passes its check; the limits are those of the options.
  pub from_serve_options-Usable :
      (made : StaticConfig SocketAddr PrivateKey) (dynamic : DynamicConfig net Credentials)
      → from_serve_options parse_addr crates o ≡ returned (ok (made, dynamic))
      → Usable made.listeners
        × (made.max_connections_per_ip ≡ o.max_connections_per_ip)
        × (made.max_auth_attempts ≡ o.max_auth_attempts)
  from_serve_options-Usable made dynamic h =
      let (checked, (listeners, per_ip, attempts)) = from_serve_options-Made made dynamic h in
      (subst Usable (sym listeners) ((validate-iff_Usable o).0 checked), per_ip, attempts)
