-- ===== src/Server/Accept/Start.antt =====
-- A server that was made can run.
use alknet.Prelude.{
  Bool, List, [], ◌∷◌, Text, Result, ok, err, Run, returned, panicked, ◌≡◌, ◌≢◌, refl, sym, ap, ◌∙◌,
  subst,
}
use alknet.Net.{Net}
use alknet.Error.{ConfigError}
use alknet.Auth.Identity.{IdentityProvider}
use alknet.Auth.Keys.Load.{KeyCrates}
use alknet.Config.Static.{StaticConfig, DynamicConfig, listeners_of, from_serve_options}
use alknet.Config.Static.Listeners.{Usable, from_serve_options-Made, from_serve_options-Usable}
use alknet.Server.RateLimit
use alknet.Server.Listener.{ListenerConfig, stream, http, dns}
use alknet.Server.Options
use alknet.Server.Options.{ServeOptions}
use alknet.Server.Accept.{Server, Incoming, Background, server_of, of_config, new, run, run_first}

module _ {SocketAddr : Type 0} (parse_addr : Text → Result SocketAddr Text) {PrivateKey : Type 0}
    (crates : KeyCrates PrivateKey) (net : Net) (Credentials : Type 0) where
  abbrev Outcome : Type 0
  Outcome =
      Run (Result (StaticConfig SocketAddr PrivateKey × DynamicConfig net Credentials) ConfigError)

  of_config-made :
      (outcome : Outcome) (s : Server SocketAddr)
      → of_config outcome ≡ returned (ok s)
      → (c : StaticConfig SocketAddr PrivateKey) × (dynamic : DynamicConfig net Credentials)
        × (outcome ≡ returned (ok (c, dynamic)))
        × (server_of c ≡ s)
  of_config-made panicked s h = cc
  of_config-made (returned (err e)) s h = cc
  of_config-made (returned (ok (c, dynamic))) s h = (c, dynamic, refl, cc)

  run_first-returns :
      (http_feature : Bool) (provider : IdentityProvider) (ls : List (ListenerConfig SocketAddr))
      (s : Server SocketAddr) (es : List Incoming) (drain : List Background)
      → ls ≢ []
      → run_first http_feature provider ls s es drain ≢ panicked
  run_first-returns http_feature provider [] s es drain some_listener h = some_listener refl
  run_first-returns http_feature provider (stream config ∷ ls) s es drain some_listener h = cc
  run_first-returns http_feature provider (http config ∷ ls) s es drain some_listener h = cc
  run_first-returns http_feature provider (dns config ∷ ls) s es drain some_listener h = cc

  pub new-listeners_of :
      (o : ServeOptions SocketAddr) (s : Server SocketAddr)
      → new net Credentials parse_addr crates o ≡ returned (ok s)
      → (Options.validate o ≡ ok tt) × (s.listeners ≡ listeners_of o)
  unfolding new
  new-listeners_of o s h =
      let (c, dynamic, read, made) =
        of_config-made
          (from_serve_options parse_addr crates {net = net} {Credentials = Credentials} o) s h in
      let (checked, (listeners, _, _)) =
        from_serve_options-Made parse_addr crates net Credentials o c dynamic read in
      (checked, ap (λ (x : Server SocketAddr). x.listeners) (sym made) ∙ listeners)

  -- A server that is made of options has the listeners and the limit of these options, which pass
  -- their checks, and `run` finds a first listener: it does not panic.
  pub new-Usable :
      (o : ServeOptions SocketAddr) (s : Server SocketAddr)
      → new net Credentials parse_addr crates o ≡ returned (ok s)
      → Usable s.listeners
        × (s.limiter ≡ RateLimit.new o.max_connections_per_ip)
        × (s.live ≡ [])
        × ((http_feature : Bool) (provider : IdentityProvider) (es : List Incoming)
              (drain : List Background)
            → run http_feature provider s es drain ≢ panicked)
  unfolding new run
  new-Usable o s h =
      let (c, dynamic, read, made) =
        of_config-made
          (from_serve_options parse_addr crates {net = net} {Credentials = Credentials} o) s h in
      let (usable, per_ip, _) =
        from_serve_options-Usable parse_addr crates net Credentials o c dynamic read in
      let listed = subst Usable (ap (λ (x : Server SocketAddr). x.listeners) made) usable in
      (
        listed,
        sym (ap (λ (x : Server SocketAddr). x.limiter) made) ∙ ap RateLimit.new per_ip,
        sym (ap (λ (x : Server SocketAddr). x.live) made),
        λ http_feature provider es drain.
            run_first-returns http_feature provider s.listeners s es drain listed.0,
      )
