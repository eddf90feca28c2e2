-- ===== src/Server/Accept/Reach.antt =====
-- The accept loop only ever opens and closes connections as the limiter counts them.
use alknet.Prelude.{
  ℕ, zero, suc, ◌+◌, ◌⊎◌, inl, inr, map, not, arith, ◌<◌, ◌≤◌, Bool, true, false, Option, List, [],
  ◌∷◌, Text, if◌then◌else◌, ◌≡◌, refl, sym, ap, subst, ◌∙◌,
}
use alknet.Auth.Identity.{IdentityProvider}
use alknet.Server.Handler
use alknet.Server.Handler.{ServerHandler, drop_handler}
use alknet.Server.Handler.Admission
use alknet.Server.Handler.Admission.{
  World, Event, opens, closes, step, close_at, start, is_at, connections, connections-run-le,
}
use alknet.Server.Listener.{StreamListenerConfig}
use alknet.Server.RateLimit
use alknet.Server.RateLimit.{ConnectionRateLimiter}
use alknet.Server.Stealth.{Connection, Handled, session, failed, answered}
use alknet.Server.Tasks.{
  Live, Phase, handling, established, after_handling, handle_one, handle_at, end_one, end_at,
}
use alknet.Server.Accept.{
  Server, handled, ends, Incoming, arrives, accept_fails, meanwhile, signal, on_background,
  on_connection, on_incoming, accept_loop,
}

-- One world is reached from another by connections that open and close.
pub data Reaches : World → World → Type 0 where
  here : {w : World} → Reaches w w
  after : {w u : World} (e : Event) → Reaches (step w e) u → Reaches w u

then_reaches : {w u v : World} → Reaches w u → Reaches u v → Reaches w v
then_reaches here r = r
then_reaches (after e q) r = after e (then_reaches q r)

run-of-Reaches : {w u : World} → Reaches w u → (es : List Event) × (u ≡ Admission.run w es)
run-of-Reaches here = ([], refl)
run-of-Reaches (after e r) = let (es, same) = run-of-Reaches r in (e ∷ es, same)

abbrev pub handlers : List Live → List ServerHandler
handlers live = map (λ (a : Live). a.handler) live

-- The handlers after something at a place: those before, or without the one there.
abbrev Closes : ℕ → List Live → ConnectionRateLimiter → List Live × ConnectionRateLimiter → Type 0
Closes n live l (live', l') =
    (◌≡◌ {A = List ServerHandler × ConnectionRateLimiter} (handlers live', l') (handlers live, l))
    ⊎ ((handlers live', l') ≡ close_at n (handlers live) l)

Closes-later :
    (a : Live) (n : ℕ) (live : List Live) (l : ConnectionRateLimiter)
    (next : List Live × ConnectionRateLimiter)
    → Closes n live l next
    → Closes (suc n) (a ∷ live) l (a ∷ next.0, next.1)
Closes-later a n live l next (inl same) =
    inl (ap (λ (p : List ServerHandler × ConnectionRateLimiter). (a.handler ∷ p.0, p.1)) same)
Closes-later a n live l next (inr same) =
    inr (ap (λ (p : List ServerHandler × ConnectionRateLimiter). (a.handler ∷ p.0, p.1)) same)

end_at-Closes :
    (n : ℕ) (live : List Live) (l : ConnectionRateLimiter) → Closes n live l (end_at n live l)
end_at-Closes n [] l = inl refl
end_at-Closes zero (a ∷ live) l = by_phase a.phase
  where
    by_phase : (phase : Phase) → Closes zero (a ∷ live) l (end_one a phase live l)
    by_phase (handling c) = inl refl
    by_phase established = inr refl
end_at-Closes (suc n) (a ∷ live) l =
    Closes-later a n live l (end_at n live l) (end_at-Closes n live l)

after_handling-Closes :
    (a : Live) (live : List Live) (l : ConnectionRateLimiter) (outcome : Handled)
    → Closes zero (a ∷ live) l (after_handling a live l outcome).1
after_handling-Closes a live l (session name) = inl refl
after_handling-Closes a live l (failed e) = inr refl
after_handling-Closes a live l (answered x) = inr refl

abbrev world_of : List Live × ConnectionRateLimiter → World
world_of (live, l) = record { limiter = l; live = handlers live }

Closes-Reaches :
    (n : ℕ) (live : List Live) (l : ConnectionRateLimiter)
    (next : List Live × ConnectionRateLimiter)
    → Closes n live l next
    → Reaches (world_of (live, l)) (world_of next)
Closes-Reaches n live l next (inl same) =
    subst
      (λ (p : List ServerHandler × ConnectionRateLimiter).
        Reaches (world_of (live, l)) (record { limiter = p.1; live = p.0 }))
      (sym same) here
Closes-Reaches n live l next (inr same) =
    subst
      (λ (p : List ServerHandler × ConnectionRateLimiter).
        Reaches (world_of (live, l)) (record { limiter = p.1; live = p.0 }))
      (sym same) (after (closes n) here)

-- The live connections from an address, whether or not they were let in.
abbrev pub served : Text → List Live → ℕ
served ip [] = 0
served ip (a ∷ live) = (if is_at ip a.handler.remote_ip then 1 else 0) + served ip live

abbrev AllLetIn : List Live → Type 0
AllLetIn [] = Unit
AllLetIn (a ∷ live) = (a.handler.connection_allowed ≡ true) × AllLetIn live

served-connections :
    (ip : Text) (live : List Live) → AllLetIn live → served ip live ≡ connections ip (handlers live)
served-connections ip [] let_in = refl
served-connections ip (a ∷ live) (one, rest) =
    let more = served-connections ip live rest in ground arith

end_at-AllLetIn :
    (n : ℕ) (live : List Live) (l : ConnectionRateLimiter)
    → AllLetIn live
    → AllLetIn (end_at n live l).0
end_at-AllLetIn n [] l let_in = tt
end_at-AllLetIn zero (a ∷ live) l (one, rest) = by_phase a.phase
  where
    by_phase : (phase : Phase) → AllLetIn (end_one a phase live l).0
    by_phase (handling c) = (one, rest)
    by_phase established = rest
end_at-AllLetIn (suc n) (a ∷ live) l (one, rest) = (one, end_at-AllLetIn n live l rest)

after_handling-AllLetIn :
    (a : Live) (live : List Live) (l : ConnectionRateLimiter) (outcome : Handled)
    → AllLetIn (a ∷ live)
    → AllLetIn (after_handling a live l outcome).1.0
after_handling-AllLetIn a live l (session name) let_in = let_in
after_handling-AllLetIn a live l (failed e) (one, rest) = rest
after_handling-AllLetIn a live l (answered x) (one, rest) = rest

module _ (http_feature : Bool) (provider : IdentityProvider) (config : StreamListenerConfig) where
  handle_at-Closes :
      (n : ℕ) (live : List Live) (l : ConnectionRateLimiter)
      → Closes n live l (handle_at http_feature provider config n live l).1
  handle_at-Closes n [] l = inl refl
  handle_at-Closes zero (a ∷ live) l = by_phase a.phase
    where
      by_phase :
          (phase : Phase)
          → Closes zero (a ∷ live) l (handle_one http_feature provider config a phase live l).1
      by_phase (handling c) = after_handling-Closes a live l _
      by_phase established = inl refl
  handle_at-Closes (suc n) (a ∷ live) l =
      Closes-later a n live l (handle_at http_feature provider config n live l).1
        (handle_at-Closes n live l)

  handle_at-AllLetIn :
      (n : ℕ) (live : List Live) (l : ConnectionRateLimiter)
      → AllLetIn live
      → AllLetIn (handle_at http_feature provider config n live l).1.0
  handle_at-AllLetIn n [] l let_in = tt
  handle_at-AllLetIn zero (a ∷ live) l let_in = by_phase a.phase
    where
      by_phase :
          (phase : Phase) → AllLetIn (handle_one http_feature provider config a phase live l).1.0
      by_phase (handling c) = after_handling-AllLetIn a live l _ let_in
      by_phase established = let_in
  handle_at-AllLetIn (suc n) (a ∷ live) l (one, rest) = (one, handle_at-AllLetIn n live l rest)

module _ {SocketAddr : Type 0} (http_feature : Bool) (provider : IdentityProvider)
    (config : StreamListenerConfig) where
  abbrev world : Server SocketAddr → World
  world s = world_of (s.live, s.limiter)

  -- What one event does: the world is reached, and only who was let in is served.
  abbrev Goes : Server SocketAddr → Server SocketAddr → Type 0
  Goes s next = Reaches (world s) (world next) × (AllLetIn s.live → AllLetIn next.live)

  on_connection-Goes :
      (s : Server SocketAddr) (remote : Option Text) (c : Connection)
      → Goes s (on_connection http_feature provider config s remote c)
  unfolding on_connection
  on_connection-Goes s remote c =
      let (h, l) = Handler.new s.limiter remote config.transport_kind s.max_auth_attempts in
      by_allowed h.connection_allowed refl
    where
      by_allowed :
          (allowed : Bool)
          → (Handler.new s.limiter remote config.transport_kind
              s.max_auth_attempts).0.connection_allowed
            ≡ allowed
          → let (h, l) = Handler.new s.limiter remote config.transport_kind s.max_auth_attempts in
            Goes s (
              if not allowed then record s { limiter = drop_handler h l } else record s {
                limiter = l;
                live = record { handler = h; phase = handling c } ∷ s.live;
              })
      by_allowed true found = (
        after (opens remote config.transport_kind s.max_auth_attempts) here,
        λ let_in. (found, let_in),
      )
      by_allowed false found = (
        after (opens remote config.transport_kind s.max_auth_attempts) (after (closes zero) here),
        λ let_in. let_in,
      )

  on_incoming-Goes :
      (s : Server SocketAddr) (e : Incoming) → Goes s (on_incoming http_feature provider config s e)
  unfolding on_incoming on_background
  on_incoming-Goes s (arrives remote c) = on_connection-Goes s remote c
  on_incoming-Goes s (accept_fails e) = (here, λ let_in. let_in)
  on_incoming-Goes s (meanwhile (handled n)) = (
    Closes-Reaches n s.live s.limiter _
        (handle_at-Closes http_feature provider config n s.live s.limiter),
    handle_at-AllLetIn http_feature provider config n s.live s.limiter,
  )
  on_incoming-Goes s (meanwhile (ends n)) = (
    Closes-Reaches n s.live s.limiter _ (end_at-Closes n s.live s.limiter),
    end_at-AllLetIn n s.live s.limiter,
  )
  on_incoming-Goes s signal = (here, λ let_in. let_in)

  if_Goes :
      (test : Bool) (s x y : Server SocketAddr)
      → Goes s x
      → Goes s y
      → Goes s (if test then x else y)
  if_Goes true s x y p q = p
  if_Goes false s x y p q = q

  accept_loop-Goes :
      (s : Server SocketAddr) (es : List Incoming)
      → Goes s (accept_loop http_feature provider config s es)
  unfolding accept_loop
  accept_loop-Goes s [] = (here, λ let_in. let_in)
  accept_loop-Goes s (e ∷ es) =
      let next = on_incoming http_feature provider config s e in
      let (first, kept) = on_incoming-Goes s e in
      let (rest, still) = accept_loop-Goes next es in
      if_Goes s.is_shutdown s s _ (here, λ let_in. let_in)
        (then_reaches first rest, λ let_in. still (kept let_in))

  -- Whatever the accept loop of a fresh server meets, no connection that the limiter refused is ever
  -- served, and an address never has more live connections than the limit, those that are still
  -- being handled among them, where the limit is not zero.
  pub served-accept_loop-le :
      (s : Server SocketAddr) (limit : ℕ) (es : List Incoming) (ip : Text)
      → s.limiter ≡ RateLimit.new limit
      → s.live ≡ []
      → 0 < limit
      → let reached = accept_loop http_feature provider config s es in
        (served ip reached.live ≡ connections ip (handlers reached.live))
        × (served ip reached.live ≤ limit)
  served-accept_loop-le s limit es ip fresh none_live z =
      let reached = accept_loop http_feature provider config s es in
      let (reaches, kept) = accept_loop-Goes s es in
      let (events, same) = run-of-Reaches reaches in
      let counted = served-connections ip reached.live (kept (subst AllLetIn (sym none_live) tt)) in
      let begun : world s ≡ start limit =
        ap (λ live. world_of (live, s.limiter)) none_live ∙ ap (λ l. world_of ([], l)) fresh in
      (
        counted,
        subst (λ n. n ≤ limit) (sym counted)
            (subst (λ (w : World). connections ip w.live ≤ limit)
              (sym (same ∙ ap (λ w. Admission.run w events) begun))
              (connections-run-le limit events ip z)),
      )
