-- ===== src/Server/Tasks.antt =====
-- The live connections of crates/alknet-core/src/server/serve.rs and their tasks: `handle_connection`
-- in a task of its own, and the SSH session that it leaves.
use alknet.Prelude.{ℕ, zero, suc, Bool, List, [], ◌∷◌}
use alknet.Auth.Identity.{IdentityProvider}
use alknet.Server.RateLimit.{ConnectionRateLimiter}
use alknet.Server.Handler
use alknet.Server.Handler.{drop_handler}
use alknet.Server.Listener.{StreamListenerConfig, is_tls}
use alknet.Server.Stealth.{Connection, Handled, session, handle_connection}

-- How far a connection is: its task is in `handle_connection`, or an SSH session runs on it.
pub data Phase : Type 0 where
  handling : Connection → Phase
  established : Phase

-- A live connection. Its handler is dropped with it.
pub record Live : Type 0 where
  pub handler : Handler.ServerHandler
  pub phase : Phase

-- What a connection that was handled leaves: an SSH session, which is pushed and has the handler,
-- or nothing, and the handler is dropped.
abbrev pub after_handling :
    Live
    → List Live
    → ConnectionRateLimiter
    → Handled
    → List ℕ × (List Live × ConnectionRateLimiter)
after_handling a live l (session name) = (name ∷ [], (record a { phase = established } ∷ live, l))
after_handling a live l outcome = ([], (live, drop_handler a.handler l))

abbrev pub end_one :
    Live → Phase → List Live → ConnectionRateLimiter → List Live × ConnectionRateLimiter
end_one a (handling c) live l = (a ∷ live, l)
end_one a established live l = (live, drop_handler a.handler l)

-- The end of the session that runs at a place: it stays noted.
abbrev pub end_at : ℕ → List Live → ConnectionRateLimiter → List Live × ConnectionRateLimiter
end_at n [] l = ([], l)
end_at zero (a ∷ live) l = end_one a a.phase live l
end_at (suc n) (a ∷ live) l = let (live', l') = end_at n live l in (a ∷ live', l')

module _ (http_feature : Bool) (provider : IdentityProvider) (config : StreamListenerConfig) where
  -- `handle_connection` with the listener's settings.
  unfoldable pub handle : Connection → Handled
  handle c = handle_connection http_feature provider config.stealth (is_tls config.transport_kind) c

  -- Only a connection that is being handled can be done with it.
  abbrev pub handle_one :
      Live
      → Phase
      → List Live
      → ConnectionRateLimiter
      → List ℕ × (List Live × ConnectionRateLimiter)
  handle_one a (handling c) live l = after_handling a live l (handle c)
  handle_one a established live l = ([], (a ∷ live, l))

  -- The end of `handle_connection` for the connection at a place, with the session that it pushes.
  abbrev pub handle_at :
      ℕ → List Live → ConnectionRateLimiter → List ℕ × (List Live × ConnectionRateLimiter)
  handle_at n [] l = ([], ([], l))
  handle_at zero (a ∷ live) l = handle_one a a.phase live l
  handle_at (suc n) (a ∷ live) l =
      let (pushed, (live', l')) = handle_at n live l in (pushed, (a ∷ live', l'))
