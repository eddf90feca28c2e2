-- ===== src/Server/Accept/Shutdown.antt =====
-- How the accept loop ends, and which sessions the shutdown reaches.
use alknet.Prelude.{Text, Option}
use alknet.Prelude.{
  ℕ, zero, suc, Bool, true, false, ◌||◌, Bool-cases, List, [], ◌∷◌, ◌++◌, append_assoc, append-nil,
  if◌then◌else◌, ◌≡◌, inl, inr, refl, sym, ap, ◌∙◌, arith, any, returned,
}
use alknet.Auth.Identity.{IdentityProvider}
use alknet.Server.RateLimit.{ConnectionRateLimiter}
use alknet.Server.Listener.{StreamListenerConfig, ListenerConfig, stream}
use alknet.Server.Stealth.{Connection, Handled, session, failed, answered}
use alknet.Server.Tasks.{
  Live, Phase, handling, established, handle, after_handling, handle_one, handle_at,
}
use alknet.Server.Accept.{
  Server, Background, handled, ends, Incoming, arrives, accept_fails, meanwhile, signal,
  on_background, on_background_all, on_connection, on_incoming, accept_loop, shutdown, run,
  run_first, ending, serving, finished,
}

abbrev pub is_signal : Incoming → Bool
is_signal signal = true
is_signal _ = false

-- The session that the outcome of a connection is.
abbrev pub name_of : Handled → List ℕ
name_of (session name) = name ∷ []
name_of (failed e) = []
name_of (answered a) = []

one_pushed :
    (a : Live) (live : List Live) (l : ConnectionRateLimiter) (outcome : Handled)
    → (after_handling a live l outcome).0 ≡ name_of outcome
one_pushed a live l (session name) = refl
one_pushed a live l (failed e) = refl
one_pushed a live l (answered x) = refl

module _ (http_feature : Bool) (provider : IdentityProvider) (config : StreamListenerConfig) where
  -- The session that opens when the task of the connection at a place is done.
  abbrev pub opens_at : ℕ → List Live → List ℕ
  opens_at n [] = []
  opens_at zero (a ∷ live) = elim a.phase [
    | handling c ↦ name_of (handle http_feature provider config c)
    | established ↦ []
  ]
  opens_at (suc n) (a ∷ live) = opens_at n live

  handle_at-pushed :
      (n : ℕ) (live : List Live) (l : ConnectionRateLimiter)
      → (handle_at http_feature provider config n live l).0 ≡ opens_at n live
  handle_at-pushed n [] l = refl
  handle_at-pushed zero (a ∷ live) l = by_phase a.phase
    where
      by_phase :
          (phase : Phase)
          → (handle_one http_feature provider config a phase live l).0 ≡ elim phase [
            | handling c ↦ name_of (handle http_feature provider config c)
            | established ↦ []
          ]
      by_phase (handling c) = one_pushed a live l _
      by_phase established = refl
  handle_at-pushed (suc n) (a ∷ live) l = handle_at-pushed n live l

module _ {SocketAddr : Type 0} (http_feature : Bool) (provider : IdentityProvider)
    (config : StreamListenerConfig) where
  abbrev loop_of : Server SocketAddr → List Incoming → Server SocketAddr
  loop_of s es = accept_loop http_feature provider config s es

  abbrev tasks_of : Server SocketAddr → List Background → Server SocketAddr
  tasks_of s bs = on_background_all http_feature provider config s bs

  abbrev pub opens_by : Server SocketAddr → Background → List ℕ
  opens_by s (handled n) = opens_at http_feature provider config n s.live
  opens_by s (ends n) = []

  -- The sessions that open while the tasks go on, and while the accept loop runs.
  abbrev pub opened : Server SocketAddr → List Background → List ℕ
  opened s [] = []
  opened s (b ∷ bs) = opens_by s b ++ opened (on_background http_feature provider config s b) bs

  abbrev pub opens_in : Server SocketAddr → Incoming → List ℕ
  opens_in s (meanwhile b) = opens_by s b
  opens_in s _ = []

  abbrev pub opened_in : Server SocketAddr → List Incoming → List ℕ
  opened_in s [] = []
  opened_in s (e ∷ es) =
      let later = opened_in (on_incoming http_feature provider config s e) es in
      if s.is_shutdown then [] else opens_in s e ++ later

  sessions-on_background :
      (s : Server SocketAddr) (b : Background)
      → (on_background http_feature provider config s b).sessions ≡ s.sessions ++ opens_by s b
  unfolding on_background
  sessions-on_background s (handled n) =
      ap (λ p. s.sessions ++ p) (handle_at-pushed http_feature provider config n s.live s.limiter)
  sessions-on_background s (ends n) = sym (append-nil s.sessions)

  sessions-on_background_all :
      (s : Server SocketAddr) (bs : List Background)
      → (tasks_of s bs).sessions ≡ s.sessions ++ opened s bs
  unfolding on_background_all
  sessions-on_background_all s [] = sym (append-nil s.sessions)
  sessions-on_background_all s (b ∷ bs) =
      let next = on_background http_feature provider config s b in
      sessions-on_background_all next bs
      ∙ ap (λ p. p ++ opened next bs) (sessions-on_background s b)
      ∙ append_assoc s.sessions (opens_by s b) (opened next bs)

  flag-on_background :
      (s : Server SocketAddr) (b : Background)
      → (on_background http_feature provider config s b).is_shutdown ≡ s.is_shutdown
  unfolding on_background
  flag-on_background s (handled n) = refl
  flag-on_background s (ends n) = refl

  on_connection-kept :
      (s : Server SocketAddr) (remote : Option Text) (c : Connection)
      → let next = on_connection http_feature provider config s remote c in
        (next.is_shutdown ≡ s.is_shutdown) × (next.sessions ≡ s.sessions)
  unfolding on_connection
  on_connection-kept s remote c = kept _ _ _ (refl, refl) (refl, refl)
    where
      kept :
          (test : Bool) (x y : Server SocketAddr)
          → (x.is_shutdown ≡ s.is_shutdown) × (x.sessions ≡ s.sessions)
          → (y.is_shutdown ≡ s.is_shutdown) × (y.sessions ≡ s.sessions)
          → ((if test then x else y).is_shutdown ≡ s.is_shutdown)
            × ((if test then x else y).sessions ≡ s.sessions)
      kept true x y p q = p
      kept false x y p q = q

  on_incoming-flag :
      (s : Server SocketAddr) (e : Incoming)
      → (on_incoming http_feature provider config s e).is_shutdown ≡ (is_signal e || s.is_shutdown)
  unfolding on_incoming
  on_incoming-flag s (arrives remote c) = (on_connection-kept s remote c).0
  on_incoming-flag s (accept_fails e) = refl
  on_incoming-flag s (meanwhile b) = flag-on_background s b
  on_incoming-flag s signal = refl

  sessions-on_incoming :
      (s : Server SocketAddr) (e : Incoming)
      → (on_incoming http_feature provider config s e).sessions ≡ s.sessions ++ opens_in s e
  unfolding on_incoming
  sessions-on_incoming s (arrives remote c) =
      (on_connection-kept s remote c).1 ∙ sym (append-nil s.sessions)
  sessions-on_incoming s (accept_fails e) = sym (append-nil s.sessions)
  sessions-on_incoming s (meanwhile b) = sessions-on_background s b
  sessions-on_incoming s signal = sym (append-nil s.sessions)

  -- A server on which the signal was seen stops, and another goes on to the next event.
  stopped :
      (s : Server SocketAddr) (e : Incoming) (es : List Incoming)
      → s.is_shutdown ≡ true
      → (loop_of s (e ∷ es) ≡ s) × (opened_in s (e ∷ es) ≡ [])
  unfolding accept_loop
  stopped s e es h = (rw h refl, rw h refl)

  goes_on :
      (s : Server SocketAddr) (e : Incoming) (es : List Incoming)
      → s.is_shutdown ≡ false
      → let next = on_incoming http_feature provider config s e in
        (loop_of s (e ∷ es) ≡ loop_of next es)
        × (opened_in s (e ∷ es) ≡ opens_in s e ++ opened_in next es)
  unfolding accept_loop
  goes_on s e es h = (rw h refl, rw h refl)

  accept_loop-reaches :
      (s : Server SocketAddr) (es : List Incoming)
      → ((loop_of s es).is_shutdown ≡ (s.is_shutdown || any is_signal es))
        × ((loop_of s es).sessions ≡ s.sessions ++ opened_in s es)
  unfolding accept_loop
  accept_loop-reaches s [] = (ground arith, sym (append-nil s.sessions))
  accept_loop-reaches s (e ∷ es) =
      let next = on_incoming http_feature provider config s e in
      let (flag, noted) = accept_loop-reaches next es in
      elim (Bool-cases s.is_shutdown) [
        | inl h ↦
            let (same, none_more) = stopped s e es h in
            (
              ap (λ (x : Server SocketAddr). x.is_shutdown) same ∙ ground arith,
              ap (λ (x : Server SocketAddr). x.sessions) same
                  ∙ sym (append-nil s.sessions)
                  ∙ ap (λ p. s.sessions ++ p) (sym none_more),
            )
        | inr h ↦
            let (same, more) = goes_on s e es h in
            (
              ap (λ (x : Server SocketAddr). x.is_shutdown) same
                  ∙ flag
                  ∙ ground (arith, on_incoming-flag s e),
              ap (λ (x : Server SocketAddr). x.sessions) same
                  ∙ noted
                  ∙ ap (λ p. p ++ opened_in next es) (sessions-on_incoming s e)
                  ∙ append_assoc s.sessions (opens_in s e) (opened_in next es)
                  ∙ ap (λ p. s.sessions ++ p) (sym more),
            )
      ]

  -- A server with a stream listener and no session returns from `run` exactly where the accept loop
  -- meets the signal, and otherwise still serves. When it returns, it has sent a disconnect to the
  -- sessions that opened before, in order, also to those that had ended; it has aborted these and
  -- the ones that opened while the shutdown waited, to which it sent none; and it notes no session
  -- any more.
  pub run-finishes :
      (s : Server SocketAddr) (rest : List (ListenerConfig SocketAddr)) (es : List Incoming)
      (drain : List Background)
      → s.listeners ≡ stream config ∷ rest
      → s.is_shutdown ≡ false
      → s.sessions ≡ []
      → let reached = loop_of s es in
        let waiting : Server SocketAddr = record reached { is_shutdown = true } in
        (any is_signal es ≡ true
          → run http_feature provider s es drain
            ≡ returned (
                finished
                  (opened_in s es)
                  (opened_in s es ++ opened waiting drain)
                  (record (tasks_of waiting drain) { sessions = [] })))
        × (any is_signal es ≡ false
            → run http_feature provider s es drain ≡ returned (serving reached))
  unfolding run shutdown
  run-finishes s rest es drain first open_still none_noted =
      let reached = loop_of s es in
      let waiting : Server SocketAddr = record reached { is_shutdown = true } in
      let runs = ap (λ ls. run_first http_feature provider ls s es drain) first in
      let (flag, noted) = accept_loop-reaches s es in
      let names = noted ∙ ap (λ p. p ++ opened_in s es) none_noted in
      let all =
        sessions-on_background_all waiting drain ∙ ap (λ p. p ++ opened waiting drain) names in
      let outcome : (b : Bool)
          → any is_signal es ≡ b
          → run http_feature provider s es drain
            ≡ returned (ending http_feature provider config b reached drain) =
        λ b found.
          runs
          ∙ ap (λ f. returned (ending http_feature provider config f reached drain))
              (ground arith) in
      (
        λ found.
            outcome true found
            ∙ ap
                (λ d. returned (
                  finished d (tasks_of waiting drain).sessions
                    (record (tasks_of waiting drain) { sessions = [] })))
                names
            ∙ ap
                (λ d.
                  returned (
                    finished (opened_in s es) d
                      (record (tasks_of waiting drain) { sessions = [] })))
                all,
        outcome false,
      )
