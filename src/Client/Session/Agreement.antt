-- ===== src/Client/Session/Agreement.antt =====
-- The reconnect monitors of `ClientSession` and of `ChannelManager` do the same.
use alknet.Prelude.{
  ℕ, ◌+◌, ◌%◌, ◌^◌, Bool, true, false, not, if◌then◌else◌, List, [], ◌∷◌, map, Text, Result, ok,
  err, ◌>>=◌, map_err, map_err-ok, >>=-eq-ok, ok_injective, split_on, subst, refuse_if_iff, ◌≡◌,
  refl, sym, ap, ◌∙◌,
}
use alknet.Client.Forward.{
  PortForwardSpec, PortForwardSpecKind, remote_kind, of_parts, port_of, parse_spec,
}
use alknet.Client.Ssh.{SshClient, Attempt}
use alknet.Client.Manager
use alknet.Client.Manager.{
  ForwardRequest, Order, insert, RusshError, send_error, other_error, re_register_forwards,
  reconnected, backoff_duration, reconnect, turn,
}
use alknet.Client.Session
use alknet.Client.Session.{
  ConnectError, connection_failed, Monitor, build_remote_specs, register, is_remote, register_all,
  remote_forwarder, after_attempt, monitor_turn, auth_outcome,
}

abbrev pub AllRemote : List PortForwardSpec → Type 0
AllRemote [] = Unit
AllRemote (s ∷ specs) = (s.kind ≡ remote_kind) × AllRemote specs

-- What the registration of a specification asks for.
abbrev pub request_of : PortForwardSpec → ForwardRequest
request_of s = record { addr = s.bind_addr; port = s.bind_port }

-- The set of forwards after a request for each specification. Two that ask for the same are one
-- member, which the manager asks for once, and the session twice.
abbrev pub noted : List PortForwardSpec → List ForwardRequest
noted [] = []
noted (s ∷ specs) = insert (request_of s) (noted specs)

remote_forwarder-ok : (s : PortForwardSpec) → s.kind ≡ remote_kind → remote_forwarder s ≡ ok s
unfolding remote_forwarder
remote_forwarder-ok s h = (refuse_if_iff _ _ (ok s) s).1 (ap (λ k. not (is_remote k)) h, refl)

register_all-eq :
    (ssh : SshClient) (specs : List PortForwardSpec) (handle : ssh.Handle)
    → AllRemote specs
    → register_all ssh specs handle ≡ re_register_forwards ssh handle (map request_of specs)
unfolding register_all re_register_forwards remote_forwarder
register_all-eq ssh [] handle remote = refl
register_all-eq ssh (s ∷ specs) handle (kind, remote) =
    ap (λ r. register_all ssh specs (register ssh r handle)) (remote_forwarder-ok s kind)
    ∙ register_all-eq ssh specs _ remote

-- Both ways to establish a session come to the same handle, or both fail.
abbrev SameOutcome :
    {Handle : Type 0} → Result Handle ConnectError → Result Handle RusshError → Type 0
SameOutcome (ok h) (ok k) = h ≡ k
SameOutcome (ok h) (err e) = ⊥
SameOutcome (err e) (ok k) = ⊥
SameOutcome (err e) (err f) = Unit

authenticated-same :
    {Handle : Type 0} (outcome : Result Bool Text × Handle)
    → SameOutcome (auth_outcome outcome) (Manager.authenticated outcome)
authenticated-same (err e, handle) = tt
authenticated-same (ok false, handle) = tt
authenticated-same (ok true, handle) = refl

backoff_duration-same : (n : ℕ) → Session.backoff_duration n ≡ backoff_duration n
unfolding Session.backoff_duration backoff_duration
backoff_duration-same n = refl

module _ {ssh : SshClient} where
  connected-same :
      (a : Attempt ssh) (handle : Result ssh.Handle Text)
      → SameOutcome
          (map_err (λ _. connection_failed) handle >>= λ h. auth_outcome (a.authenticate h))
          (map_err other_error handle >>= λ h. Manager.authenticated (a.authenticate h))
  connected-same a (err e) = tt
  connected-same a (ok h) = authenticated-same (a.authenticate h)

  establish_session-same :
      (a : Attempt ssh) → SameOutcome (Session.establish_session a) (Manager.establish_session a)
  unfolding Session.establish_session Manager.establish_session
  establish_session-same a = streamed a.connect
    where
      streamed :
          (stream : Result ssh.Stream Text)
          → SameOutcome
              (do
                stream ← map_err (λ _. connection_failed) stream
                handle ← map_err (λ _. connection_failed) (a.connect_stream stream)
                auth_outcome (a.authenticate handle))
              (do
                stream ← map_err (λ _. send_error) stream
                handle ← map_err other_error (a.connect_stream stream)
                Manager.authenticated (a.authenticate handle))
      streamed (err e) = tt
      streamed (ok stream) = connected-same a (a.connect_stream stream)

  abbrev pub managed : List PortForwardSpec → Monitor ssh → Manager.Manager ssh
  managed specs m = record {
    handle = m.handle;
    forwards = noted specs;
    reconnect_attempts = m.attempts;
    clock = m.clock;
  }

  after-same :
      (order : Order) (specs : List PortForwardSpec) (m : Monitor ssh) (seconds : ℕ)
      (here : Result ssh.Handle ConnectError) (there : Result ssh.Handle RusshError)
      → AllRemote specs
      → order (noted specs) ≡ map request_of specs
      → SameOutcome here there
      → managed specs (after_attempt specs (record m { clock = seconds }) here)
        ≡ reconnected order
            (record (managed specs m) {
              reconnect_attempts = (m.attempts + 1) % 2 ^ 32;
              clock = seconds;
            })
            there
  after-same order specs m seconds (ok h) (ok k) remote in_order same =
      ap (λ handle. managed specs (record { handle = handle; attempts = 0; clock = seconds }))
        (register_all-eq ssh specs h remote
          ∙ ap (λ x. re_register_forwards ssh x (map request_of specs)) same
          ∙ ap (re_register_forwards ssh k) (sym in_order))
  after-same order specs m seconds (ok h) (err e) remote in_order same = absurd same
  after-same order specs m seconds (err e) (ok k) remote in_order same = absurd same
  after-same order specs m seconds (err e) (err f) remote in_order same = refl

  monitor_turn-managed :
      (order : Order) (specs : List PortForwardSpec) (m : Monitor ssh) (a : Attempt ssh)
      → AllRemote specs
      → order (noted specs) ≡ map request_of specs
      → managed specs (monitor_turn specs m a) ≡ turn order (managed specs m) a
  unfolding monitor_turn turn reconnect
  monitor_turn-managed order specs m a remote in_order =
      both (ssh.is_closed m.handle) _ _ _ _
        (after-same order specs m (m.clock + 1 + Session.backoff_duration m.attempts) _ _ remote
            in_order (establish_session-same a)
          ∙ ap
              (λ wait.
                reconnected order
                  (record (managed specs m) {
                    reconnect_attempts = (m.attempts + 1) % 2 ^ 32;
                    clock = m.clock + 1 + wait;
                  })
                  (Manager.establish_session a))
              (backoff_duration-same m.attempts))
        refl
    where
      both :
          (test : Bool) (x y : Monitor ssh) (u v : Manager.Manager ssh)
          → managed specs x ≡ u
          → managed specs y ≡ v
          → managed specs (if test then x else y) ≡ (if test then u else v)
      both true x y u v p q = p
      both false x y u v p q = q

of_parts-kind :
    (kind : PortForwardSpecKind) (spec : Text) (parts : List Text) (s : PortForwardSpec)
    → of_parts kind spec parts ≡ ok s
    → s.kind ≡ kind
unfolding of_parts
of_parts-kind kind spec (bind_addr ∷ bind ∷ host ∷ target ∷ []) s h =
    let (bind_port, _, next) = >>=-eq-ok (port_of spec bind) _ h in
    let (target_port, _, last) = >>=-eq-ok (port_of spec target) _ next in
    sym (ap (λ (x : PortForwardSpec). x.kind) (ok_injective last))
of_parts-kind kind spec [] s h = cc
of_parts-kind kind spec (a ∷ []) s h = cc
of_parts-kind kind spec (a ∷ b ∷ []) s h = cc
of_parts-kind kind spec (a ∷ b ∷ c ∷ []) s h = cc
of_parts-kind kind spec (a ∷ b ∷ c ∷ d ∷ e ∷ parts) s h = cc

build_remote_specs-AllRemote :
    (texts : List Text) (specs : List PortForwardSpec)
    → build_remote_specs texts ≡ ok specs
    → AllRemote specs
unfolding build_remote_specs parse_spec
build_remote_specs-AllRemote [] specs h = subst AllRemote (ok_injective h) tt
build_remote_specs-AllRemote (t ∷ texts) specs h =
    let (s, parsed, next) = >>=-eq-ok (map_err _ (parse_spec remote_kind t)) _ h in
    let (rest, others, last) = >>=-eq-ok (build_remote_specs texts) _ next in
    subst AllRemote (ok_injective last) (
      of_parts-kind remote_kind t (split_on b':' t) s (map_err-ok _ _ s parsed),
      build_remote_specs-AllRemote texts rest others,
    )

-- A turn of the session's monitor and a turn of the manager's leave the same handle, count and
-- clock, where the manager's set of forwards has what the remote specifications ask for that the
-- session made of its options, and the set's iterator yields them in the order of the
-- specifications.
pub monitor_turn-agrees :
    {ssh : SshClient} (order : Order) (texts : List Text) (specs : List PortForwardSpec)
    (m : Monitor ssh) (a : Attempt ssh)
    → build_remote_specs texts ≡ ok specs
    → order (noted specs) ≡ map request_of specs
    → managed specs (monitor_turn specs m a) ≡ turn order (managed specs m) a
monitor_turn-agrees order texts specs m a built in_order =
    monitor_turn-managed order specs m a (build_remote_specs-AllRemote texts specs built) in_order
