-- ===== src/Client/Manager/Recovery.antt =====
-- The monitor brings the session back.
use mathlib.Core.List.{Permᴰ}
use alknet.Prelude.{
  ℕ, zero, suc, ◌+◌, ◌*◌, ◌^◌, ◌%◌, ◌≤◌, Bool, true, false, if◌then◌else◌, List, [], ◌∷◌, ◌++◌, ok,
  err, length, ◌≡◌, refl, ap, sym, subst, ◌∙◌, arith,
}
use alknet.Client.Ssh.{SshClient, Attempt}
use alknet.Client.Manager.{
  Manager, ForwardRequest, Order, RusshError, backoff_duration, establish_session,
  re_register_forwards, reconnected, reconnect, turn, turns,
}

backoff_duration-bounds : (n : ℕ) → (1 ≤ backoff_duration n) × (backoff_duration n ≤ 30)
unfolding backoff_duration
backoff_duration-bounds n = (ground arith, ground arith)

-- The seconds slept in turns that start with this count of attempts and all fail but the last.
abbrev pub slept : ℕ → ℕ → ℕ
slept n zero = 1 + backoff_duration n
slept n (suc failures) = 1 + backoff_duration n + slept ((n + 1) % 2 ^ 32) failures

slept-le : (n failures : ℕ) → slept n failures ≤ 31 * (failures + 1)
slept-le n zero = omega (arith, backoff_duration-bounds n)
slept-le n (suc failures) =
    omega (arith, backoff_duration-bounds n, slept-le ((n + 1) % 2 ^ 32) failures)

-- The iterator of a set yields each member once.
abbrev pub Enumerates : Order → Type 0
Enumerates order = (fs : List ForwardRequest) → Permᴰ (order fs) fs

-- One handle comes of another by asking for each of these forwards in turn.
pub data Registers (ssh : SshClient) : ssh.Handle → List ForwardRequest → ssh.Handle → Type 0 where
  done : {h : ssh.Handle} → Registers ssh h [] h
  asks :
      {h k : ssh.Handle} {f : ForwardRequest} {fs : List ForwardRequest}
      → Registers ssh (ssh.tcpip_forward h f.addr f.port).1 fs k
      → Registers ssh h (f ∷ fs) k

module _ {ssh : SshClient} where
  abbrev pub Fails : Attempt ssh → Type 0
  Fails a = (e : RusshError) × (establish_session a ≡ err e)

  abbrev pub AllFail : List (Attempt ssh) → Type 0
  AllFail [] = Unit
  AllFail (a ∷ attempts) = Fails a × AllFail attempts

  re_register_forwards-Registers :
      (h : ssh.Handle) (fs : List ForwardRequest)
      → Registers ssh h fs (re_register_forwards ssh h fs)
  unfolding re_register_forwards
  re_register_forwards-Registers h [] = done
  re_register_forwards-Registers h (f ∷ fs) =
      asks (re_register_forwards-Registers (ssh.tcpip_forward h f.addr f.port).1 fs)

  abbrev waited : Manager ssh → Manager ssh
  waited m = record m {
    reconnect_attempts = (m.reconnect_attempts + 1) % 2 ^ 32;
    clock = m.clock + 1 + backoff_duration m.reconnect_attempts;
  }

  turn-closed :
      (order : Order) (m : Manager ssh) (a : Attempt ssh)
      → ssh.is_closed m.handle ≡ true
      → turn order m a ≡ reconnected order (waited m) (establish_session a)
  unfolding turn reconnect
  turn-closed order m a closed = if_then (ssh.is_closed m.handle) _ _ closed
    where
      if_then : (b : Bool) (x y : Manager ssh) → b ≡ true → (if b then x else y) ≡ x
      if_then true x y h = refl
      if_then false x y h = cc

  module _ (order : Order) (a : Attempt ssh) (new_handle : ssh.Handle)
      (success : establish_session a ≡ ok new_handle) where
    abbrev recovered_at : Manager ssh → ℕ → Manager ssh
    recovered_at m clock = record {
      handle = re_register_forwards ssh new_handle (order m.forwards);
      forwards = m.forwards;
      reconnect_attempts = 0;
      clock = clock;
    }

    turns-recovered_at :
        (failures : List (Attempt ssh)) (m : Manager ssh)
        → ssh.is_closed m.handle ≡ true
        → AllFail failures
        → turns order m (failures ++ a ∷ [])
          ≡ recovered_at m (m.clock + slept m.reconnect_attempts (length failures))
    unfolding turns
    turns-recovered_at [] m closed fail =
        turn-closed order m a closed
        ∙ ap (reconnected order (waited m)) success
        ∙ ap (recovered_at m) (omega arith)
    turns-recovered_at (f ∷ failures) m closed ((e, failed), fail) =
        ap (λ m. turns order m (failures ++ a ∷ []))
          (turn-closed order m f closed ∙ ap (reconnected order (waited m)) failed)
        ∙ turns-recovered_at failures (waited m) closed fail
        ∙ ap (recovered_at m) (omega arith)

  -- Where the session is closed, attempts that all fail are followed by one that succeeds: after as
  -- many turns the manager has the handle that comes of the new one by asking the server for each of
  -- its forwards, once each and in some order; it keeps the forwards and counts from zero, and it has
  -- slept one second and the backoff for each turn, at most 31 seconds a turn.
  pub turns-recover :
      (order : Order) (failures : List (Attempt ssh)) (m : Manager ssh) (a : Attempt ssh)
      (new_handle : ssh.Handle)
      → Enumerates order
      → ssh.is_closed m.handle ≡ true
      → AllFail failures
      → establish_session a ≡ ok new_handle
      → let after = turns order m (failures ++ a ∷ []) in
        ((asked : List ForwardRequest) × Permᴰ asked m.forwards
          × Registers ssh new_handle asked after.handle)
        × (after.forwards ≡ m.forwards)
        × (after.reconnect_attempts ≡ 0)
        × (after.clock ≡ m.clock + slept m.reconnect_attempts (length failures))
        × (slept m.reconnect_attempts (length failures) ≤ 31 * (length failures + 1))
  turns-recover order failures m a new_handle each closed fail success =
      let reached = turns-recovered_at order a new_handle success failures m closed fail in
      (
        (
          order m.forwards,
          each m.forwards,
          subst (Registers ssh new_handle (order m.forwards))
              (sym (ap (λ (x : Manager ssh). x.handle) reached))
              (re_register_forwards-Registers new_handle (order m.forwards)),
        ),
        ap (λ (x : Manager ssh). x.forwards) reached,
        ap (λ (x : Manager ssh). x.reconnect_attempts) reached,
        ap (λ (x : Manager ssh). x.clock) reached,
        slept-le m.reconnect_attempts (length failures),
      )
