-- ===== src/Client/Manager.antt =====
-- `ChannelManager` of crates/alknet-core/src/client/channel_manager.rs: a handle, the forwards that
-- were asked for, and the monitor that reconnects. The clock counts the seconds slept.
pub mod Recovery
pub mod Forwards
use alknet.Prelude.{
  ℕ, zero, suc, ◌+◌, ◌%◌, ◌^◌, Bool, true, false, not, ◌&&◌, Option, none, some, List, [], ◌∷◌,
  Text, text, text_eq, if◌then◌else◌, ◌==◌, Result, ok, err, ◌>>=◌, ◌>>◌, map_err, refuse_if,
}
use alknet.Error.{ChannelError, target_unreachable, channel_closed}
use alknet.Client.Ssh.{SshClient, Attempt}

pub record ForwardRequest : Type 0 where
  pub addr : Text
  pub port : ℕ

-- The derived `PartialEq`.
abbrev pub request_eq : ForwardRequest → ForwardRequest → Bool
request_eq a b = text_eq a.addr b.addr && a.port == b.port

-- The operations of the `HashSet`, as a list in which none stands twice.
unfoldable pub member : ForwardRequest → List ForwardRequest → Bool
member f [] = false
member f (g ∷ fs) = if request_eq f g then true else member f fs

unfoldable pub insert : ForwardRequest → List ForwardRequest → List ForwardRequest
unfolding member
insert f fs = if member f fs then fs else f ∷ fs

unfoldable pub remove : ForwardRequest → List ForwardRequest → List ForwardRequest
remove f [] = []
remove f (g ∷ fs) = let rest = remove f fs in if request_eq f g then rest else g ∷ rest

-- In which order the iterator of a set yields its members, which is unspecified.
abbrev pub Order : Type 0
Order = List ForwardRequest → List ForwardRequest

-- 1s, 2s, 4s, 8s, 16s, and then 30s.
unfoldable pub backoff_duration : ℕ → ℕ
backoff_duration attempt =
    if attempt == 0
    then 1
    else if attempt == 1
    then 2
    else if attempt == 2
    then 4
    else if attempt == 3
    then 8
    else if attempt == 4
    then 16
    else 30

pub data RusshError : Type 0 where
  send_error : RusshError
  other_error : Text → RusshError

-- The state that the manager shares with its monitor.
pub record Manager (ssh : SshClient) : Type 0 where
  pub handle : ssh.Handle
  pub forwards : List ForwardRequest
  pub reconnect_attempts : ℕ
  pub clock : ℕ

abbrev pub authenticated : {Handle : Type 0} → Result Bool Text × Handle → Result Handle RusshError
authenticated (err e, handle) = err (other_error e)
authenticated (ok false, handle) = err send_error
authenticated (ok true, handle) = ok handle

abbrev opened : Result ℕ Text → Result ℕ ChannelError
opened = map_err (λ _. channel_closed)

-- `re_register_forwards`, on the forwards as the set yields them: a forward that the server refuses
-- is only warned about.
unfoldable pub re_register_forwards :
    (ssh : SshClient) → ssh.Handle → List ForwardRequest → ssh.Handle
re_register_forwards ssh handle [] = handle
re_register_forwards ssh handle (f ∷ fs) =
    re_register_forwards ssh (ssh.tcpip_forward handle f.addr f.port).1 fs

module _ {ssh : SshClient} where
  unfoldable pub establish_session : Attempt ssh → Result ssh.Handle RusshError
  establish_session a = do
    stream ← map_err (λ _. send_error) a.connect
    handle ← map_err other_error (a.connect_stream stream)
    authenticated (a.authenticate handle)

  -- `ChannelManager::new`, at the time that the clock shows.
  unfoldable pub new : Attempt ssh → ℕ → Result (Manager ssh) ChannelError
  unfolding establish_session
  new a clock = do
    handle ← map_err (λ _. target_unreachable) (establish_session a)
    ok (record { handle = handle; forwards = []; reconnect_attempts = 0; clock = clock })

  unfoldable pub open_direct_tcpip : Manager ssh → Text → ℕ → Result ℕ ChannelError × Manager ssh
  open_direct_tcpip m host port =
      let (outcome, handle) =
        ssh.channel_open_direct_tcpip m.handle host port (text "127.0.0.1") 0 in
      (opened outcome, record m { handle = handle })

  -- A forward is noted when the server has granted it, and forgotten when it has cancelled it.
  abbrev pub granted :
      ForwardRequest → Manager ssh → Result ℕ Text → Result ℕ ChannelError × Manager ssh
  granted f m (err e) = (err channel_closed, m)
  granted f m (ok port) = (ok port, record m { forwards = insert f m.forwards })

  unfoldable pub request_tcpip_forward :
      Manager ssh → Text → ℕ → Result ℕ ChannelError × Manager ssh
  request_tcpip_forward m addr port =
      let (outcome, handle) = ssh.tcpip_forward m.handle addr port in
      granted (record { addr = addr; port = port }) (record m { handle = handle }) outcome

  abbrev pub cancelled :
      ForwardRequest
      → Manager ssh
      → Result (Unit {0}) Text
      → Result (Unit {0}) ChannelError × Manager ssh
  cancelled f m (err e) = (err channel_closed, m)
  cancelled f m (ok done) = (ok tt, record m { forwards = remove f m.forwards })

  unfoldable pub cancel_tcpip_forward :
      Manager ssh → Text → ℕ → Result (Unit {0}) ChannelError × Manager ssh
  cancel_tcpip_forward m addr port =
      let (outcome, handle) = ssh.cancel_tcpip_forward m.handle addr port in
      cancelled (record { addr = addr; port = port }) (record m { handle = handle }) outcome

  unfoldable pub is_connected : Manager ssh → Bool
  is_connected m = not (ssh.is_closed m.handle)

  abbrev pub reconnected : Order → Manager ssh → Result ssh.Handle RusshError → Manager ssh
  reconnected order m (err e) = m
  reconnected order m (ok new_handle) = record m {
    handle = re_register_forwards ssh new_handle (order m.forwards);
    reconnect_attempts = 0;
  }

  -- `reconnect`; the counter is of 32 bits.
  unfoldable pub reconnect : Order → Manager ssh → Attempt ssh → Manager ssh
  unfolding establish_session re_register_forwards
  reconnect order m a =
      reconnected order
        (record m {
          reconnect_attempts = (m.reconnect_attempts + 1) % 2 ^ 32;
          clock = m.clock + backoff_duration m.reconnect_attempts;
        })
        (establish_session a)

  -- One turn of the loop of `start_reconnect_monitor`, with the attempt that it may make.
  unfoldable pub turn : Order → Manager ssh → Attempt ssh → Manager ssh
  unfolding reconnect
  turn order m a =
      let waited = record m { clock = m.clock + 1 } in
      if ssh.is_closed m.handle then reconnect order waited a else waited

  unfoldable pub turns : Order → Manager ssh → List (Attempt ssh) → Manager ssh
  unfolding turn
  turns order m [] = m
  turns order m (a ∷ attempts) = turns order (turn order m a) attempts
