-- ===== src/Client/Ssh.antt =====
-- What the client takes of the crate russh and of a transport. A handle is a value: a call that
-- changes it gives the handle after it.
use alknet.Prelude.{ℕ, Bool, Text, Result}

pub record SshClient : Type 1 where
  pub Stream : Type 0
  pub Handle : Type 0
  pub is_closed : Handle → Bool
  pub tcpip_forward : Handle → Text → ℕ → Result ℕ Text × Handle
  pub cancel_tcpip_forward : Handle → Text → ℕ → Result (Unit {0}) Text × Handle
  pub channel_open_direct_tcpip : Handle → Text → ℕ → Text → ℕ → Result ℕ Text × Handle

-- What one attempt to connect meets: `Transport::connect`, `client::connect_stream` on that stream,
-- and `ClientAuthConfig::authenticate` on that handle, which changes it.
pub record Attempt (ssh : SshClient) : Type 0 where
  pub connect : Result ssh.Stream Text
  pub connect_stream : ssh.Stream → Result ssh.Handle Text
  pub authenticate : ssh.Handle → Result Bool Text × ssh.Handle
