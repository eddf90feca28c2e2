-- ===== src/Server/Handler/Channels.antt =====
-- Which channels are opened.
use alknet.Prelude.{ℕ, ◌%◌, ◌^◌, ◌≡◌, ◌↔◌, true, false, Text, text, starts_with, arith}
use alknet.Net.{Net}
use alknet.Config.Forwarding
use alknet.Config.Forwarding.{ForwardingPolicy}
use alknet.Server.Handler.{ServerHandler, connected, or_anonymous, channel_open_direct_tcpip}

-- A channel is connected to a target exactly if the host is not reserved and the policy allows the
-- host, the low 16 bits of the port and the identity of the connection, and then to that host and
-- those bits; for a reserved
-- host the answer is the same under every policy, so that no rule on the prefix of the control
-- channel, AlknetPrefix included, has any effect.
pub channel_open_direct_tcpip-iff_check :
    (net : Net) (policy : ForwardingPolicy net) (h : ServerHandler) (host : Text) (port : ℕ)
    → ((channel_open_direct_tcpip policy h host port ≡ connected host (port % 2 ^ 16)) ↔ (
        (starts_with (text "alknet-") host ≡ false)
        × (Forwarding.check policy host
              (port % 2 ^ 16)
              (or_anonymous h.authenticated_identity)
              h.transport
            ≡ true)))
      × ((target : Text) (p : ℕ)
          → channel_open_direct_tcpip policy h host port ≡ connected target p
          → (target ≡ host) × (p ≡ port % 2 ^ 16))
      × (starts_with (text "alknet-") host ≡ true
          → (other : ForwardingPolicy net)
          → channel_open_direct_tcpip other h host port
            ≡ channel_open_direct_tcpip policy h host port)
unfolding channel_open_direct_tcpip
channel_open_direct_tcpip-iff_check net policy h host port = (
  (λ e. (ground arith, ground arith), λ (a, b). ground arith),
  λ target p e. (ground arith, ground arith),
  λ reserved other. ground arith,
)
