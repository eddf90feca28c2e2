-- ===== src/Interface/Pairs.antt =====
-- crates/alknet-core/src/interface/pairs.rs: which interface runs on which transport.
use alknet.Prelude.{Bool, true, false, ◌&&◌, ◌≡◌, refl, List, [], ◌∷◌, Text, text, any}
use alknet.Net.{TransportKind, tcp, tls, iroh, web_transport}

-- `StreamInterfaceKind` of config.rs
pub data StreamInterfaceKind : Type 0 where
  ssh raw_framing : StreamInterfaceKind

-- Its `Display`.
abbrev pub interface_text : StreamInterfaceKind → Text
interface_text ssh = text "ssh"
interface_text raw_framing = text "raw-framing"

pub data TransportKindBase : Type 0 where
  tcp_base tls_base iroh_base web_transport_base : TransportKindBase

abbrev pub transport_base : TransportKind → TransportKindBase
transport_base tcp = tcp_base
transport_base (tls _) = tls_base
transport_base (iroh _) = iroh_base
transport_base (web_transport _) = web_transport_base

abbrev pub base_pair : TransportKindBase → StreamInterfaceKind → Bool
base_pair tcp_base ssh = true
base_pair tls_base ssh = true
base_pair iroh_base ssh = true
base_pair web_transport_base ssh = true
base_pair web_transport_base raw_framing = true
base_pair tcp_base raw_framing = true
base_pair tls_base raw_framing = false
base_pair iroh_base raw_framing = false

unfoldable pub is_valid_pair : TransportKind → StreamInterfaceKind → Bool
is_valid_pair transport interface = base_pair (transport_base transport) interface

abbrev pub valid_transport_interface_pairs : List (TransportKindBase × StreamInterfaceKind)
valid_transport_interface_pairs =
    (tcp_base, ssh)
    ∷ (tls_base, ssh)
    ∷ (iroh_base, ssh)
    ∷ (web_transport_base, ssh)
    ∷ (web_transport_base, raw_framing)
    ∷ (tcp_base, raw_framing)
    ∷ []

-- The derived `PartialEq` of the two types.
abbrev base_eq : TransportKindBase → TransportKindBase → Bool
base_eq tcp_base tcp_base = true
base_eq tls_base tls_base = true
base_eq iroh_base iroh_base = true
base_eq web_transport_base web_transport_base = true
base_eq _ _ = false

abbrev interface_eq : StreamInterfaceKind → StreamInterfaceKind → Bool
interface_eq ssh ssh = true
interface_eq raw_framing raw_framing = true
interface_eq _ _ = false

abbrev pub listed : TransportKind → StreamInterfaceKind → Bool
listed transport interface =
    any
      (λ (p : TransportKindBase × StreamInterfaceKind).
        base_eq p.0 (transport_base transport) && interface_eq p.1 interface)
      valid_transport_interface_pairs

-- The test of a pair and the published table of pairs agree, whatever the transport carries.
pub is_valid_pair-eq-listed :
    (transport : TransportKind) (interface : StreamInterfaceKind)
    → is_valid_pair transport interface ≡ listed transport interface
unfolding is_valid_pair
is_valid_pair-eq-listed tcp ssh = refl
is_valid_pair-eq-listed tcp raw_framing = refl
is_valid_pair-eq-listed (tls _) ssh = refl
is_valid_pair-eq-listed (tls _) raw_framing = refl
is_valid_pair-eq-listed (iroh _) ssh = refl
is_valid_pair-eq-listed (iroh _) raw_framing = refl
is_valid_pair-eq-listed (web_transport _) ssh = refl
is_valid_pair-eq-listed (web_transport _) raw_framing = refl
