-- ===== src/Client/Forward.antt =====
-- The specifications of crates/alknet-core/src/client/forward.rs: `bind_addr:bind_port:host:port`.
pub mod RoundTrip
use alknet.Prelude.{
  ℕ, Bool, true, false, Option, none, some, List, [], ◌∷◌, ◌++◌, Text, text, split_on, Result, ok,
  err, ◌>>=◌,
}
use alknet.Prelude.Decimal.{decimal, parse_uint}

pub data PortForwardSpecKind : Type 0 where
  local_kind remote_kind : PortForwardSpecKind

pub record PortForwardSpec : Type 0 where
  pub kind : PortForwardSpecKind
  pub bind_addr : Text
  pub bind_port : ℕ
  pub target_host : Text
  pub target_port : ℕ

pub data ForwardError : Type 0 where
  invalid_spec : Text → ForwardError

abbrev pub max_u16 : ℕ
max_u16 = 0xffff

abbrev pub port_of : Text → Text → Result ℕ ForwardError
port_of spec part = elim (parse_uint max_u16 part) [
  | some port ↦ ok port
  | none ↦ err (invalid_spec spec)
]

-- The four parts, where there are as many.
unfoldable pub of_parts :
    PortForwardSpecKind → Text → List Text → Result PortForwardSpec ForwardError
of_parts kind spec (bind_addr ∷ bind ∷ target_host ∷ target ∷ []) = do
  bind_port ← port_of spec bind
  target_port ← port_of spec target
  ok (record {
    kind = kind;
    bind_addr = bind_addr;
    bind_port = bind_port;
    target_host = target_host;
    target_port = target_port;
  })
of_parts kind spec _ = err (invalid_spec spec)

-- `parse_spec` with the kind that `local` or `remote` adds.
unfoldable pub parse_spec : PortForwardSpecKind → Text → Result PortForwardSpec ForwardError
unfolding of_parts
parse_spec kind spec = of_parts kind spec (split_on b':' spec)

abbrev pub prefix_of : PortForwardSpecKind → Text
prefix_of local_kind = text "-L"
prefix_of remote_kind = text "-R"

-- What `Display` writes after the flag.
unfoldable pub spec_text : PortForwardSpec → Text
spec_text s =
    s.bind_addr
    ++ (b':' ∷ (decimal s.bind_port ++ (b':' ∷ (s.target_host ++ (b':' ∷ decimal s.target_port)))))

-- `Display`
unfoldable pub display : PortForwardSpec → Text
unfolding spec_text
display s = prefix_of s.kind ++ (b' ' ∷ spec_text s)
