-- ===== src/Client/Forward/RoundTrip.antt =====
-- Specifications are read as they are written.
use alknet.Prelude.{ℕ, ◌≤◌, ◌≡◌, refl, true, [], ◌∷◌, ◌++◌, Text, split_on, ok}
use alknet.Prelude.Decimal.{decimal, parse_uint-decimal}
use alknet.Prelude.Split.{lacks, split_on-append, split_on_of_lacks, lacks-decimal}
use alknet.Client.Forward.{PortForwardSpec, of_parts, port_of, parse_spec, spec_text}

split_on-spec_text :
    (s : PortForwardSpec)
    → lacks b':' s.bind_addr ≡ true
    → lacks b':' s.target_host ≡ true
    → split_on b':' (spec_text s)
      ≡ s.bind_addr ∷ decimal s.bind_port ∷ s.target_host ∷ decimal s.target_port ∷ []
unfolding spec_text
split_on-spec_text s h k =
    rw
      (
        split_on-append b':' s.bind_addr
            (decimal s.bind_port ++ (b':' ∷ (s.target_host ++ (b':' ∷ decimal s.target_port)))) h,
        split_on-append b':' (decimal s.bind_port) (s.target_host ++ (b':' ∷ decimal s.target_port))
            (lacks-decimal b':' s.bind_port refl),
        split_on-append b':' s.target_host (decimal s.target_port) k,
        split_on_of_lacks b':' (decimal s.target_port) (lacks-decimal b':' s.target_port refl),
      )
      refl

port_of-decimal : (spec : Text) (n : ℕ) → n ≤ 0xffff → port_of spec (decimal n) ≡ ok n
port_of-decimal spec n h = rw (port_of, parse_uint-decimal 0xffff n h) refl

-- What is printed of a specification, without the flag, is parsed back to it with its kind, where
-- neither host has a colon and the ports are of 16 bits.
pub parse_spec-spec_text :
    (s : PortForwardSpec)
    → lacks b':' s.bind_addr ≡ true
    → lacks b':' s.target_host ≡ true
    → s.bind_port ≤ 0xffff
    → s.target_port ≤ 0xffff
    → parse_spec s.kind (spec_text s) ≡ ok s
unfolding parse_spec
parse_spec-spec_text s h k i j =
    rw
      (
        parse_spec,
        split_on-spec_text s h k,
        of_parts,
        port_of-decimal (spec_text s) s.bind_port i,
        port_of-decimal (spec_text s) s.target_port j,
      )
      refl
