-- ===== src/Wire/Address/Bytes.antt =====
-- The bytes of the address line, as they lie in `msg`.
use ibv_bench.Base.{◌+◌, ◌≡◌, refl, arith, length}
use ibv_bench.Wire.Hex.{hex_width-le_iff}
use ibv_bench.Wire.Nul.{NoNul, NoNul-append, NoNul-print_hex, NoNul-gid_to_wire_gid}
use ibv_bench.Wire.Address.{Dest, IsAddress, print_address, sizeof_msg, length-print_address}

pub NoNul-print_address : (d : Dest) → NoNul (print_address d)
unfolding print_address
NoNul-print_address d = NoNul-append _ _ (NoNul-print_hex 4 d.lid) (
  refl,
  NoNul-append _ _ (NoNul-print_hex 6 d.qpn)
      (refl, NoNul-append _ _ (NoNul-print_hex 6 d.psn) (refl, NoNul-gid_to_wire_gid d.gid)),
)

-- The line of an address in range fills `msg` up to its NUL.
pub length-print_address_full : (d : Dest) → IsAddress d → length (print_address d) + 1 ≡ sizeof_msg
length-print_address_full d h = omega (
  arith,
  length-print_address d h.gid_bytes,
  (hex_width-le_iff 4 d.lid (omega (arith, h.lid_16_bits))).1 h.lid_16_bits,
  (hex_width-le_iff 6 d.qpn (omega (arith, h.qpn_24_bits))).1 h.qpn_24_bits,
  (hex_width-le_iff 6 d.psn (omega (arith, h.psn_24_bits))).1 h.psn_24_bits,
)
