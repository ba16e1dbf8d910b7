-- ===== src/Wire/Tests.antt =====
-- The address line at a fixed address.
use ibv_bench.Base.{◌≡◌, ◌<◌, ◌^◌, ◌↔◌, arith, length, []}
use ibv_bench.Wire.Gid.{Gid, IsGid}
use ibv_bench.Wire.Address.{
  Dest, Fields, IsAddress, print_address, read_address, sizeof_msg, read_address-print_address,
  print_address-fits,
}

abbrev link_local : Gid
link_local = record {
  w0 = record { b0 = 0xfe; b1 = 0x80; b2 = 0; b3 = 0 };
  w1 = record { b0 = 0; b1 = 0; b2 = 0; b3 = 0 };
  w2 = record { b0 = 0; b1 = 2; b2 = 0xc9; b3 = 3 };
  w3 = record { b0 = 0; b1 = 0x4b; b2 = 0x12; b3 = 0xff };
}

link_local-IsGid : IsGid link_local
link_local-IsGid = ground arith

abbrev dest : Dest
dest = record { lid = 7; qpn = 0x48; psn = 0xabcdef; gid = link_local }

dest-IsAddress : IsAddress dest
dest-IsAddress = record {
  lid_16_bits = omega arith;
  qpn_24_bits = omega arith;
  psn_24_bits = omega arith;
  gid_bytes = link_local-IsGid;
}

abbrev empty : Fields
empty = record { lid = 0; qpn = 0; psn = 0; gid = [] }

read_address-print_address_example : read_address 5 empty (print_address dest) ≡ dest
read_address-print_address_example = read_address-print_address dest dest-IsAddress 5 empty

print_address-fits_example :
    (length (print_address dest) < sizeof_msg)
    ↔ ((7 < 2 ^ 16) × (0x48 < 2 ^ 24) × (0xabcdef < 2 ^ 24))
print_address-fits_example =
    print_address-fits dest link_local-IsGid (omega arith) (omega arith) (omega arith)
