-- ===== src/Wire/Address.antt =====
-- The address line of the programs under rdma-core (rc_pingpong.c, and the same text in the others):
-- what `sprintf` writes of a `struct pingpong_dest` into `msg`, and what `sscanf` makes of it.
pub mod Bytes
use ibv_bench.Base.{
  ℕ, suc, ◌+◌, ◌^◌, ◌<◌, max, ◌≡◌, ◌↔◌, ap, ◌∙◌, Option, none, some, [], ◌∷◌, ◌++◌, arith, ◌==◌,
  if◌then◌else◌, length, length-append,
}
use ibv_bench.Base.Text.{Text}
use ibv_bench.Wire.Hex.{
  print_hex, scan_hex, scan_word, scan_word-NoSpace, hex_width, hex_width-le_iff, length-print_hex,
  print_hex-fits, scan_hex-hex_fixed, Stops-colon,
}
use ibv_bench.Wire.Gid.{
  Gid, IsGid, gid_to_wire_gid, wire_gid_to_gid, length-gid_to_wire_gid, NoSpace-gid_to_wire_gid,
  wire_gid_to_gid-gid_to_wire_gid,
}

-- `struct pingpong_dest`; the three numbers are read and printed as `unsigned int`.
pub record Dest : Type 0 where
  pub lid : ℕ
  pub qpn : ℕ
  pub psn : ℕ
  pub gid : Gid

-- `sizeof msg`, with the closing NUL, and `sizeof "done"`.
abbrev pub sizeof_msg : ℕ
sizeof_msg = 52

abbrev pub sizeof_done : ℕ
sizeof_done = 5

-- `sprintf(msg, "%04x:%06x:%06x:%s", ...)` behind `gid_to_wire_gid`.
pub print_address : Dest → Text
print_address d =
    print_hex 4 d.lid
    ++ (b':'
        ∷ (print_hex 6 d.qpn ++ (b':' ∷ (print_hex 6 d.psn ++ (b':' ∷ gid_to_wire_gid d.gid)))))

-- A `:` of the format.
unfoldable pub scan_colon : Text → Option Text
scan_colon [] = none
scan_colon (c ∷ s) = if c == b':' then some s else none

-- The variables that `sscanf` assigns.
pub record Fields : Type 0 where
  pub lid : ℕ
  pub qpn : ℕ
  pub psn : ℕ
  pub gid : Text

-- `sscanf(msg, "%x:%x:%x:%s", ...)` assigns from the left until an item does not fit. Its result is
-- ignored, so a variable that is not reached keeps what it held.
colon_then : (Fields → Text → Fields) → Fields → Text → Fields
unfolding scan_colon
colon_then next old s = elim (scan_colon s) [ none ↦ old | some r ↦ next old r ]

scan_gid : Fields → Text → Fields
scan_gid old s = elim (scan_word s) [ none ↦ old | some w ↦ record old { gid = w } ]

scan_psn : Fields → Text → Fields
unfolding scan_gid colon_then
scan_psn old s = elim (scan_hex s) [
  | none ↦ old
  | some (v, r) ↦ colon_then scan_gid (record old { psn = v }) r
]

scan_qpn : Fields → Text → Fields
unfolding scan_psn colon_then
scan_qpn old s = elim (scan_hex s) [
  | none ↦ old
  | some (v, r) ↦ colon_then scan_psn (record old { qpn = v }) r
]

pub scan_address : Fields → Text → Fields
unfolding scan_qpn colon_then
scan_address old s = elim (scan_hex s) [
  | none ↦ old
  | some (v, r) ↦ colon_then scan_qpn (record old { lid = v }) r
]

-- The `sscanf` and `wire_gid_to_gid` of both exchanges. `junk` and `old` are what the uninitialised
-- variables hold.
pub read_address : ℕ → Fields → Text → Dest
read_address junk old msg =
    let f = scan_address old msg in
    record { lid = f.lid; qpn = f.qpn; psn = f.psn; gid = wire_gid_to_gid junk f.gid }

-- The ranges of the fields of an InfiniBand address.
pub record IsAddress (d : Dest) : Type 0 where
  pub lid_16_bits : d.lid < 2 ^ 16
  pub qpn_24_bits : d.qpn < 2 ^ 24
  pub psn_24_bits : d.psn < 2 ^ 24
  pub gid_bytes : IsGid d.gid

-- A number and the colon behind it are read back.
pub scan_hex-field :
    (w v : ℕ) (rest : Text)
    → v < 16 ^ suc (suc w)
    → v < 2 ^ 32
    → scan_hex (print_hex (suc (suc w)) v ++ (b':' ∷ rest)) ≡ some (v, b':' ∷ rest)
scan_hex-field w v rest h small =
    ap (λ t. scan_hex (t ++ (b':' ∷ rest))) (print_hex-fits (suc (suc w)) v h)
    ∙ scan_hex-hex_fixed w v (b':' ∷ rest) h small (Stops-colon rest)

module _ (d : Dest) (h : IsAddress d) where
  -- The line of an address in range (a LID of 16 bits, queue pair and packet numbers of 24, bytes
  -- in the GID) is read back as the same address, whatever the variables held before.
  pub read_address-print_address :
      (junk : ℕ) (old : Fields) → read_address junk old (print_address d) ≡ d
  unfolding read_address scan_address print_address
  read_address-print_address junk old = ground (
    arith,
    scan_hex-field 2 d.lid
        (print_hex 6 d.qpn ++ (b':' ∷ (print_hex 6 d.psn ++ (b':' ∷ gid_to_wire_gid d.gid)))),
    scan_hex-field 4 d.qpn (print_hex 6 d.psn ++ (b':' ∷ gid_to_wire_gid d.gid)),
    scan_hex-field 4 d.psn (gid_to_wire_gid d.gid),
    scan_word-NoSpace (gid_to_wire_gid d.gid) (NoSpace-gid_to_wire_gid d.gid),
    length-gid_to_wire_gid d.gid h.gid_bytes,
    wire_gid_to_gid-gid_to_wire_gid d.gid h.gid_bytes junk,
  )

pub length-print_address :
    (d : Dest)
    → IsGid d.gid
    → length (print_address d)
      ≡ max 4 (hex_width 8 d.lid) + max 6 (hex_width 8 d.qpn) + max 6 (hex_width 8 d.psn) + 35
unfolding print_address
length-print_address d g =
    omega (arith, length-append {0}, length-print_hex, length-gid_to_wire_gid d.gid g)

-- The line of an address whose GID consists of bytes and whose numbers have 32 bits fits into
-- `msg` exactly if the LID has 16 bits and the queue pair and packet numbers have 24.
pub print_address-fits :
    (d : Dest)
    → IsGid d.gid
    → d.lid < 2 ^ 32
    → d.qpn < 2 ^ 32
    → d.psn < 2 ^ 32
    → (length (print_address d) < sizeof_msg)
      ↔ ((d.lid < 2 ^ 16) × (d.qpn < 2 ^ 24) × (d.psn < 2 ^ 24))
print_address-fits d g hl hq hp = (
  λ fits. (
    (hex_width-le_iff 4 d.lid hl).0 (omega (arith, len)),
    (hex_width-le_iff 6 d.qpn hq).0 (omega (arith, len)),
    (hex_width-le_iff 6 d.psn hp).0 (omega (arith, len)),
  ),
  λ (l, q, p). omega (
    arith,
    len,
    (hex_width-le_iff 4 d.lid hl).1 l,
    (hex_width-le_iff 6 d.qpn hq).1 q,
    (hex_width-le_iff 6 d.psn hp).1 p,
  ),
)
  where
    len :
        length (print_address d)
        ≡ max 4 (hex_width 8 d.lid) + max 6 (hex_width 8 d.qpn) + max 6 (hex_width 8 d.psn) + 35
    len = length-print_address d g
