-- ===== src/Xsrq/Address/RoundTrip.antt =====
-- rdma-core/xsrq_pingpong.c: an address that `send_local_dest` writes and `recv_remote_dest` reads,
-- in whatever parts it comes.
use ibv_bench.Base.{
  ℕ, ◌^◌, ◌<◌, ◌≡◌, refl, ap, ◌∙◌, List, [], ◌++◌, arith, length, map, length-append,
}
use ibv_bench.Base.Text.{Text}
use ibv_bench.Wire.Hex.{print_hex, scan_word-NoSpace, print_hex-fits, length-hex_fixed}
use ibv_bench.Wire.Gid.{
  Gid, IsGid, gid_to_wire_gid, length-gid_to_wire_gid, NoSpace-gid_to_wire_gid,
  wire_gid_to_gid-gid_to_wire_gid,
}
use ibv_bench.Wire.Address.{scan_colon, scan_hex-field}
use ibv_bench.Wire.Nul.{NoNul, NoNul-append, NoNul-print_hex, NoNul-gid_to_wire_gid, c_string-NoNul}
use ibv_bench.Xsrq.Address.{
  Dest, msg_size, pad_32, colon, print_local, local_message, Fields, colon_then, number_then,
  scan_gid, scan_remote, read_remote,
}
use ibv_bench.Wire.Read.{bytes, got, read_msg, joined, read_msg-joined}

pub record IsAddress (d : Dest) : Type 0 where
  pub lid_16_bits : d.lid < 2 ^ 16
  pub recv_qpn_24_bits : d.recv_qpn < 2 ^ 24
  pub send_qpn_24_bits : d.send_qpn < 2 ^ 24
  pub psn_24_bits : d.psn < 2 ^ 24
  pub srqn_24_bits : d.srqn < 2 ^ 24
  pub gid_bytes : IsGid d.gid

pad_32-gid : (g : Gid) → IsGid g → pad_32 (gid_to_wire_gid g) ≡ gid_to_wire_gid g
unfolding pad_32
pad_32-gid g h = rw (length-gid_to_wire_gid g h)

scan_remote-print_local :
    (d : Dest)
    → IsAddress d
    → (old : Fields)
    → scan_remote old (print_local d) ≡ record {
      lid = d.lid;
      recv_qpn = d.recv_qpn;
      send_qpn = d.send_qpn;
      psn = d.psn;
      srqn = d.srqn;
      gid = gid_to_wire_gid d.gid;
    }
unfolding scan_remote print_local scan_gid number_then colon_then scan_colon
scan_remote-print_local d h old =
    let gid = pad_32 (gid_to_wire_gid d.gid) in
    let srqn = print_hex 6 d.srqn ++ colon gid in
    let psn = print_hex 6 d.psn ++ colon srqn in
    let send = print_hex 6 d.send_qpn ++ colon psn in
    ground (
      arith,
      scan_hex-field 2 d.lid (print_hex 6 d.recv_qpn ++ colon send) (omega (arith, h.lid_16_bits))
          (omega (arith, h.lid_16_bits)),
      scan_hex-field 4 d.recv_qpn send (omega (arith, h.recv_qpn_24_bits))
          (omega (arith, h.recv_qpn_24_bits)),
      scan_hex-field 4 d.send_qpn psn (omega (arith, h.send_qpn_24_bits))
          (omega (arith, h.send_qpn_24_bits)),
      scan_hex-field 4 d.psn srqn (omega (arith, h.psn_24_bits)) (omega (arith, h.psn_24_bits)),
      scan_hex-field 4 d.srqn gid (omega (arith, h.srqn_24_bits)) (omega (arith, h.srqn_24_bits)),
      pad_32-gid d.gid h.gid_bytes,
      scan_word-NoSpace (gid_to_wire_gid d.gid) (NoSpace-gid_to_wire_gid d.gid),
      length-gid_to_wire_gid d.gid h.gid_bytes,
    )

NoNul-print_local : (d : Dest) → IsGid d.gid → NoNul (print_local d)
unfolding print_local
NoNul-print_local d h = NoNul-append _ _ (NoNul-print_hex 4 d.lid) (
  refl,
  NoNul-append _ _ (NoNul-print_hex 6 d.recv_qpn) (
    refl,
    NoNul-append _ _ (NoNul-print_hex 6 d.send_qpn) (
      refl,
      NoNul-append _ _ (NoNul-print_hex 6 d.psn) (
        refl,
        NoNul-append _ _ (NoNul-print_hex 6 d.srqn)
            (refl, rw (pad_32-gid d.gid h) (NoNul-gid_to_wire_gid d.gid)),
      ),
    ),
  ),
)

length-print_hex_4 : (v : ℕ) → v < 2 ^ 16 → length (print_hex 4 v) ≡ 4
length-print_hex_4 v h = rw (print_hex-fits 4 v (omega arith)) (length-hex_fixed 4 v)

length-print_hex_6 : (v : ℕ) → v < 2 ^ 24 → length (print_hex 6 v) ≡ 6
length-print_hex_6 v h = rw (print_hex-fits 6 v (omega arith)) (length-hex_fixed 6 v)

-- The message fills MSG_SIZE bytes exactly.
length-local_message : (d : Dest) → IsAddress d → length (local_message d) ≡ msg_size
unfolding local_message print_local
length-local_message d h = rw (pad_32-gid d.gid h.gid_bytes) (
    omega (
      arith,
      length-append {0},
      length-print_hex_4 d.lid h.lid_16_bits,
      length-print_hex_6 d.recv_qpn h.recv_qpn_24_bits,
      length-print_hex_6 d.send_qpn h.send_qpn_24_bits,
      length-print_hex_6 d.psn h.psn_24_bits,
      length-print_hex_6 d.srqn h.srqn_24_bits,
      length-gid_to_wire_gid d.gid h.gid_bytes,
    ))

-- An address in range is written into the MSG_SIZE bytes of the message exactly, with its NUL, and
-- whatever the parts in which these are read, the loop of `recv_remote_dest` puts them together
-- and the same address is read back.
pub read_remote-local_message :
    (d : Dest) (parts : List Text) (junk : ℕ) (old : Fields)
    → IsAddress d
    → joined parts ≡ local_message d
    → (length (local_message d) ≡ msg_size)
      × (read_msg msg_size [] (map bytes parts) ≡ got (local_message d))
      × (read_remote junk old (local_message d) ≡ d)
unfolding local_message read_remote
read_remote-local_message d parts junk old h whole = (
  length-local_message d h,
  read_msg-joined msg_size [] parts (omega (arith, ap length whole, length-local_message d h))
      ∙ ap got whole,
  ground (
    arith,
    c_string-NoNul (print_local d) [] (NoNul-print_local d h.gid_bytes),
    scan_remote-print_local d h old,
    wire_gid_to_gid-gid_to_wire_gid d.gid h.gid_bytes junk,
  ),
)
