-- ===== src/Xsrq/Address.antt =====
-- rdma-core/xsrq_pingpong.c: the address line, `send_local_dest` and `recv_remote_dest`. What the
-- library and the network answer are arguments.
pub mod RoundTrip
use ibv_bench.Base.{
  ℕ, ◌+◌, ◌-◌, ◌^◌, ◌<◌, ◌≡◌, refl, ap, ◌∙◌, none, some, List, [], ◌∷◌, ◌++◌, append-nil,
  append_assoc, arith, ltb, if◌then◌else◌, length, map, replicate, Bool-cases, inl, inr,
  length-append,
}
use ibv_bench.Base.Text.{Text}
use ibv_bench.Wire.Hex.{
  print_hex, scan_hex, scan_word, scan_word-NoSpace, print_hex-fits, length-hex_fixed,
}
use ibv_bench.Wire.Gid.{
  Gid, IsGid, gid_to_wire_gid, wire_gid_to_gid, length-gid_to_wire_gid, NoSpace-gid_to_wire_gid,
  wire_gid_to_gid-gid_to_wire_gid,
}
use ibv_bench.Wire.Address.{scan_colon, scan_hex-field}
use ibv_bench.Wire.Nul.{
  NoNul, NoNul-append, NoNul-print_hex, NoNul-gid_to_wire_gid, c_string, c_string-NoNul,
}

-- What one side sends of itself, and so what the other side reads.
pub record Dest : Type 0 where
  pub lid : ℕ
  pub recv_qpn : ℕ
  pub send_qpn : ℕ
  pub psn : ℕ
  pub srqn : ℕ
  pub gid : Gid

-- MSG_SIZE.
abbrev pub msg_size : ℕ
msg_size = 66

-- `%32s`: at least 32 characters, filled up on the left.
pub pad_32 : Text → Text
pad_32 s = replicate (32 - length s) b' ' ++ s

abbrev colon : Text → Text
colon s = b':' ∷ s

-- `sprintf(msg, MSG_FORMAT, ...)` behind `gid_to_wire_gid`.
pub print_local : Dest → Text
unfolding pad_32
print_local d =
    print_hex 4 d.lid
    ++ colon (
        print_hex 6 d.recv_qpn
        ++ colon (
            print_hex 6 d.send_qpn
            ++ colon (
                print_hex 6 d.psn
                ++ colon (print_hex 6 d.srqn ++ colon (pad_32 (gid_to_wire_gid d.gid))))))

-- The bytes that are written: the text with its NUL, up to MSG_SIZE of them.
pub local_message : Dest → Text
local_message d = print_local d ++ (0 ∷ [])

-- `sscanf(msg, MSG_SSCAN, ...)`, from the left until an item does not fit. `old` is what the
-- variables hold before, with the text of `gid`.
pub record Fields : Type 0 where
  pub lid : ℕ
  pub recv_qpn : ℕ
  pub send_qpn : ℕ
  pub psn : ℕ
  pub srqn : ℕ
  pub gid : Text

pub colon_then : (Fields → Text → Fields) → Fields → Text → Fields
unfolding scan_colon
colon_then next old s = elim (scan_colon s) [ none ↦ old | some r ↦ next old r ]

-- A number and the colon behind it.
pub number_then : (ℕ → Fields → Fields) → (Fields → Text → Fields) → Fields → Text → Fields
unfolding colon_then
number_then assign next old s = elim (scan_hex s) [
  | none ↦ old
  | some (v, r) ↦ colon_then next (assign v old) r
]

pub scan_gid : Fields → Text → Fields
scan_gid old s = elim (scan_word s) [ none ↦ old | some w ↦ record old { gid = w } ]

pub scan_remote : Fields → Text → Fields
unfolding number_then scan_gid
scan_remote =
    number_then (λ v f. record f { lid = v })
      (number_then (λ v f. record f { recv_qpn = v })
        (number_then (λ v f. record f { send_qpn = v })
          (number_then (λ v f. record f { psn = v })
            (number_then (λ v f. record f { srqn = v }) scan_gid))))

-- The address in a buffer of bytes.
pub read_remote : ℕ → Fields → Text → Dest
unfolding scan_remote
read_remote junk old msg =
    let f = scan_remote old (c_string msg) in
    record {
      lid = f.lid;
      recv_qpn = f.recv_qpn;
      send_qpn = f.send_qpn;
      psn = f.psn;
      srqn = f.srqn;
      gid = wire_gid_to_gid junk f.gid;
    }
