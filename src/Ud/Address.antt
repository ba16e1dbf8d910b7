-- ===== src/Ud/Address.antt =====
-- rdma-core/ud_pingpong.c: the own address in `main`, which may have no LID.
use ibv_bench.Base.{ℕ, ◌%◌, ◌^◌, ◌≡◌, Option, none, some, arith, ltb, if◌then◌else◌}
use ibv_bench.Wire.Gid.{Gid}
use ibv_bench.Wire.Address.{Dest, IsAddress}
use ibv_bench.Rc.Start.{PortInfo, IsReported, no_gid, no_gid-IsGid}

-- `gidx >= 0` of the 32 bits of an `int`, and the answer of `ibv_query_gid`.
own_gid : ℕ → Option Gid → Option Gid
own_gid gidx queried = if ltb gidx (2 ^ 31) then queried else some no_gid

-- `my_dest`; none where `main` returns 1.
pub own_address : Option PortInfo → ℕ → Option Gid → ℕ → ℕ → Option Dest
unfolding own_gid
own_address none gidx queried qp_num random = none
own_address (some info) gidx queried qp_num random = elim (own_gid gidx queried) [
  | none ↦ none
  | some g ↦ some (record { lid = info.lid; qpn = qp_num; psn = random % 2 ^ 24; gid = g })
]

-- From a port and a queue pair as the library reports them, the address is in range, also where the
-- port has no LID.
pub own_address-IsAddress :
    (info : PortInfo) (gidx : ℕ) (g : Gid) (qp_num random : ℕ) (d : Dest)
    → IsReported info g qp_num
    → own_address (some info) gidx (some g) qp_num random ≡ some d
    → IsAddress d
unfolding own_address own_gid
own_address-IsAddress info gidx g qp_num random d h e =
    ground (arith, no_gid-IsGid, h.gid_bytes, h.lid_16_bits, h.qpn_24_bits)
