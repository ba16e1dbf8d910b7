-- ===== src/Qp.antt =====
-- Queue pairs, as the programs under rdma-core change them by `ibv_modify_qp`: the arguments of a
-- call, and what the documentation of the verbs library says of it.
use ibv_bench.Base.{
  ℕ, Bool, true, false, ◌&&◌, ◌||◌, Option, none, some, List, [], ◌∷◌, ◌==◌, if◌then◌else◌, ◌≡◌,
  refl, Bool-cases, inl, inr,
}
use ibv_bench.Wire.Gid.{Gid, Mtu, has_interface_id}
use ibv_bench.Wire.Address.{Dest}

-- `enum ibv_qp_state`, as far as it is used.
pub data QpState : Type 0 where
  qps_init qps_rtr qps_rts : QpState

-- The bits IBV_QP_... of `ibv_modify_qp`.
pub data AttrBit : Type 0 where
  qp_state_bit av_bit path_mtu_bit dest_qpn_bit rq_psn_bit max_dest_rd_atomic_bit : AttrBit
  min_rnr_timer_bit timeout_bit retry_cnt_bit rnr_retry_bit sq_psn_bit : AttrBit
  max_qp_rd_atomic_bit : AttrBit

-- `struct ibv_global_route`, as far as it is filled in.
pub record GlobalRoute : Type 0 where
  pub dgid : Gid
  pub sgid_index : ℕ
  pub hop_limit : ℕ

-- `struct ibv_ah_attr`: the address, with the global route where one is set.
pub record AhAttr : Type 0 where
  pub dlid : ℕ
  pub sl : ℕ
  pub port_num : ℕ
  pub grh : Option GlobalRoute

-- `struct ibv_qp_attr`, as far as it is filled in; 0 where the source sets nothing.
pub record QpAttr : Type 0 where
  pub qp_state : QpState
  pub path_mtu : Option Mtu
  pub dest_qp_num : ℕ
  pub rq_psn : ℕ
  pub sq_psn : ℕ
  pub max_dest_rd_atomic : ℕ
  pub max_rd_atomic : ℕ
  pub min_rnr_timer : ℕ
  pub timeout : ℕ
  pub retry_cnt : ℕ
  pub rnr_retry : ℕ
  pub ah_attr : AhAttr

-- One call of `ibv_modify_qp`.
pub record Modify : Type 0 where
  pub attr : QpAttr
  pub bits : List AttrBit

-- The address part, with `hop_limit` 1 wherever the route is global.
pub ah_attr_of : ℕ → ℕ → Dest → ℕ → AhAttr
ah_attr_of port sl dest sgid_idx = record {
  dlid = dest.lid;
  sl = sl;
  port_num = port;
  grh =
      if has_interface_id dest.gid
      then some (record { dgid = dest.gid; sgid_index = sgid_idx; hop_limit = 1 })
      else none;
}

-- How a side reaches others: the port that it sends from, the service level, the index of its own GID
-- and the limit of hops.
pub record Way : Type 0 where
  pub port : ℕ
  pub sl : ℕ
  pub sgid_index : ℕ
  pub hop_limit : ℕ

abbrev pub one_hop : ℕ → ℕ → ℕ → Way
one_hop port sl sgid_index = record { port = port; sl = sl; sgid_index = sgid_index; hop_limit = 1 }

abbrev pub global_part : Bool → GlobalRoute → Option GlobalRoute
global_part true route = some route
global_part false route = none

-- What an address part has to be for the port with a LID and a GID: sent to this LID, from the own
-- port, and across networks exactly if the GID has an interface identifier, then to this GID.
abbrev pub reached : Way → ℕ → Gid → AhAttr
reached w lid gid = record {
  dlid = lid;
  sl = w.sl;
  port_num = w.port;
  grh =
      global_part (has_interface_id gid)
        (record { dgid = gid; sgid_index = w.sgid_index; hop_limit = w.hop_limit });
}

pub ah_attr_of-reached :
    (port sl : ℕ) (dest : Dest) (sgid_idx : ℕ)
    → ah_attr_of port sl dest sgid_idx ≡ reached (one_hop port sl sgid_idx) dest.lid dest.gid
unfolding ah_attr_of
ah_attr_of-reached port sl dest sgid_idx = elim (Bool-cases (has_interface_id dest.gid)) [
  | inl far ↦ rw far refl
  | inr near ↦ rw near refl
]

-- The transports that the programs use.
pub data QpKind : Type 0 where
  rc uc ud xrc_send xrc_recv : QpKind

-- The other side of a connection: its queue pair, the packet that it begins with, and the way there.
pub record Target : Type 0 where
  pub qpn : ℕ
  pub psn : ℕ
  pub address : AhAttr

-- What a queue pair makes of the calls, by the documentation of
-- `ibv_modify_qp`: a state is entered from the one before it, if the bits of all the attributes
-- that the transition requires are given.
pub record QueuePair : Type 0 where
  pub kind : QpKind
  pub state : QpState
  pub dest : Option Target
  pub sends_from : Option ℕ

bit_number : AttrBit → ℕ
bit_number qp_state_bit = 0
bit_number av_bit = 1
bit_number path_mtu_bit = 2
bit_number dest_qpn_bit = 3
bit_number rq_psn_bit = 4
bit_number max_dest_rd_atomic_bit = 5
bit_number min_rnr_timer_bit = 6
bit_number timeout_bit = 7
bit_number retry_cnt_bit = 8
bit_number rnr_retry_bit = 9
bit_number sq_psn_bit = 10
bit_number max_qp_rd_atomic_bit = 11

in_bits : AttrBit → List AttrBit → Bool
unfolding bit_number
in_bits b [] = false
in_bits b (c ∷ cs) = bit_number b == bit_number c || in_bits b cs

all_in : List AttrBit → List AttrBit → Bool
unfolding in_bits
all_in [] bits = true
all_in (b ∷ bs) bits = in_bits b bits && all_in bs bits

required_rtr : QpKind → List AttrBit
required_rtr ud = qp_state_bit ∷ []
required_rtr uc = qp_state_bit ∷ av_bit ∷ path_mtu_bit ∷ dest_qpn_bit ∷ rq_psn_bit ∷ []
required_rtr xrc_send = qp_state_bit ∷ av_bit ∷ path_mtu_bit ∷ dest_qpn_bit ∷ rq_psn_bit ∷ []
required_rtr rc =
    qp_state_bit ∷ av_bit ∷ path_mtu_bit ∷ dest_qpn_bit ∷ rq_psn_bit ∷ max_dest_rd_atomic_bit
    ∷ min_rnr_timer_bit ∷ []
required_rtr xrc_recv =
    qp_state_bit ∷ av_bit ∷ path_mtu_bit ∷ dest_qpn_bit ∷ rq_psn_bit ∷ max_dest_rd_atomic_bit
    ∷ min_rnr_timer_bit ∷ []

required_rts : QpKind → List AttrBit
required_rts ud = qp_state_bit ∷ sq_psn_bit ∷ []
required_rts uc = qp_state_bit ∷ sq_psn_bit ∷ []
required_rts xrc_recv = qp_state_bit ∷ sq_psn_bit ∷ timeout_bit ∷ []
required_rts rc =
    qp_state_bit ∷ sq_psn_bit ∷ max_qp_rd_atomic_bit ∷ retry_cnt_bit ∷ rnr_retry_bit ∷ timeout_bit
    ∷ []
required_rts xrc_send =
    qp_state_bit ∷ sq_psn_bit ∷ max_qp_rd_atomic_bit ∷ retry_cnt_bit ∷ rnr_retry_bit ∷ timeout_bit
    ∷ []

required : QpKind → QpState → List AttrBit
unfolding required_rtr required_rts
required k qps_init = []
required k qps_rtr = required_rtr k
required k qps_rts = required_rts k

-- The other side of a connection; a queue pair for datagrams has none.
peer_of : QpKind → QpAttr → Option Target
peer_of ud attr = none
peer_of _ attr = some (record { qpn = attr.dest_qp_num; psn = attr.rq_psn; address = attr.ah_attr })

enter : QpState → QpAttr → QueuePair → Option QueuePair
unfolding peer_of
enter qps_rtr attr q = elim q.state [
  | qps_init ↦ some (record q { state = qps_rtr; dest = peer_of q.kind attr })
  | _ ↦ none
]
enter qps_rts attr q = elim q.state [
  | qps_rtr ↦ some (record q { state = qps_rts; sends_from = some attr.sq_psn })
  | _ ↦ none
]
enter qps_init attr q = none

unfoldable pub modify_qp : Modify → QueuePair → Option QueuePair
unfolding enter required all_in
modify_qp m q =
    if all_in (required q.kind m.attr.qp_state) m.bits then enter m.attr.qp_state m.attr q else none

unfoldable pub modify_all : List Modify → QueuePair → Option QueuePair
unfolding modify_qp
modify_all [] q = some q
modify_all (m ∷ ms) q = elim (modify_qp m q) [ none ↦ none | some q' ↦ modify_all ms q' ]

abbrev pub initial_qp : QpKind → QueuePair
initial_qp k = record { kind = k; state = qps_init; dest = none; sends_from = none }

-- A connected queue pair that is ready to send to `dest` by some way, starting at the packet `my_psn`.
abbrev pub ready_qp : QpKind → Way → Dest → ℕ → QueuePair
ready_qp k way dest my_psn = record {
  kind = k;
  state = qps_rts;
  dest = some (record { qpn = dest.qpn; psn = dest.psn; address = reached way dest.lid dest.gid });
  sends_from = some my_psn;
}
