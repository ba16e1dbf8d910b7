-- ===== src/Xsrq/Connect.antt =====
-- rdma-core/xsrq_pingpong.c: `connect_qps`, which takes the two queue pairs of an index from INIT to
-- ready to send. The library's answers are arguments; the calls are recorded.
use ibv_bench.Base.{
  ℕ, ◌≡◌, ◌≢◌, Bool, false, ◌&&◌, not, none, some, List, [], ◌∷◌, arith, if◌then◌else◌, refl,
  Bool-cases, inl, inr,
}
use ibv_bench.Wire.Gid.{Mtu, has_interface_id}
use ibv_bench.Qp.{
  QpState, qps_rtr, qps_rts, qp_state_bit, av_bit, path_mtu_bit, dest_qpn_bit, rq_psn_bit,
  max_dest_rd_atomic_bit, min_rnr_timer_bit, timeout_bit, retry_cnt_bit, rnr_retry_bit, sq_psn_bit,
  max_qp_rd_atomic_bit, AhAttr, Way, reached, QpAttr, QpKind, QueuePair, Modify, xrc_send, xrc_recv,
  modify_all, initial_qp,
}
use ibv_bench.Xsrq.Address.{Dest}

-- The global `ctx`, as far as it is read here.
pub record Port : Type 0 where
  pub ib_port : ℕ
  pub mtu : Mtu
  pub sl : ℕ
  pub gidx : ℕ

-- Whether the four calls of `ibv_modify_qp` succeed.
pub record ConnectAnswers : Type 0 where
  pub recv_rtr_ok : Bool
  pub recv_rts_ok : Bool
  pub send_rtr_ok : Bool
  pub send_rts_ok : Bool

-- A call on `recv_qp[index]` or on `send_qp[index]`.
pub data Call : Type 0 where
  on_recv_qp on_send_qp : Modify → Call

-- `memset(&attr, 0, sizeof attr)`, and the state.
cleared : QpState → QpAttr
cleared state = record {
  qp_state = state;
  path_mtu = none;
  dest_qp_num = 0;
  rq_psn = 0;
  sq_psn = 0;
  max_dest_rd_atomic = 0;
  max_rd_atomic = 0;
  min_rnr_timer = 0;
  timeout = 0;
  retry_cnt = 0;
  rnr_retry = 0;
  ah_attr = record { dlid = 0; sl = 0; port_num = 0; grh = none };
}

-- The address part, with `set_ah_attr`.
ah_attr_to : Port → Dest → AhAttr
ah_attr_to p rem = record {
  dlid = rem.lid;
  sl = p.sl;
  port_num = p.ib_port;
  grh =
      if has_interface_id rem.gid
      then some (record { dgid = rem.gid; sgid_index = p.gidx; hop_limit = 5 })
      else none;
}

-- The way that this side sends by.
abbrev pub way_of : Port → Way
way_of p = record { port = p.ib_port; sl = p.sl; sgid_index = p.gidx; hop_limit = 5 }

ah_attr_to-reached : (p : Port) (rem : Dest) → ah_attr_to p rem ≡ reached (way_of p) rem.lid rem.gid
unfolding ah_attr_to
ah_attr_to-reached p rem = elim (Bool-cases (has_interface_id rem.gid)) [
  | inl far ↦ rw far refl
  | inr near ↦ rw near refl
]

recv_rtr : Port → Dest → Modify
unfolding cleared ah_attr_to
recv_rtr p rem = record {
  attr = record (cleared qps_rtr) {
    dest_qp_num = rem.send_qpn;
    path_mtu = some p.mtu;
    rq_psn = rem.psn;
    min_rnr_timer = 12;
    ah_attr = ah_attr_to p rem;
  };
  bits =
      qp_state_bit ∷ av_bit ∷ path_mtu_bit ∷ dest_qpn_bit ∷ rq_psn_bit ∷ max_dest_rd_atomic_bit
      ∷ min_rnr_timer_bit ∷ [];
}

recv_rts : ℕ → Modify
unfolding cleared
recv_rts own_psn = record {
  attr = record (cleared qps_rts) { timeout = 14; sq_psn = own_psn };
  bits = qp_state_bit ∷ timeout_bit ∷ sq_psn_bit ∷ [];
}

send_rtr : Port → Dest → Modify
unfolding cleared ah_attr_to
send_rtr p rem = record {
  attr = record (cleared qps_rtr) {
    dest_qp_num = rem.recv_qpn;
    path_mtu = some p.mtu;
    rq_psn = rem.psn;
    ah_attr = ah_attr_to p rem;
  };
  bits = qp_state_bit ∷ av_bit ∷ path_mtu_bit ∷ dest_qpn_bit ∷ rq_psn_bit ∷ [];
}

send_rts : ℕ → Modify
unfolding cleared
send_rts own_psn = record {
  attr = record (cleared qps_rts) { timeout = 14; retry_cnt = 7; rnr_retry = 7; sq_psn = own_psn };
  bits =
      qp_state_bit ∷ timeout_bit ∷ sq_psn_bit ∷ retry_cnt_bit ∷ rnr_retry_bit ∷ max_qp_rd_atomic_bit
      ∷ [];
}

-- `true` is the 0 of the source. `own_psn` is `recv_psn` of the index, which `send_local_dest` chose;
-- `rem` is what `recv_remote_dest` has read, its `psn` in `send_psn`.
unfoldable pub connect_qps : ConnectAnswers → Port → ℕ → Dest → Bool × List Call
unfolding recv_rtr recv_rts send_rtr send_rts
connect_qps d p own_psn rem =
    let c1 = on_recv_qp (recv_rtr p rem) in
    let c2 = on_recv_qp (recv_rts own_psn) in
    let c3 = on_send_qp (send_rtr p rem) in
    let c4 = on_send_qp (send_rts own_psn) in
    if not d.recv_rtr_ok
    then (false, c1 ∷ [])
    else if not d.recv_rts_ok
    then (false, c1 ∷ c2 ∷ [])
    else if not d.send_rtr_ok
    then (false, c1 ∷ c2 ∷ c3 ∷ [])
    else (d.send_rts_ok, c1 ∷ c2 ∷ c3 ∷ c4 ∷ [])

-- The calls on each of the two queue pairs.
pub on_recv : List Call → List Modify
on_recv [] = []
on_recv (on_recv_qp m ∷ cs) = m ∷ on_recv cs
on_recv (on_send_qp m ∷ cs) = on_recv cs

pub on_send : List Call → List Modify
on_send [] = []
on_send (on_recv_qp m ∷ cs) = on_send cs
on_send (on_send_qp m ∷ cs) = m ∷ on_send cs

-- A queue pair that is ready to send from `own_psn` on to a queue pair of the other side, by its number,
-- where its packets begin, and what leads to its port.
abbrev pub ready_from : QpKind → Way → Dest → ℕ → ℕ → QueuePair
ready_from kind way rem qpn own_psn = record {
  kind = kind;
  state = qps_rts;
  dest = some (record { qpn = qpn; psn = rem.psn; address = reached way rem.lid rem.gid });
  sends_from = some own_psn;
}

-- `connect_qps` returns 0 exactly if all four changes succeed. Each change has all the attributes
-- that its transition requires, and where it returns 0 both queue pairs are ready to send: the one
-- that receives is connected to the sending one of the other side, and the one that sends to the
-- receiving one.
pub connect_qps-ready :
    (d : ConnectAnswers) (p : Port) (own_psn : ℕ) (rem : Dest)
    → let (ok, calls) = connect_qps d p own_psn rem in
      let recv_ready = ready_from xrc_recv (way_of p) rem rem.send_qpn own_psn in
      let send_ready = ready_from xrc_send (way_of p) rem rem.recv_qpn own_psn in
      (ok ≡ (d.recv_rtr_ok && (d.recv_rts_ok && (d.send_rtr_ok && d.send_rts_ok))))
      × (modify_all (on_recv calls) (initial_qp xrc_recv) ≢ none)
      × (modify_all (on_send calls) (initial_qp xrc_send) ≢ none)
      × ((if ok then modify_all (on_recv calls) (initial_qp xrc_recv) else some recv_ready)
          ≡ some recv_ready)
      × ((if ok then modify_all (on_send calls) (initial_qp xrc_send) else some send_ready)
          ≡ some send_ready)
unfolding connect_qps modify_all on_recv on_send
connect_qps-ready d p own_psn rem =
    let way = ah_attr_to-reached p rem in
    (ground arith, ground arith, ground arith, ground (arith, way), ground (arith, way))
