-- ===== src/Rc/Connect.antt =====
-- rdma-core/rc_pingpong.c: how a queue pair is taken from INIT to ready to send, `pp_connect_ctx`.
-- The library's answers are arguments; the calls are recorded.
use ibv_bench.Base.{
  ℕ, ◌≡◌, ◌≢◌, Bool, true, false, ◌&&◌, none, some, List, [], ◌∷◌, arith, if◌then◌else◌,
}
use ibv_bench.Wire.Gid.{Mtu}
use ibv_bench.Wire.Address.{Dest}
use ibv_bench.Qp.{
  qps_rtr, qps_rts, qp_state_bit, av_bit, path_mtu_bit, dest_qpn_bit, rq_psn_bit,
  max_dest_rd_atomic_bit, min_rnr_timer_bit, timeout_bit, retry_cnt_bit, rnr_retry_bit, sq_psn_bit,
  max_qp_rd_atomic_bit, QpAttr, Modify, rc, modify_all, initial_qp, ready_qp, one_hop, ah_attr_of,
  ah_attr_of-reached,
}

-- Whether the two calls of `ibv_modify_qp` succeed.
pub record ConnectAnswers : Type 0 where
  pub rtr_ok : Bool
  pub rts_ok : Bool

-- `attr` of the first call, and of the second.
rtr_attr : ℕ → Mtu → ℕ → Dest → ℕ → QpAttr
rtr_attr port mtu sl dest sgid_idx = record {
  qp_state = qps_rtr;
  path_mtu = some mtu;
  dest_qp_num = dest.qpn;
  rq_psn = dest.psn;
  sq_psn = 0;
  max_dest_rd_atomic = 1;
  max_rd_atomic = 0;
  min_rnr_timer = 12;
  timeout = 0;
  retry_cnt = 0;
  rnr_retry = 0;
  ah_attr = ah_attr_of port sl dest sgid_idx;
}

rts_attr : ℕ → QpAttr → QpAttr
rts_attr my_psn attr = record attr {
  qp_state = qps_rts;
  timeout = 14;
  retry_cnt = 7;
  rnr_retry = 7;
  sq_psn = my_psn;
  max_rd_atomic = 1;
}

rtr_call : ℕ → Mtu → ℕ → Dest → ℕ → Modify
unfolding rtr_attr
rtr_call port mtu sl dest sgid_idx = record {
  attr = rtr_attr port mtu sl dest sgid_idx;
  bits =
      qp_state_bit ∷ av_bit ∷ path_mtu_bit ∷ dest_qpn_bit ∷ rq_psn_bit ∷ max_dest_rd_atomic_bit
      ∷ min_rnr_timer_bit ∷ [];
}

rts_call : ℕ → QpAttr → Modify
unfolding rts_attr
rts_call my_psn attr = record {
  attr = rts_attr my_psn attr;
  bits =
      qp_state_bit ∷ timeout_bit ∷ retry_cnt_bit ∷ rnr_retry_bit ∷ sq_psn_bit ∷ max_qp_rd_atomic_bit
      ∷ [];
}

-- `pp_connect_ctx`: `true` is the 0 of the source.
unfoldable pub pp_connect_ctx : ConnectAnswers → ℕ → ℕ → Mtu → ℕ → Dest → ℕ → Bool × List Modify
unfolding rtr_call rts_call
pp_connect_ctx d port my_psn mtu sl dest sgid_idx =
    let rtr = rtr_call port mtu sl dest sgid_idx in
    let rts = rts_call my_psn rtr.attr in
    if d.rtr_ok then (d.rts_ok, rtr ∷ rts ∷ []) else (false, rtr ∷ [])

-- `pp_connect_ctx` returns 0 exactly if both changes succeed, and each call that it makes has all
-- the attributes that its transition requires, also where only the first is made.
pub pp_connect_ctx-legal :
    (d : ConnectAnswers) (port my_psn : ℕ) (mtu : Mtu) (sl : ℕ) (dest : Dest) (sgid_idx : ℕ)
    → let (ok, calls) = pp_connect_ctx d port my_psn mtu sl dest sgid_idx in
      (ok ≡ (d.rtr_ok && d.rts_ok)) × (modify_all calls (initial_qp rc) ≢ none)
unfolding pp_connect_ctx modify_all
pp_connect_ctx-legal d port my_psn mtu sl dest sgid_idx = (ground arith, ground arith)

-- Where `pp_connect_ctx` returns 0, its calls have led a queue pair from INIT to ready to send, to
-- the queue pair number of the destination and from `my_psn` on, with the destination's packet
-- number expected.
pub pp_connect_ctx-ready :
    (d : ConnectAnswers) (port my_psn : ℕ) (mtu : Mtu) (sl : ℕ) (dest : Dest) (sgid_idx : ℕ)
    → (pp_connect_ctx d port my_psn mtu sl dest sgid_idx).0 ≡ true
    → modify_all (pp_connect_ctx d port my_psn mtu sl dest sgid_idx).1 (initial_qp rc)
      ≡ some (ready_qp rc (one_hop port sl sgid_idx) dest my_psn)
unfolding pp_connect_ctx modify_all
pp_connect_ctx-ready d port my_psn mtu sl dest sgid_idx done =
    let way = ah_attr_of-reached port sl dest sgid_idx in ground (arith, way)
