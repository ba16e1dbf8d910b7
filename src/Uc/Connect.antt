-- ===== src/Uc/Connect.antt =====
-- rdma-core/uc_pingpong.c: `pp_connect_ctx`, and the exchange of addresses with it.
use ibv_bench.Base.{
  ℕ, ◌≡◌, ◌≢◌, Bool, true, false, ◌&&◌, Option, none, some, List, [], ◌∷◌, arith, if◌then◌else◌,
}
use ibv_bench.Wire.Gid.{Mtu}
use ibv_bench.Wire.Address.{Dest}
use ibv_bench.Qp.{
  qps_rtr, qps_rts, qp_state_bit, av_bit, path_mtu_bit, dest_qpn_bit, rq_psn_bit, sq_psn_bit,
  QpAttr, QueuePair, Modify, uc, modify_all, initial_qp, ready_qp, one_hop, ah_attr_of,
  ah_attr_of-reached,
}
use ibv_bench.Rc.Connect.{ConnectAnswers}
use ibv_bench.Rc.Start.{own_address, own_address-IsAddress}
use ibv_bench.Exchange.{
  Transport, Route, ClientAnswers, ServerAnswers, Socket, client_exch_dest as tcp_client,
  server_exch_dest as tcp_server,
}

-- `attr` of the first call; the fields that are not named are 0.
rtr_attr : ℕ → Mtu → ℕ → Dest → ℕ → QpAttr
rtr_attr port mtu sl dest sgid_idx = record {
  qp_state = qps_rtr;
  path_mtu = some mtu;
  dest_qp_num = dest.qpn;
  rq_psn = dest.psn;
  sq_psn = 0;
  max_dest_rd_atomic = 0;
  max_rd_atomic = 0;
  min_rnr_timer = 0;
  timeout = 0;
  retry_cnt = 0;
  rnr_retry = 0;
  ah_attr = ah_attr_of port sl dest sgid_idx;
}

-- `true` is the 0 of the source.
pub pp_connect_ctx : ConnectAnswers → ℕ → ℕ → Mtu → ℕ → Dest → ℕ → Bool × List Modify
unfolding rtr_attr
pp_connect_ctx d port my_psn mtu sl dest sgid_idx =
    let attr = rtr_attr port mtu sl dest sgid_idx in
    let rtr : Modify = record {
      attr = attr;
      bits = qp_state_bit ∷ av_bit ∷ path_mtu_bit ∷ dest_qpn_bit ∷ rq_psn_bit ∷ [];
    } in
    let rts : Modify = record {
      attr = record attr { qp_state = qps_rts; sq_psn = my_psn };
      bits = qp_state_bit ∷ sq_psn_bit ∷ [];
    } in
    if d.rtr_ok then (d.rts_ok, rtr ∷ rts ∷ []) else (false, rtr ∷ [])

-- `pp_connect_ctx` returns 0 exactly if both changes succeed. Each call that it makes has all the
-- attributes that an unreliable connection requires for its transition, and where it returns 0 the
-- queue pair is ready to send to that of the destination.
pub pp_connect_ctx-ready :
    (d : ConnectAnswers) (port my_psn : ℕ) (mtu : Mtu) (sl : ℕ) (dest : Dest) (sgid_idx : ℕ)
    → let (ok, calls) = pp_connect_ctx d port my_psn mtu sl dest sgid_idx in
      (ok ≡ (d.rtr_ok && d.rts_ok))
      × (modify_all calls (initial_qp uc) ≢ none)
      × ((if ok
            then modify_all calls (initial_qp uc)
            else some (ready_qp uc (one_hop port sl sgid_idx) dest my_psn))
          ≡ some (ready_qp uc (one_hop port sl sgid_idx) dest my_psn))
unfolding pp_connect_ctx modify_all
pp_connect_ctx-ready d port my_psn mtu sl dest sgid_idx =
    let way = ah_attr_of-reached port sl dest sgid_idx in
    (ground arith, ground arith, ground (arith, way))

pub connected :
    (d : ConnectAnswers) (port my_psn : ℕ) (mtu : Mtu) (sl : ℕ) (dest : Dest) (sgid_idx : ℕ)
    → (pp_connect_ctx d port my_psn mtu sl dest sgid_idx).0 ≡ true
    → modify_all (pp_connect_ctx d port my_psn mtu sl dest sgid_idx).1 (initial_qp uc)
      ≡ some (ready_qp uc (one_hop port sl sgid_idx) dest my_psn)
connected d port my_psn mtu sl dest sgid_idx done =
    let (_, _, ready) = pp_connect_ctx-ready d port my_psn mtu sl dest sgid_idx in
    ground (arith, done, ready)

abbrev pub uc_transport : Transport
uc_transport = record {
  ConnectAnswers = ConnectAnswers;
  Call = Modify;
  Queue = QueuePair;
  own_address = own_address;
  own-IsAddress = own_address-IsAddress;
  connect = λ a route my_psn dest.
      pp_connect_ctx a route.ib_port my_psn route.mtu route.sl dest route.sgid_idx;
  works = λ a. a.rtr_ok && a.rts_ok;
  run = λ calls. modify_all calls (initial_qp uc);
  ready =
      λ route my_psn dest. ready_qp uc (one_hop route.ib_port route.sl route.sgid_idx) dest my_psn;
  connect-works = λ a route my_psn dest.
      (pp_connect_ctx-ready a route.ib_port my_psn route.mtu route.sl dest route.sgid_idx).0;
  connect-ready = λ a route my_psn dest.
      connected a route.ib_port my_psn route.mtu route.sl dest route.sgid_idx;
}

-- `pp_client_exch_dest` and `pp_server_exch_dest`, in the words of rc_pingpong.c.
abbrev pub client_exch_dest : ClientAnswers → ℕ → Dest → Option Dest × List Socket
client_exch_dest d junk my_dest = tcp_client d junk my_dest

abbrev pub server_exch_dest :
    ServerAnswers ConnectAnswers → ℕ → Route → Dest → Option Dest × List Socket × List Modify
server_exch_dest d junk route my_dest = tcp_server uc_transport d junk route my_dest
