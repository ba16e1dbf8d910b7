-- ===== src/Rc/Exchange.antt =====
-- rdma-core/rc_pingpong.c: the exchange of addresses with its `pp_connect_ctx`.
use ibv_bench.Base.{◌&&◌}
use ibv_bench.Exchange.{Transport}
use ibv_bench.Rc.Connect.{
  ConnectAnswers, pp_connect_ctx, pp_connect_ctx-ready, pp_connect_ctx-legal,
}
use ibv_bench.Qp.{Modify, QueuePair, rc, modify_all, initial_qp, ready_qp, one_hop}
use ibv_bench.Rc.Start.{own_address, own_address-IsAddress}

abbrev pub rc_transport : Transport
rc_transport = record {
  ConnectAnswers = ConnectAnswers;
  Call = Modify;
  Queue = QueuePair;
  own_address = own_address;
  own-IsAddress = own_address-IsAddress;
  connect = λ a route my_psn dest.
      pp_connect_ctx a route.ib_port my_psn route.mtu route.sl dest route.sgid_idx;
  works = λ a. a.rtr_ok && a.rts_ok;
  run = λ calls. modify_all calls (initial_qp rc);
  ready =
      λ route my_psn dest. ready_qp rc (one_hop route.ib_port route.sl route.sgid_idx) dest my_psn;
  connect-works = λ a route my_psn dest.
      (pp_connect_ctx-legal a route.ib_port my_psn route.mtu route.sl dest route.sgid_idx).0;
  connect-ready = λ a route my_psn dest.
      pp_connect_ctx-ready a route.ib_port my_psn route.mtu route.sl dest route.sgid_idx;
}
