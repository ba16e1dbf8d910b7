-- ===== src/Ud/Connect.antt =====
-- rdma-core/ud_pingpong.c: `pp_connect_ctx`, which makes the address handle, and the exchange of
-- addresses with it.
use ibv_bench.Base.{
  ℕ, ◌≡◌, ◌≢◌, Bool, true, false, ◌&&◌, not, Option, none, some, List, [], ◌∷◌, arith,
  if◌then◌else◌,
}
use ibv_bench.Wire.Address.{Dest}
use ibv_bench.Qp.{
  QpState, qps_rtr, qps_rts, qp_state_bit, sq_psn_bit, AhAttr, QpAttr, QueuePair, Modify, ud,
  modify_qp, initial_qp, ah_attr_of, ah_attr_of-reached, one_hop, reached,
}
use ibv_bench.Ud.Address.{own_address, own_address-IsAddress}
use ibv_bench.Exchange.{
  Transport, Route, ClientAnswers, ServerAnswers, Socket, client_exch_dest as tcp_client,
  server_exch_dest as tcp_server,
}

-- Whether the two calls of `ibv_modify_qp` and that of `ibv_create_ah` succeed.
pub record ConnectAnswers : Type 0 where
  pub rtr_ok : Bool
  pub rts_ok : Bool
  pub ah_ok : Bool

pub data Call : Type 0 where
  modify : Modify → Call
  create_ah : AhAttr → Call

-- `attr`, of which only the state and the own packet number are set.
attr_with : QpState → ℕ → QpAttr
attr_with state my_psn = record {
  qp_state = state;
  path_mtu = none;
  dest_qp_num = 0;
  rq_psn = 0;
  sq_psn = my_psn;
  max_dest_rd_atomic = 0;
  max_rd_atomic = 0;
  min_rnr_timer = 0;
  timeout = 0;
  retry_cnt = 0;
  rnr_retry = 0;
  ah_attr = record { dlid = 0; sl = 0; port_num = 0; grh = none };
}

-- `true` is the 0 of the source.
pub pp_connect_ctx : ConnectAnswers → ℕ → ℕ → ℕ → Dest → ℕ → Bool × List Call
unfolding attr_with
pp_connect_ctx d port my_psn sl dest sgid_idx =
    let rtr = modify (record { attr = attr_with qps_rtr 0; bits = qp_state_bit ∷ [] }) in
    let rts =
      modify (record { attr = attr_with qps_rts my_psn; bits = qp_state_bit ∷ sq_psn_bit ∷ [] }) in
    let handle = create_ah (ah_attr_of port sl dest sgid_idx) in
    if not d.rtr_ok
    then (false, rtr ∷ [])
    else if not d.rts_ok
    then (false, rtr ∷ rts ∷ [])
    else (d.ah_ok, rtr ∷ rts ∷ handle ∷ [])

-- The queue pair, and the address handle that sends use.
pub record Endpoint : Type 0 where
  pub qp : QueuePair
  pub ah : Option AhAttr

abbrev modified :
    List Call → Option QueuePair → Option AhAttr → (Endpoint → Option Endpoint) → Option Endpoint
modified calls none ah rest = none
modified calls (some q) ah rest = rest (record { qp = q; ah = ah })

-- What the calls make of an endpoint. A handle is only useful for a queue pair that can send.
pub perform : List Call → Endpoint → Option Endpoint
perform [] e = some e
perform (modify m ∷ calls) e = modified calls (modify_qp m e.qp) e.ah (λ e'. perform calls e')
perform (create_ah a ∷ calls) e = perform calls (record e { ah = some a })

abbrev pub initial_endpoint : Endpoint
initial_endpoint = record { qp = initial_qp ud; ah = none }

-- A queue pair that sends from `my_psn` on, and a handle for the destination.
abbrev pub ready_endpoint : ℕ → ℕ → ℕ → Dest → ℕ → Endpoint
ready_endpoint port my_psn sl dest sgid_idx = record {
  qp = record { kind = ud; state = qps_rts; dest = none; sends_from = some my_psn };
  ah = some (reached (one_hop port sl sgid_idx) dest.lid dest.gid);
}

-- `pp_connect_ctx` returns 0 exactly if all three calls succeed. Each change of the queue pair has
-- the attributes that a queue pair for datagrams requires, and where it returns 0 the queue pair is
-- ready to send from `my_psn` on, with an address handle that leads to the LID of the destination, and
-- across networks exactly if its GID has an interface identifier, then to this GID.
pub pp_connect_ctx-handle :
    (d : ConnectAnswers) (port my_psn sl : ℕ) (dest : Dest) (sgid_idx : ℕ)
    → let (ok, calls) = pp_connect_ctx d port my_psn sl dest sgid_idx in
      let ready = ready_endpoint port my_psn sl dest sgid_idx in
      (ok ≡ (d.rtr_ok && (d.rts_ok && d.ah_ok)))
      × (perform calls initial_endpoint ≢ none)
      × ((if ok then perform calls initial_endpoint else some ready) ≡ some ready)
unfolding pp_connect_ctx perform modify_qp
pp_connect_ctx-handle d port my_psn sl dest sgid_idx =
    let way = ah_attr_of-reached port sl dest sgid_idx in
    (ground arith, ground arith, ground (arith, way))

pub connected :
    (d : ConnectAnswers) (port my_psn sl : ℕ) (dest : Dest) (sgid_idx : ℕ)
    → (pp_connect_ctx d port my_psn sl dest sgid_idx).0 ≡ true
    → perform (pp_connect_ctx d port my_psn sl dest sgid_idx).1 initial_endpoint
      ≡ some (ready_endpoint port my_psn sl dest sgid_idx)
connected d port my_psn sl dest sgid_idx done =
    let (_, _, ready) = pp_connect_ctx-handle d port my_psn sl dest sgid_idx in
    ground (arith, done, ready)

abbrev pub ud_transport : Transport
ud_transport = record {
  ConnectAnswers = ConnectAnswers;
  Call = Call;
  Queue = Endpoint;
  own_address = own_address;
  own-IsAddress = own_address-IsAddress;
  connect =
      λ a route my_psn dest. pp_connect_ctx a route.ib_port my_psn route.sl dest route.sgid_idx;
  works = λ a. a.rtr_ok && (a.rts_ok && a.ah_ok);
  run = λ calls. perform calls initial_endpoint;
  ready = λ route my_psn dest. ready_endpoint route.ib_port my_psn route.sl dest route.sgid_idx;
  connect-works = λ a route my_psn dest.
      (pp_connect_ctx-handle a route.ib_port my_psn route.sl dest route.sgid_idx).0;
  connect-ready =
      λ a route my_psn dest. connected a route.ib_port my_psn route.sl dest route.sgid_idx;
}

-- `pp_client_exch_dest` and `pp_server_exch_dest`, in the words of rc_pingpong.c.
abbrev pub client_exch_dest : ClientAnswers → ℕ → Dest → Option Dest × List Socket
client_exch_dest d junk my_dest = tcp_client d junk my_dest

abbrev pub server_exch_dest :
    ServerAnswers ConnectAnswers → ℕ → Route → Dest → Option Dest × List Socket × List Call
server_exch_dest d junk route my_dest = tcp_server ud_transport d junk route my_dest
