-- ===== src/Ud/Tests.antt =====
-- The program over datagrams at fixed arguments.
use ibv_bench.Base.{
  ◌++◌, ◌+◌, ◌<◌, ◌^◌, ◌≡◌, ◌≢◌, ◌↔◌, true, false, ◌&&◌, none, some, List, [], ◌∷◌, arith,
  if◌then◌else◌,
}
use ibv_bench.Wire.Address.{Dest}
use ibv_bench.Rc.Start.{no_gid}
use ibv_bench.Plain.Setup.{Options, Answers, CloseAnswers}
use ibv_bench.Ud.Setup.{grh_bytes, buf_bytes, pp_init_ctx}
use ibv_bench.Ud.Setup.Balance.{replay, held_by, close_built, set_up-releases}
use ibv_bench.Ud.Connect.{
  ConnectAnswers, pp_connect_ctx, perform, initial_endpoint, ready_endpoint, pp_connect_ctx-handle,
}
use ibv_bench.Ud.Messages.{Context, Inside, recv_wr, send_wr, requests-Inside}
use ibv_bench.Ud.Arguments.{Opt, opt_port, opt_events}

abbrev context : Context
context = record {
  buf = 0x1000;
  lkey = 7;
  size = 64;
  send_flags = 2;
  rx_depth = 4;
  ah = record { dlid = 7; sl = 0; port_num = 1; grh = none };
}

requests-Inside_example :
    (Inside 0x1000 (buf_bytes 64) (recv_wr context).sg_list)
    × (Inside 0x1000 (buf_bytes 64) (send_wr context 0x48).sg_list ↔ (64 + grh_bytes < 2 ^ 32))
requests-Inside_example = requests-Inside context 0x48 (omega arith)

abbrev options : Options
options = record { size = 64; use_event = true; send_signaled = 2; send_inline = 8 }

abbrev no_cq : Answers
no_cq = record {
  ctx_ok = true;
  memalign_ok = true;
  open_ok = true;
  channel_ok = true;
  pd_ok = true;
  mr_ok = true;
  cq_ok = false;
  qp_ok = true;
  max_inline_data = 64;
  modify_ok = true;
}

abbrev close_works : CloseAnswers
close_works = record {
  destroy_qp_ok = true;
  destroy_cq_ok = true;
  dereg_mr_ok = true;
  dealloc_pd_ok = true;
  destroy_channel_ok = true;
  close_device_ok = true;
}

set_up-releases_example :
    let (result, init) = pp_init_ctx options no_cq (some 5) in
    let (ok, acts) = close_built close_works true result in
    (replay init [] ≡ some (held_by result))
    × (replay (init ++ acts) [] ≢ none)
    × ((ok ≡ true) ↔ (replay (init ++ acts) [] ≡ some []))
set_up-releases_example = set_up-releases options no_cq (some 5) close_works true

abbrev dest : Dest
dest = record { lid = 7; qpn = 0x48; psn = 0xabcdef; gid = no_gid }

abbrev all_ok : ConnectAnswers
all_ok = record { rtr_ok = true; rts_ok = true; ah_ok = true }

pp_connect_ctx-handle_example :
    let (ok, calls) = pp_connect_ctx all_ok 1 100 0 dest 0 in
    (ok ≡ (true && (true && true)))
    × (perform calls initial_endpoint ≢ none)
    × ((if ok then perform calls initial_endpoint else some (ready_endpoint 1 100 0 dest 0))
        ≡ some (ready_endpoint 1 100 0 dest 0))
pp_connect_ctx-handle_example = pp_connect_ctx-handle all_ok 1 100 0 dest 0

abbrev given : List Opt
given = opt_port 19000 ∷ opt_events ∷ []
