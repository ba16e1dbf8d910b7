-- ===== src/Xsrq/Tests/Setup.antt =====
-- The set-up and the close of the server at fixed answers.
use ibv_bench.Base.{◌≡◌, ◌≢◌, refl, true, false, some, none, [], ◌∷◌, ◌++◌, ◌↔◌}
use ibv_bench.Rc.Start.{choose_device}
use ibv_bench.Xsrq.Setup.{
  Options, CloseAnswers, Context, pp_init_ctx, pp_close_ctx, Answers as SetupAnswers,
}
use ibv_bench.Xsrq.Setup.Balance.{replay, nothing, empty, set_up-Closes}

abbrev options : Options
options = record {
  ib_devname = none;
  num_clients = 2;
  use_event = true;
  use_odp = false;
  odp_support = 1;
  xrc_caps_mask = 3;
}

abbrev all_there : SetupAnswers
all_there = record {
  recv_array_ok = true;
  send_array_ok = true;
  dest_array_ok = true;
  devices = some ((b'm' ∷ []) ∷ []);
  open_ok = true;
  query_ok = false;
  general_caps = 0;
  xrc_odp_caps = 0;
  port = some (record { lid = 7; is_ethernet = false });
  memalign_ok = true;
  channel_ok = true;
  pd_ok = true;
  mr_ok = true;
  file_ok = true;
  xrcd_ok = true;
  recv_cq_ok = true;
  notify_ok = true;
  send_cq_ok = true;
  srq_ok = true;
  recv_qp_ok = λ _. true;
  recv_init_ok = λ _. true;
  send_qp_ok = λ _. true;
  send_init_ok = λ _. true;
}

abbrev close_works : CloseAnswers
close_works = record {
  destroy_send_ok = λ _. true;
  destroy_recv_ok = λ _. true;
  destroy_srq_ok = true;
  close_xrcd_ok = true;
  close_file_ok = true;
  destroy_send_cq_ok = true;
  destroy_recv_cq_ok = true;
  dereg_mr_ok = true;
  dealloc_pd_ok = true;
  destroy_channel_ok = true;
  close_device_ok = true;
}

abbrev context : Context
context = record { channel = true; has_file = true; connected = λ _. true }

set_up : (pp_init_ctx options all_there).0 ≡ true
unfolding pp_init_ctx choose_device
set_up = refl

set_up-Closes_example :
    let (ok, acts) = pp_close_ctx close_works context 2 in
    let all = (pp_init_ctx options all_there).1 ++ acts in
    (replay all nothing ≢ none) × ((ok ≡ true) ↔ (replay all nothing ≡ some (empty 2)))
set_up-Closes_example = set_up-Closes options all_there close_works context set_up refl refl
