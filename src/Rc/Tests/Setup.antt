-- ===== src/Rc/Tests/Setup.antt =====
-- The set-up, the arguments and the queue pair at fixed options.
use ibv_bench.Base.{
  ◌++◌, ◌≤◌, ◌<◌, ◌^◌, ◌≡◌, ◌≢◌, ◌↔◌, refl, true, false, ◌&&◌, some, none, List, [], ◌∷◌,
}
use mathlib.Core.List.{head?}
use ibv_bench.Base.Text.{codes}
use ibv_bench.Rc.Setup.{Options, Constants, Answers, pp_init_ctx, CloseAnswers}
use ibv_bench.Rc.Setup.Balance.{replay, held_by, close_built, set_up-Balanced}
use ibv_bench.Rc.Arguments.{
  Opt, opt_port, opt_rx_depth, opt_events, Config, defaults, main_arguments, main_arguments-valid,
}

abbrev constants : Constants
constants = record {
  odp_support = 1;
  odp_support_implicit = 2;
  odp_support_send = 1;
  odp_support_recv = 2;
  access_local_write = 1;
  access_on_demand = 64;
  access_zero_based = 32;
  send_signaled = 2;
  send_inline = 8;
}

-- With events and device memory, where the queue pair cannot be created.
abbrev options : Options
options = record {
  size = 4096;
  rx_depth = 500;
  use_event = true;
  use_odp = false;
  implicit_odp = false;
  use_ts = false;
  use_dm = true;
}

abbrev no_qp : Answers
no_qp = record {
  calloc_ok = true;
  memalign_ok = true;
  open_ok = true;
  channel_ok = true;
  pd_ok = true;
  query_ok = true;
  general_caps = 0;
  rc_odp_caps = 0;
  completion_timestamp_mask = 0;
  max_dm_size = 65536;
  dm_ok = true;
  mr_ok = true;
  cq_ok = true;
  qp_ok = false;
  max_inline_data = 0;
  modify_ok = true;
}

abbrev close_works : CloseAnswers
close_works = record {
  destroy_qp_ok = true;
  destroy_cq_ok = true;
  dereg_mr_ok = true;
  free_dm_ok = true;
  dealloc_pd_ok = true;
  destroy_channel_ok = true;
  close_device_ok = true;
}

set_up-Balanced_example :
    let (result, init) = pp_init_ctx constants options no_qp in
    let (ok, acts) = close_built close_works result in
    (replay init [] ≡ some (held_by result))
    × (replay (init ++ acts) [] ≢ none)
    × ((ok ≡ true) ↔ (replay (init ++ acts) [] ≡ some []))
set_up-Balanced_example = set_up-Balanced constants options no_qp close_works

abbrev given : List Opt
given = opt_port 19000 ∷ opt_events ∷ opt_rx_depth 16 ∷ []

abbrev config : Config
config = record defaults { port = 19000; use_event = 1; rx_depth = 16 }

config_taken : main_arguments given (codes "node1" ∷ []) ≡ some (config, some (codes "node1"))
unfolding main_arguments
config_taken = refl

main_arguments-valid_example :
    (19000 ≤ 65535)
    × ((1 ≤ 1) × (1 < 2 ^ 31))
    × ((4096 < 2 ^ 32) × (16 < 2 ^ 32) × (1000 < 2 ^ 32))
    × ((false && false) ≡ false)
    × ((false && true) ≡ false)
    × ((false && true) ≡ false)
    × (1 ≤ 1)
    × (some (codes "node1") ≡ head? (codes "node1" ∷ []))
main_arguments-valid_example =
    main_arguments-valid given (codes "node1" ∷ []) config (some (codes "node1")) config_taken
