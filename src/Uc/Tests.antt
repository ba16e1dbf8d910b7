-- ===== src/Uc/Tests.antt =====
-- The program over unreliable connections at fixed arguments.
use ibv_bench.Base.{ℕ, ◌≡◌, refl, true, false, List, [], ◌∷◌, map, arith}
use ibv_bench.Wire.Address.{Dest}
use ibv_bench.Rc.Setup.{
  Constants, Answers as RcAnswers, pp_init_ctx as rc_init_ctx, pp_close_ctx as rc_close_ctx,
}
use ibv_bench.Rc.Start.{no_gid}
use ibv_bench.Rc.Context.{Verbs}
use ibv_bench.Rc.Connect.{ConnectAnswers}
use ibv_bench.Rc.Completion.{Wc, wc_success}
use ibv_bench.Rc.Loop.{event_arrived}
use ibv_bench.Plain.Loop.{Round, poll_empty, poll_one, poll_two, run}
use ibv_bench.Plain.Same.{rc_run, rc_round, forget_outcome}
use ibv_bench.Plain.Setup.{Options, Answers, Built, CloseAnswers}
use ibv_bench.Uc.Setup.{
  rc_options, rc_answers, rc_built, rc_close, forget_built, pp_init_ctx, pp_close_ctx, set_up-same,
}
use ibv_bench.Uc.Messages.{Context, posting, rc_context, messages-same}

abbrev takes_all : Verbs
takes_all = record { takes_recv = λ _ _. true; takes_send = λ _ _. true }

abbrev context : Context
context = record { buf = 0x1000; lkey = 7; size = 64; send_flags = 2; rx_depth = 4 }

abbrev wc : ℕ → Wc
wc n = record { wr_id = n; status = wc_success; completion_timestamp = 0 }

abbrev rounds : List Round
rounds =
    record { event = event_arrived; poll = poll_empty }
    ∷ record { event = event_arrived; poll = poll_two (wc 2) (wc 1) }
    ∷ record { event = event_arrived; poll = poll_one (wc 2) }
    ∷ record { event = event_arrived; poll = poll_one (wc 1) }
    ∷ []

messages-same_example :
    run (posting takes_all context) true true 2 rounds
    ≡ forget_outcome (rc_run takes_all (rc_context context) true true 2 (map rc_round rounds))
messages-same_example = messages-same takes_all context true true 2 rounds (omega arith)

abbrev constants : Constants
constants = record {
  odp_support = 1;
  odp_support_implicit = 2;
  odp_support_send = 1;
  odp_support_recv = 2;
  access_local_write = 1;
  access_on_demand = 64;
  access_zero_based = 32;
  send_signaled = 2;
  send_inline = 8;
}

abbrev options : Options
options = record { size = 64; use_event = true; send_signaled = 2; send_inline = 8 }

abbrev no_cq : Answers
no_cq = record {
  ctx_ok = true;
  memalign_ok = true;
  open_ok = true;
  channel_ok = true;
  pd_ok = true;
  mr_ok = true;
  cq_ok = false;
  qp_ok = true;
  max_inline_data = 64;
  modify_ok = true;
}

abbrev unasked : RcAnswers
unasked = record {
  calloc_ok = false;
  memalign_ok = false;
  open_ok = false;
  channel_ok = false;
  pd_ok = false;
  query_ok = false;
  general_caps = 0;
  rc_odp_caps = 0;
  completion_timestamp_mask = 0;
  max_dm_size = 0;
  dm_ok = false;
  mr_ok = false;
  cq_ok = false;
  qp_ok = false;
  max_inline_data = 0;
  modify_ok = false;
}

abbrev close_works : CloseAnswers
close_works = record {
  destroy_qp_ok = true;
  destroy_cq_ok = true;
  dereg_mr_ok = true;
  dealloc_pd_ok = true;
  destroy_channel_ok = true;
  close_device_ok = true;
}

abbrev built : Built
built = record { channel = true; send_flags = 2 }

set_up-same_example :
    let (result, actions) =
      rc_init_ctx constants (rc_options options 4) (rc_answers no_cq unasked) in
    (pp_init_ctx options no_cq ≡ (forget_built result, actions))
    × (pp_close_ctx close_works built ≡ rc_close_ctx (rc_close close_works true) (rc_built built))
set_up-same_example = set_up-same constants options no_cq unasked 4 refl refl close_works true built

abbrev dest : Dest
dest = record { lid = 7; qpn = 0x48; psn = 0xabcdef; gid = no_gid }

abbrev both_ok : ConnectAnswers
both_ok = record { rtr_ok = true; rts_ok = true }
