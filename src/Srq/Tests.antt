-- ===== src/Srq/Tests.antt =====
-- Two queue pairs with a shared receive queue of four, at fixed completions.
mod Join
use ibv_bench.Base.{
  ◌++◌, ℕ, zero, suc, ◌+◌, ◌≤◌, ◌≡◌, ◌≢◌, ◌↔◌, refl, inl, inr, All, take, true, false, none, some,
  List, [], ◌∷◌, map, arith,
}
use ibv_bench.Rc.Context.{send_wrid, recv_wrid, clear_bits}
use ibv_bench.Rc.Connect.{ConnectAnswers, pp_connect_ctx}
use ibv_bench.Qp.{rc, modify_all, initial_qp, ready_qp}
use ibv_bench.Wire.Gid.{Gid, mtu_1024}
use ibv_bench.Wire.Address.{Dest}
use ibv_bench.Srq.Setup.{Options, Answers, Built, pp_init_ctx, CloseAnswers, pp_close_ctx}
use ibv_bench.Srq.Setup.Balance.{replay, held_by, close_built, set_up-frees}
use ibv_bench.Srq.Arguments.{Config, opt_num_qp, opt_rx_depth, opt_events, defaults, main_arguments}
use ibv_bench.Rc.Loop.{event_arrived}
use ibv_bench.Srq.Loop.{Round, finished, main_loop}
use ibv_bench.Srq.Loop.Ends.{of_kind, Works, completions, main_loop-ends}
use ibv_bench.Srq.Completion.{
  Context, State, Wc, update, find_qp, start_state, post_recv, handle_wc, handle_all,
}
use ibv_bench.Srq.Completion.Posted.{sends_done, IsContext}
use ibv_bench.Srq.Completion.Run.{start_state-IsPosted, handle_all-limits}
use ibv_bench.Srq.Completion.Total.{Accepts, IsKnown, handle_all-total}

abbrev ctx : Context
ctx = record {
  qp_nums = 72 ∷ 73 ∷ [];
  rx_depth = 4;
  takes_recv = λ n. true;
  takes_send = λ i n. true;
}

ctx-IsContext : IsContext ctx
ctx-IsContext = record { some_qp = omega arith; one_each = omega arith; int_depth = omega arith }

ctx-Accepts : Accepts ctx
ctx-Accepts = record { recvs = λ n. refl; sends = λ i n. refl }

abbrev begun : State
begun = record { scnt = 0; rcnt = 0; routs = 4; pending = λ i. 1; recv_calls = 4; sent = λ i. 0 }

server_begins : start_state ctx false ≡ some begun
unfolding start_state post_recv
server_begins = refl

abbrev arrival : Wc
arrival = record { wr_id = 1; success = true; qp_num = 73 }

-- The second queue pair has answered.
abbrev answered : State
answered = record {
  scnt = 0;
  rcnt = 1;
  routs = 3;
  pending = update (update (λ i. 1) 1 0) 1 3;
  recv_calls = 4;
  sent = update (λ i. 0) 1 1;
}

server_answers : handle_all ctx 2 (arrival ∷ []) begun ≡ some answered
unfolding handle_all handle_wc find_qp update clear_bits
server_answers = refl

handle_all-limits_example :
    (2 ≤ 3) × (3 ≤ 4) × ((i : ℕ) → answered.sent i ≤ sends_done ctx i (arrival ∷ []) + 1)
handle_all-limits_example =
    handle_all-limits ctx ctx-IsContext false 2 (arrival ∷ []) begun answered server_begins
      server_answers

arrival-IsKnown : IsKnown ctx arrival
unfolding find_qp
arrival-IsKnown = record { succeeded = refl; kind = inr refl; index = 1; found = refl }

-- The first queue pair's send is done.
abbrev departure : Wc
departure = record { wr_id = 2; success = true; qp_num = 72 }

departure-IsKnown : IsKnown ctx departure
unfolding find_qp
departure-IsKnown = record { succeeded = refl; kind = inl refl; index = 0; found = refl }

abbrev rounds : List Round
rounds =
    record { event = event_arrived; poll = some (arrival ∷ []) }
    ∷ record { event = event_arrived; poll = some [] }
    ∷ record { event = event_arrived; poll = some (departure ∷ arrival ∷ []) }
    ∷ []

rounds-Works : All (Works ctx) rounds
rounds-Works = (
  record { event = refl; wcs = arrival ∷ []; polled = refl; known = (arrival-IsKnown, tt) },
  (
    record { event = refl; wcs = []; polled = refl; known = tt },
    (
      record {
        event = refl;
        wcs = departure ∷ arrival ∷ [];
        polled = refl;
        known = (departure-IsKnown, (arrival-IsKnown, tt));
      },
      tt,
    ),
  ),
)

one_send : of_kind send_wrid (completions rounds) ≡ 1
unfolding of_kind completions
one_send = refl

two_receives : of_kind recv_wrid (completions rounds) ≡ 2
unfolding of_kind completions
two_receives = refl

main_loop-ends_example :
    (t : State) × (k : ℕ) × (main_loop ctx true 1 rounds begun ≡ finished t)
    × (handle_all ctx 1 (completions (take k rounds)) begun ≡ some t)
    × (1 ≤ t.scnt)
    × (1 ≤ t.rcnt)
main_loop-ends_example =
    main_loop-ends ctx ctx-IsContext ctx-Accepts true 1 false rounds begun server_begins
      rounds-Works (omega (arith, one_send)) (omega (arith, two_receives))

abbrev options : Options
options = record {
  size = 4096;
  num_qp = 2;
  use_event = true;
  use_odp = false;
  odp_support = 1;
  rc_caps_mask = 3;
  access_local_write = 1;
  access_on_demand = 64;
  send_signaled = 2;
  send_inline = 8;
}

-- The second queue pair cannot be created.
abbrev one_qp : Answers
one_qp = record {
  calloc_ok = true;
  memalign_ok = true;
  open_ok = true;
  query_ok = true;
  general_caps = 0;
  rc_odp_caps = 0;
  channel_ok = true;
  pd_ok = true;
  mr_ok = true;
  cq_ok = true;
  srq_ok = true;
  qp = λ i. elim i [ zero ↦ some 128 | suc _ ↦ none ];
  modify_ok = λ i. true;
}

abbrev close_works : CloseAnswers
close_works = record {
  destroy_qp_ok = λ i. true;
  destroy_srq_ok = true;
  destroy_cq_ok = true;
  dereg_mr_ok = true;
  dealloc_pd_ok = true;
  destroy_channel_ok = true;
  close_device_ok = true;
}

set_up-frees_example :
    let (result, init) = pp_init_ctx options one_qp in
    let (ok, acts) = close_built close_works 2 result in
    (replay init [] [] ≡ some (held_by 2 result))
    × (replay (init ++ acts) [] [] ≢ none)
    × ((ok ≡ true) ↔ (replay (init ++ acts) [] [] ≡ some ([], [])))
set_up-frees_example = set_up-frees options one_qp close_works

abbrev few : Config
few = record defaults { num_qp = 4; rx_depth = 8; use_event = 1 }

few_taken : main_arguments (opt_num_qp 4 ∷ opt_rx_depth 8 ∷ opt_events ∷ []) [] ≡ some (few, none)
unfolding main_arguments
few_taken = refl

no_room : main_arguments (opt_num_qp 4 ∷ opt_rx_depth 3 ∷ []) [] ≡ none
unfolding main_arguments
no_room = refl

too_many : main_arguments (opt_num_qp 256 ∷ []) [] ≡ none
unfolding main_arguments
too_many = refl
