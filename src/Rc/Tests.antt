-- ===== src/Rc/Tests.antt =====
-- The exchange of two programs at fixed settings: two rounds, a receive queue of four.
mod Setup
mod Exchange
mod Start
mod Finish
use ibv_bench.Base.{
  ℕ, zero, suc, ◌+◌, ◌-◌, ◌*◌, ◌%◌, ◌^◌, ◌≤◌, ◌<◌, ◌≡◌, refl, Bool, true, false, ◌⊎◌, inl, List, [],
  ◌∷◌, arith, take,
}
use ibv_bench.Rc.Context.{Context, Verbs, post_recv, post_send_ok, clear_bits}
use ibv_bench.Rc.Timestamp.{TsParams, ts_init, clock_delta, clock_delta_lem, record_stamp}
use ibv_bench.Rc.Completion.{Pump, ok, parse_single_wc}
use ibv_bench.Rc.Peer.{
  Peer, Represents, Accepts, Yields, mask, wc_of, peer_send, peer_recv, parse_send_refines,
  parse_recv_refines,
}
use ibv_bench.Rc.Loop.{
  Poll, poll_one, Round, event_arrived, Outcome, waiting, finished, start_pump, main_loop, running,
}
use ibv_bench.Rc.Loop.Batches.{parse_all, completions, main_loop-waiting, main_loop-finished}
use ibv_bench.Rc.Pair.{Settings, IsUsable, Pair, Step, Reach, start, later, unfinished}
use ibv_bench.Rc.Pair.Safety.{
  IsSafe, IsComplete, Reach-IsSafe, Reach-unfinished, Reach-bounded, Reach-completes, Reach-final,
  Runs, Reach-Runs,
}

abbrev ready : Verbs
ready = record { takes_recv = λ n wr. true; takes_send = λ n s. true }

abbrev ctx : Context
ctx = record {
  buf = 4096;
  lkey = 77;
  size = 4096;
  send_flags = 2;
  rx_depth = 4;
  completion_timestamp_mask = 0;
  use_ts = false;
  use_dm = false;
  use_new_send = false;
}

ready-Accepts : Accepts ready ctx
ready-Accepts = record { recvs = λ n. refl; sends = λ n. refl }

abbrev settings : ℕ → Settings
settings iters = record {
  client_verbs = ready;
  server_verbs = ready;
  client_ctx = ctx;
  server_ctx = ctx;
  iters = iters;
}

two-IsUsable : IsUsable (settings 2)
two-IsUsable = record {
  client_accepts = ready-Accepts;
  server_accepts = ready-Accepts;
  client_depth = omega arith;
  server_depth = omega arith;
  some_iters = omega arith;
  int_iters = omega arith;
}

abbrev posted : ℕ → ℕ → ℕ → ℕ → Pump
posted scnt rcnt pending send_calls = record {
  scnt = scnt;
  rcnt = rcnt;
  routs = 4;
  pending = pending;
  recv_calls = 4;
  send_calls = send_calls;
  ts = ts_init;
}

abbrev both_started : Pair
both_started = record { client = posted 0 0 3 1; server = posted 0 0 1 0 }

started : Reach (settings 2) 0 both_started
started = start client_starts server_starts
  where
    client_starts : start_pump ready ctx true ≡ ok (posted 0 0 3 1)
    client_starts = unfold start_pump post_recv post_send_ok in refl

    server_starts : start_pump ready ctx false ≡ ok (posted 0 0 1 0)
    server_starts = unfold start_pump post_recv post_send_ok in refl

Reach-completes_example :
    (k : ℕ) × (q : Pair) × Runs (settings 2) two-IsUsable both_started k q
    × (0 + k ≡ 4 * 2)
    × IsComplete (settings 2) q
    × (unfinished (settings 2) q ≡ false)
Reach-completes_example = Reach-completes (settings 2) two-IsUsable started

Reach-IsSafe_example : IsSafe ctx 2 (posted 0 0 3 1) × IsSafe ctx 2 (posted 0 0 1 0)
Reach-IsSafe_example = Reach-IsSafe (settings 2) two-IsUsable started

Reach-bounded_example : (0 ≡ 0 + 0 + 0 + 0) × (0 ≤ 4 * 2)
Reach-bounded_example = Reach-bounded (settings 2) two-IsUsable started

-- The end of a run: no completion can follow.
abbrev last :
    (k : ℕ) × (q : Pair) × Runs (settings 2) two-IsUsable both_started k q
    × (0 + k ≡ 4 * 2)
    × IsComplete (settings 2) q
    × (unfinished (settings 2) q ≡ false)
last = Reach-completes (settings 2) two-IsUsable started

at_end : Reach (settings 2) (last.0 + 0) last.1
at_end = Reach-Runs (settings 2) two-IsUsable started last.2

nothing_follows : ¬ ((q : Pair) × Step (settings 2) last.1 q)
nothing_follows (q, step) =
    absurd (omega (arith, (Reach-bounded (settings 2) two-IsUsable (later at_end step)).1, last.3))

abbrev server_peer : Peer
server_peer = record { scnt = 0; rcnt = 0; sent = 0; recv_waits = true; send_waits = false }

server_represented : Represents ctx (posted 0 0 1 0) server_peer
unfolding mask
server_represented = record {
  scnt_same = refl;
  rcnt_same = refl;
  sent_same = refl;
  flags = refl;
  some_posted = omega arith;
  routs_bound = omega arith;
}

abbrev client_peer : Peer
client_peer = record { scnt = 0; rcnt = 0; sent = 1; recv_waits = true; send_waits = true }

client_represented : Represents ctx (posted 0 0 3 1) client_peer
unfolding mask
client_represented = record {
  scnt_same = refl;
  rcnt_same = refl;
  sent_same = refl;
  flags = refl;
  some_posted = omega arith;
  routs_bound = omega arith;
}

parse_recv_refines_example :
    Yields ctx (parse_single_wc ready ctx 2 (wc_of 1 9) (posted 0 0 1 0)) (peer_recv 2 server_peer)
parse_recv_refines_example =
    parse_recv_refines ready ctx ready-Accepts 2 (omega arith) (posted 0 0 1 0) server_peer 9
      server_represented

-- A server that takes its message, answers it, and sees its answer sent.
abbrev received : Round
received = record { event = event_arrived; poll = poll_one (wc_of 1 9) }

abbrev sent : Round
sent = record { event = event_arrived; poll = poll_one (wc_of 2 9) }

abbrev answered : Pump
answered = record (posted 0 1 3 1) { routs = 3 }

server_waits : main_loop ready ctx true 1 (received ∷ []) (posted 0 0 1 0) ≡ waiting answered
unfolding main_loop parse_single_wc clear_bits post_send_ok record_stamp
server_waits = refl

server_finishes :
    main_loop ready ctx true 1 (received ∷ sent ∷ []) (posted 0 0 1 0)
    ≡ finished (record (posted 1 1 1 1) { routs = 3 })
unfolding main_loop parse_single_wc clear_bits post_send_ok record_stamp
server_finishes = refl

main_loop-finished_example :
    (k : ℕ) × (parse_all ready ctx 1 (completions (take k (received ∷ sent ∷ []))) (posted 0 0 1 0)
      ≡ ok (record (posted 1 1 1 1) { routs = 3 }))
    × (1 ≤ 1)
    × (1 ≤ 1)
main_loop-finished_example =
    main_loop-finished ready ctx 1 true (received ∷ sent ∷ []) (posted 0 0 1 0)
      (record (posted 1 1 1 1) { routs = 3 }) server_finishes

clock_delta_lem_example :
    ((250 + clock_delta 255 250 4) % (255 + 1) ≡ 4) × (clock_delta 255 250 4 ≤ 255)
clock_delta_lem_example = clock_delta_lem 255 250 4 (omega arith) (omega arith) (omega arith)
