-- ===== src/Plain/Same.antt =====
-- The exchange without time stamps does what that of rdma-core/rc_pingpong.c does.
use ibv_bench.Base.{
  ℕ, zero, suc, ◌+◌, ◌-◌, ◌%◌, ◌^◌, ◌<◌, ◌≡◌, refl, ap, ◌∙◌, Bool, true, false, List, [], ◌∷◌,
  arith, inl, inr, ◌⊎◌, map,
}
use ibv_bench.Rc.Context.{
  Context, Verbs, recv_wr, submission, post_send_ok, clear_bits, post_recv as rc_post_recv,
}
use ibv_bench.Rc.Completion.{
  Failure, Pump, Wc, WcStatus, wc_success, wc_error, Checked, ok, err, ◌>>=◌, lt_int, count_receive,
  dispatch, parse_success, parse_single_wc, take_receive as rc_take_receive,
  send_next as rc_send_next,
}
use ibv_bench.Rc.Loop.{
  failed, running, handle_poll, start_pump, RoundResult-cases, RoundResult as RcRoundResult,
  next as rc_next, leave as rc_leave, handled as rc_handled, round_body as rc_round_body,
  poll_body as rc_poll_body, main_loop as rc_main_loop, first_send as rc_first_send, Poll as RcPoll,
  Round as RcRound, Outcome as RcOutcome, poll_failed as rc_poll_failed,
  poll_empty as rc_poll_empty, poll_one as rc_poll_one, poll_two as rc_poll_two,
  finished as rc_finished, waiting as rc_waiting, exited as rc_exited,
}
use ibv_bench.Plain.Completion.{
  Posting, State, post_recv, take_receive, count_wc, send_next, handle_wc,
}
use ibv_bench.Plain.Loop.{
  Poll, poll_failed, poll_empty, poll_one, poll_two, Round, Outcome, finished, waiting, exited, run,
  RoundResult, next, leave, first_send, start, handled, poll_body, round_body, main_loop,
}

-- The variables without the time stamps.
abbrev pub forget : Pump → State
forget s = record {
  scnt = s.scnt;
  rcnt = s.rcnt;
  routs = s.routs;
  pending = s.pending;
  recv_calls = s.recv_calls;
  send_calls = s.send_calls;
}

abbrev pub forget_checked : Checked Pump → Checked State
forget_checked (ok s) = ok (forget s)
forget_checked (err e) = err e

abbrev pub forget_outcome : RcOutcome → Outcome
forget_outcome (rc_finished s) = finished (forget s)
forget_outcome (rc_waiting s) = waiting (forget s)
forget_outcome (rc_exited e) = exited e

-- The library answers the requests of the two programs alike.
pub record Alike (p : Posting) (v : Verbs) (ctx : Context) : Type 0 where
  pub depth : p.rx_depth ≡ ctx.rx_depth
  pub recvs : (n : ℕ) → p.recv_ok n ≡ v.takes_recv n (recv_wr ctx)
  pub sends : (n : ℕ) → p.send_ok n ≡ v.takes_send n (submission ctx)

abbrev pub rc_poll : Poll → RcPoll
rc_poll poll_failed = rc_poll_failed
rc_poll poll_empty = rc_poll_empty
rc_poll (poll_one a) = rc_poll_one a
rc_poll (poll_two a b) = rc_poll_two a b

abbrev pub rc_round : Round → RcRound
rc_round r = record { event = r.event; poll = rc_poll r.poll }

abbrev pub forget_result : RcRoundResult → RoundResult
forget_result (rc_next s) = next (forget s)
forget_result (rc_leave e) = leave e

-- The first requests and the loop of rc_pingpong.c.
abbrev pub rc_run : Verbs → Context → Bool → Bool → ℕ → List RcRound → RcOutcome
rc_run v ctx use_event servername iters rs = elim (start_pump v ctx servername) [
  | ok s ↦ rc_main_loop v ctx use_event iters rs s
  | err e ↦ rc_exited (failed e)
]

Checked-cases : (m : Checked Pump) → ((s : Pump) × (m ≡ ok s)) ⊎ ((e : Failure) × (m ≡ err e))
Checked-cases (ok s) = inl (s, refl)
Checked-cases (err e) = inr (e, refl)

then-same :
    (m : Checked Pump) (g : State → Checked State) (f : Pump → Checked Pump)
    → ((s : Pump) → g (forget s) ≡ forget_checked (f s))
    → (forget_checked m >>= g) ≡ forget_checked (m >>= f)
then-same (ok s) g f h = h s
then-same (err e) g f h = refl

module _ (p : Posting) (v : Verbs) (ctx : Context) (same : Alike p v ctx) where
  post_recv-same : (calls n : ℕ) → post_recv p calls n ≡ rc_post_recv v ctx calls n
  unfolding post_recv rc_post_recv
  post_recv-same calls zero = refl
  post_recv-same calls (suc n) = ground (arith, same.recvs calls, post_recv-same (suc calls) n)

  take_receive-same :
      (s : Pump) → take_receive p (forget s) ≡ forget_checked (rc_take_receive v ctx s)
  unfolding take_receive rc_take_receive
  take_receive-same s =
      ground (arith, same.depth, post_recv-same s.recv_calls (ctx.rx_depth + 1 - s.routs))

  count_wc-same :
      (wc : Wc) (s : Pump) → count_wc p wc (forget s) ≡ forget_checked (dispatch v ctx wc s)
  unfolding count_wc dispatch count_receive
  count_wc-same wc s = ground (arith, take_receive-same s)

  module _ (iters : ℕ) (small : iters < 2 ^ 31) where
    send_next-same :
        (s : Pump) → send_next p iters (forget s) ≡ forget_checked (rc_send_next v ctx iters s)
    unfolding send_next rc_send_next lt_int post_send_ok
    send_next-same s = ground (arith, same.sends s.send_calls)

    handle_wc-same :
        (wc : Wc) (s : Pump)
        → handle_wc p iters wc (forget s) ≡ forget_checked (parse_single_wc v ctx iters wc s)
    unfolding handle_wc parse_single_wc parse_success
    handle_wc-same wc s = by_status wc.status
      where
        clear_pump : Pump → Pump
        clear_pump t = record t { pending = clear_bits t.pending (wc.wr_id % 2 ^ 32) }

        by_status :
            (status : WcStatus)
            → handle_wc p iters (record wc { status = status }) (forget s)
              ≡ forget_checked (parse_single_wc v ctx iters (record wc { status = status }) s)
        by_status (wc_error k) = refl
        by_status wc_success =
            ap (λ m. m >>= λ t. send_next p iters (clear t)) (count_wc-same wc s)
            ∙ then-same (dispatch v ctx wc s) (λ t. send_next p iters (clear t))
                (λ t. rc_send_next v ctx iters (clear_pump t)) (λ t. send_next-same (clear_pump t))
          where
            clear : State → State
            clear t = record t { pending = clear_bits t.pending (wc.wr_id % 2 ^ 32) }

    handle_two-same :
        (a b : Wc) (s : Pump)
        → (handle_wc p iters a (forget s) >>= handle_wc p iters b)
          ≡ forget_checked (parse_single_wc v ctx iters a s >>= parse_single_wc v ctx iters b)
    handle_two-same a b s =
        ap (λ m. m >>= handle_wc p iters b) (handle_wc-same a s)
        ∙ then-same (parse_single_wc v ctx iters a s) (handle_wc p iters b)
            (parse_single_wc v ctx iters b) (handle_wc-same b)

    module _ (off : ctx.use_ts ≡ false) where
      handled-same :
          (m : Checked Pump) → handled p (forget_checked m) ≡ forget_result (rc_handled v ctx m)
      unfolding handled rc_handled
      handled-same (ok t) = refl
      handled-same (err e) = refl

      poll_body-same :
          (use_event : Bool) (q : Poll) (s : Pump)
          → poll_body p iters q (forget s)
            ≡ forget_result (rc_poll_body v ctx use_event iters (rc_poll q) s)
      unfolding poll_body rc_poll_body handle_poll
      poll_body-same use_event poll_failed s = refl
      poll_body-same use_event poll_empty s = rw off
      poll_body-same use_event (poll_one a) s =
          ap (handled p) (handle_wc-same a s) ∙ handled-same (parse_single_wc v ctx iters a s)
      poll_body-same use_event (poll_two a b) s =
          ap (handled p) (handle_two-same a b s)
          ∙ handled-same (parse_single_wc v ctx iters a s >>= parse_single_wc v ctx iters b)

      round_body-same :
          (use_event : Bool) (r : Round) (s : Pump)
          → round_body p use_event iters r (forget s)
            ≡ forget_result (rc_round_body v ctx use_event iters (rc_round r) s)
      unfolding round_body rc_round_body
      round_body-same true r s = ground (arith, poll_body-same true r.poll s)
      round_body-same false r s = poll_body-same false r.poll s

      -- The loop without time stamps leads to the same outcome as that of rc_pingpong.c.
      main_loop-same :
          (use_event : Bool) (rs : List Round) (s : Pump)
          → main_loop p use_event iters rs (forget s)
            ≡ forget_outcome (rc_main_loop v ctx use_event iters (map rc_round rs) s)
      unfolding main_loop rc_main_loop running
      main_loop-same use_event [] s = ground arith
      main_loop-same use_event (r ∷ rs) s =
          elim (RoundResult-cases (rc_round_body v ctx use_event iters (rc_round r) s)) [
            | inl (t, e) ↦
                ground (arith, e, round_body-same use_event r s, main_loop-same use_event rs t)
            | inr (o, e) ↦ ground (arith, e, round_body-same use_event r s)
          ]

  start-same :
      (servername : Bool) → start p servername ≡ forget_checked (start_pump v ctx servername)
  unfolding start start_pump first_send rc_first_send post_send_ok
  start-same servername = ground (arith, same.depth, post_recv-same 0 ctx.rx_depth, same.sends 0)

  -- From the first requests on: without time stamps and with `iters` below 2^31, the program goes
  -- through the same states as rc_pingpong.c, whose loop compares signed numbers, and comes to the
  -- same end, for any answers of the library.
  pub run-same :
      (use_event servername : Bool) (iters : ℕ) (rs : List Round)
      → iters < 2 ^ 31
      → ctx.use_ts ≡ false
      → run p use_event servername iters rs
        ≡ forget_outcome (rc_run v ctx use_event servername iters (map rc_round rs))
  unfolding run
  run-same use_event servername iters rs small off =
      elim (Checked-cases (start_pump v ctx servername)) [
        | inl (s, e) ↦
            ground (arith, e, start-same servername, main_loop-same iters small off use_event rs s)
        | inr (f, e) ↦ ground (arith, e, start-same servername)
      ]
