-- ===== src/Rc/Loop.antt =====
-- rdma-core/rc_pingpong.c: the start of the exchange in `main`, and its loop.
pub mod Batches
use Prim.Native.Nat.{bit_or}
use ibv_bench.Base.{
  ℕ, zero, suc, ◌+◌, ◌-◌, ◌%◌, ◌^◌, ◌≤◌, ◌<◌, ◌≡◌, refl, ◌⊎◌, inl, inr, Bool, true, false, ◌&&◌,
  ◌||◌, List, [], ◌∷◌, arith, ltb, leb, ◌==◌, if◌then◌else◌,
}
use ibv_bench.Rc.Context.{Context, Verbs, recv_wrid, send_wrid, post_recv, post_send_ok}
use ibv_bench.Rc.Timestamp.{TsParams, ts_init}
use ibv_bench.Rc.Completion.{
  Pump, Wc, Failure, couldnt_post_receive, couldnt_post_send, Checked, ok, err, ◌>>=◌,
  parse_single_wc,
}

-- An answer of `ibv_get_cq_event`, the queue it names and `ibv_req_notify_cq`.
pub data Event : Type 0 where
  event_arrived event_failed event_of_unknown_cq notify_failed : Event

-- An answer of polling the completion queue: the completions found, at most two. With time stamps
-- the second is asked for by a call of its own, which may fail behind the first.
pub data Poll : Type 0 where
  poll_failed poll_empty : Poll
  poll_one poll_one_then_failed : Wc → Poll
  poll_two : Wc → Wc → Poll

-- One round of the loop as the library answers it.
pub record Round : Type 0 where
  pub event : Event
  pub poll : Poll

-- The places where the loop returns from `main`: by the library, or by a completion.
pub data Exit : Type 0 where
  stopped : Exit
  failed : Failure → Exit

-- Where `main` stands after some rounds: past the loop, in the loop, or out of it by a `return`.
pub data Outcome : Type 0 where
  finished waiting : Pump → Outcome
  exited : Exit → Outcome

-- What one round does: on to the next one, or out of `main`.
pub data RoundResult : Type 0 where
  next : Pump → RoundResult
  leave : Exit → RoundResult

pub RoundResult-cases :
    (x : RoundResult) → ((t : Pump) × (x ≡ next t)) ⊎ ((o : Exit) × (x ≡ leave o))
RoundResult-cases (next t) = inl (t, refl)
RoundResult-cases (leave o) = inr (o, refl)

-- `while (rcnt < iters || scnt < iters)`
unfoldable pub running : ℕ → Pump → Bool
running iters s = ltb s.rcnt iters || ltb s.scnt iters

module _ (v : Verbs) (ctx : Context) where
  unfoldable pub first_send : Pump → Checked Pump
  first_send s =
      if post_send_ok v ctx s.send_calls
      then ok (record s { pending = bit_or s.pending send_wrid; send_calls = s.send_calls + 1 })
      else err couldnt_post_send

  -- The receives posted behind `pp_init_ctx`, and the first send of the side with a server name.
  unfoldable pub start_pump : Bool → Checked Pump
  unfolding first_send
  start_pump servername =
      let posted = post_recv v ctx 0 ctx.rx_depth in
      let s : Pump = record {
        scnt = 0;
        rcnt = 0;
        routs = posted;
        pending = recv_wrid;
        recv_calls = posted;
        send_calls = 0;
        ts = ts_init;
      } in
      if ltb posted ctx.rx_depth
      then err couldnt_post_receive
      else if servername
      then first_send s
      else ok s

  -- The completions of one poll, in order, up to the first that fails.
  unfoldable pub handle_poll : ℕ → Poll → Pump → Checked Pump
  handle_poll iters (poll_one a) s = parse_single_wc v ctx iters a s
  handle_poll iters (poll_one_then_failed a) s = parse_single_wc v ctx iters a s
  handle_poll iters (poll_two a b) s =
      parse_single_wc v ctx iters a s >>= parse_single_wc v ctx iters b
  handle_poll iters _ s = ok s

  -- After the completions of a poll.
  unfoldable pub handled : Checked Pump → RoundResult
  handled (ok s) = next s
  handled (err e) = leave (failed e)

  -- After the completion before a failure.
  handled_then_failed : Checked Pump → RoundResult
  handled_then_failed (ok s) = leave stopped
  handled_then_failed (err e) = leave (failed e)

  -- The body behind the event. With time stamps and events an empty poll ends the program; else it
  -- is polled again.
  unfoldable pub poll_body : Bool → ℕ → Poll → Pump → RoundResult
  unfolding handle_poll handled handled_then_failed
  poll_body use_event iters poll_failed s = leave stopped
  poll_body use_event iters poll_empty s = if ctx.use_ts && use_event then leave stopped else next s
  poll_body use_event iters (poll_one_then_failed a) s =
      handled_then_failed (handle_poll iters (poll_one_then_failed a) s)
  poll_body use_event iters p s = handled (handle_poll iters p s)

  -- One round of the `while`, with `use_event` or without.
  unfoldable pub round_body : Bool → ℕ → Round → Pump → RoundResult
  unfolding poll_body
  round_body true iters r s = elim r.event [
    | event_arrived ↦ poll_body true iters r.poll s
    | _ ↦ leave stopped
  ]
  round_body false iters r s = poll_body false iters r.poll s

  -- The loop over the answers of the library, up to the last answer or the end of the loop.
  unfoldable pub main_loop : Bool → ℕ → List Round → Pump → Outcome
  unfolding round_body running
  main_loop use_event iters [] s = if running iters s then waiting s else finished s
  main_loop use_event iters (r ∷ rs) s =
      let on : Outcome = elim (round_body use_event iters r s) [
        | next t ↦ main_loop use_event iters rs t
        | leave o ↦ exited o
      ] in
      if running iters s then on else finished s
