-- ===== src/Plain/Loop.antt =====
-- rdma-core/uc_pingpong.c: the first requests of `main`, and its loop.
use Prim.Native.Nat.{bit_or}
use ibv_bench.Base.{ℕ, ◌+◌, Bool, true, false, ◌||◌, List, [], ◌∷◌, ltb, if◌then◌else◌}
use ibv_bench.Rc.Context.{recv_wrid, send_wrid}
use ibv_bench.Rc.Completion.{Wc, couldnt_post_receive, couldnt_post_send, Checked, ok, err, ◌>>=◌}
use ibv_bench.Rc.Loop.{Event, event_arrived, Exit, stopped, failed}
use ibv_bench.Plain.Completion.{Posting, State, post_recv, handle_wc}

-- An answer of `ibv_poll_cq` with room for two completions.
pub data Poll : Type 0 where
  poll_failed poll_empty : Poll
  poll_one : Wc → Poll
  poll_two : Wc → Wc → Poll

pub record Round : Type 0 where
  pub event : Event
  pub poll : Poll

-- Where `main` stands: past the loop, in the loop, or out of it by a `return`.
pub data Outcome : Type 0 where
  finished waiting : State → Outcome
  exited : Exit → Outcome

-- What one round does: on to the next one, or out of `main`.
pub data RoundResult : Type 0 where
  next : State → RoundResult
  leave : Exit → RoundResult

module _ (p : Posting) where
  unfoldable pub first_send : State → Checked State
  first_send s =
      if p.send_ok s.send_calls
      then ok (record s { pending = bit_or s.pending send_wrid; send_calls = s.send_calls + 1 })
      else err couldnt_post_send

  -- The receives behind `pp_init_ctx`, and the first send of the side with a server name.
  unfoldable pub start : Bool → Checked State
  unfolding first_send
  start servername =
      let posted = post_recv p 0 p.rx_depth in
      let s : State = record {
        scnt = 0;
        rcnt = 0;
        routs = posted;
        pending = recv_wrid;
        recv_calls = posted;
        send_calls = 0;
      } in
      if ltb posted p.rx_depth
      then err couldnt_post_receive
      else if servername
      then first_send s
      else ok s

  unfoldable pub handled : Checked State → RoundResult
  handled (ok s) = next s
  handled (err e) = leave (failed e)

  -- The completions of one poll, in order, up to the first that fails. Without events an empty poll
  -- is repeated; with events the program goes back to waiting for one.
  unfoldable pub poll_body : ℕ → Poll → State → RoundResult
  unfolding handled
  poll_body iters poll_failed s = leave stopped
  poll_body iters poll_empty s = next s
  poll_body iters (poll_one a) s = handled (handle_wc p iters a s)
  poll_body iters (poll_two a b) s = handled (handle_wc p iters a s >>= handle_wc p iters b)

  -- One round of the `while`, with `use_event` or without.
  unfoldable pub round_body : Bool → ℕ → Round → State → RoundResult
  unfolding poll_body
  round_body true iters r s = elim r.event [
    | event_arrived ↦ poll_body iters r.poll s
    | _ ↦ leave stopped
  ]
  round_body false iters r s = poll_body iters r.poll s

  -- The loop over the answers of the library.
  unfoldable pub main_loop : Bool → ℕ → List Round → State → Outcome
  unfolding round_body
  main_loop use_event iters [] s =
      if ltb s.rcnt iters || ltb s.scnt iters then waiting s else finished s
  main_loop use_event iters (r ∷ rs) s =
      let on : Outcome = elim (round_body use_event iters r s) [
        | next t ↦ main_loop use_event iters rs t
        | leave o ↦ exited o
      ] in
      if ltb s.rcnt iters || ltb s.scnt iters then on else finished s

  -- From the first requests to the end of the loop; none of it behind a `return` at the start.
  unfoldable pub run : Bool → Bool → ℕ → List Round → Outcome
  run use_event servername iters rs = elim (start servername) [
    | ok s ↦ main_loop use_event iters rs s
    | err e ↦ exited (failed e)
  ]
