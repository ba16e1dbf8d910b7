-- ===== src/Xsrq/Loop.antt =====
-- rdma-core/xsrq_pingpong.c: `get_cq_event`, the loop of `main`, and the wait for the sends behind it.
pub mod Sent
pub mod Ends
use ibv_bench.Base.{
  ℕ, zero, suc, ◌*◌, ◌&&◌, Bool, true, false, not, Option, none, some, List, [], ◌∷◌, ◌++◌, ltb,
  if◌then◌else◌,
}
use ibv_bench.Xsrq.Messages.{Settings, Send, Verbs, Process, handle_recv}

-- An answer of `ibv_poll_cq` for the receive queue: a failure, nothing, or a completion, which has
-- failed or is one of the queue pair with a number.
pub data Poll : Type 0 where
  poll_failed poll_empty poll_error : Poll
  poll_recv : ℕ → Poll

-- The answers of `get_cq_event`: an event, the queue that it names, and `ibv_req_notify_cq`.
pub record Event : Type 0 where
  pub event_ok : Bool
  pub is_recv_cq : Bool
  pub notify_ok : Bool

-- `true` is the 0 of the source.
unfoldable pub get_cq_event : Event → Bool
get_cq_event e = e.event_ok && e.is_recv_cq && e.notify_ok

pub record Round : Type 0 where
  pub event : Event
  pub polls : List Poll

-- A process, and what it has sent so far, where a refused request is none.
pub record Run : Type 0 where
  pub sends : List (Option Send)
  pub process : Process

-- Where the loop stands: behind it, in it, or out of `main`.
pub data Stage : Type 0 where
  done waiting : Run → Stage
  exited : Stage

module _ (e : Settings) (v : Verbs) where
  pub take_wc : ℕ → Run → Run
  take_wc qp_num r =
      let (sent, t) = handle_recv e v qp_num r.process in
      record { sends = r.sends ++ (sent ∷ []); process = t }

  -- The `do`, which ends at an empty poll.
  pub drain : List Poll → Run → Stage
  unfolding take_wc
  drain [] r = waiting r
  drain (poll_failed ∷ ps) r = exited
  drain (poll_empty ∷ ps) r = done r
  drain (poll_error ∷ ps) r = exited
  drain (poll_recv qp_num ∷ ps) r = drain ps (take_wc qp_num r)

  pub round_body : Bool → Round → Run → Stage
  unfolding drain get_cq_event
  round_body use_event rd r =
      if use_event && not (get_cq_event rd.event) then exited else drain rd.polls r

  -- `cnt < total`, a product of two `int` that is an `int`.
  pub running : Run → Bool
  running r = ltb r.process.cnt (e.num_clients * e.num_tests)

  pub main_loop : Bool → List Round → Run → Stage
  unfolding round_body running
  main_loop use_event [] r = if running r then waiting r else done r
  main_loop use_event (rd ∷ rds) r =
      let on : Stage = elim (round_body use_event rd r) [
        | done t ↦ main_loop use_event rds t
        | waiting t ↦ waiting t
        | exited ↦ exited
      ] in
      if running r then on else done r

-- An answer of `ibv_poll_cq` for the send queue. The status of a completion is not read.
pub data SendPoll : Type 0 where
  send_poll_failed send_poll_empty send_done : SendPoll

-- The `for` that waits for the sends, with those that are left; none where it still polls, or
-- whether `main` goes on.
pub wait_sends : ℕ → List SendPoll → Option Bool
wait_sends zero ps = some true
wait_sends (suc n) [] = none
wait_sends (suc n) (send_poll_failed ∷ ps) = some false
wait_sends (suc n) (send_poll_empty ∷ ps) = wait_sends (suc n) ps
wait_sends (suc n) (send_done ∷ ps) = wait_sends n ps
