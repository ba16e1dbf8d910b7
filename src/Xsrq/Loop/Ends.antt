-- ===== src/Xsrq/Loop/Ends.antt =====
-- The loop of `main` of rdma-core/xsrq_pingpong.c ends once enough messages have come, and sends no
-- more than it should.
use ibv_bench.Base.{ℕ, ◌*◌, ◌≤◌, ◌≡◌, Bool, true, List, [], ◌∷◌, ◌++◌, map, take, get_or}
use ibv_bench.Xsrq.Messages.{Settings, Verbs, Process}
use ibv_bench.Xsrq.Loop.{
  Poll, poll_empty, poll_recv, Round, get_cq_event, Run, done, take_wc, main_loop,
}

-- A round in which the library works: an event, and completions of some queue pairs up to an empty
-- poll.
pub record Works (rd : Round) : Type 0 where
  pub event : get_cq_event rd.event ≡ true
  pub qp_nums : List ℕ
  pub polled : rd.polls ≡ map poll_recv qp_nums ++ (poll_empty ∷ [])

polled_of : List Poll → List ℕ
polled_of [] = []
polled_of (poll_recv q ∷ ps) = q ∷ polled_of ps
polled_of (_ ∷ ps) = []

-- The queue pairs of the completions, in order.
unfoldable pub received : List Round → List ℕ
unfolding polled_of
received [] = []
received (rd ∷ rds) = polled_of rd.polls ++ received rds

module _ (e : Settings) (v : Verbs) where
  -- What completions do one after another.
  pub take_all : List ℕ → Run → Run
  take_all [] r = r
  take_all (q ∷ qs) r = take_all qs (take_wc e v q r)

  -- At most `num_tests` messages for each client.
  abbrev pub Within : Process → Type 0
  Within p = (i : ℕ) → get_or p.pp_cnt i 0 ≤ e.num_tests

  module _ (use_event : Bool) where
    -- From a state of the loop.
    abbrev Ends : List Round → Run → Type 0
    Ends rds r =
        (t : Run) × (k : ℕ) × (main_loop e v use_event rds r ≡ done t)
        × (t ≡ take_all (received (take k rds)) r)
        × (e.num_clients * e.num_tests ≤ t.process.cnt)
