-- ===== src/Plain/Finish.antt =====
-- `main` behind its loop in rdma-core/uc_pingpong.c, and in rdma-core/ud_pingpong.c and
-- rdma-core/srq_pingpong.c, which differ in `offset` and in `pp_close_ctx`; but for the numbers of the
-- report.
use ibv_bench.Base.{ℕ, ◌≡◌, Bool, false, ◌&&◌, Option, some, List, [], if◌then◌else◌, arith}
use ibv_bench.Rc.Setup.{Action, CloseAnswers, Built, pp_close_ctx}
use ibv_bench.Rc.Finish.{Ends as RcEnds, Ending as RcEnding, main_end as rc_main_end}
use ibv_bench.Validate.{Memory, check_pages}

-- What `main` has behind its loop.
pub record Ends : Type 0 where
  pub time_ok : Bool
  pub server : Bool
  pub validate_buf : Bool
  pub num_cq_events : ℕ
  pub memory : Memory

-- Whether `main` returns 0, the pages that it reports (none where the index overflows), the events that are acknowledged, and what
-- `pp_close_ctx` does.
pub record Ending (A : Type 0) : Type 0 where
  pub status : Bool
  pub invalid : Option (List ℕ)
  pub acked : ℕ
  pub closing : List A

pub main_end : {A : Type 0} → ℕ → ℕ → ℕ → Ends → Bool × List A → Ending A
main_end page_size offset size e (ok, actions) =
    if e.time_ok
    then record {
      status = ok;
      invalid =
          if e.server && e.validate_buf
          then check_pages page_size offset size e.memory
          else some [];
      acked = e.num_cq_events;
      closing = actions;
    }
    else record { status = false; invalid = some []; acked = 0; closing = [] }

-- The same for rc_pingpong.c, without device memory.
abbrev rc_ends : Ends → Bool → RcEnds
rc_ends e copy_ok = record {
  time_ok = e.time_ok;
  server = e.server;
  validate_buf = e.validate_buf;
  use_dm = false;
  copy_ok = copy_ok;
  num_cq_events = e.num_cq_events;
  memory = e.memory;
}

abbrev forget_ending : RcEnding → Ending Action
forget_ending x = record {
  status = x.status;
  invalid = x.invalid;
  acked = x.acked;
  closing = x.closing;
}

-- It ends as rc_pingpong.c does without device memory, where `pp_close_ctx` does the same.
main_end-same :
    (page_size size : ℕ) (e : Ends) (copy_ok : Bool) (d : CloseAnswers) (c : Built)
    → main_end page_size 0 size e (pp_close_ctx d c)
      ≡ forget_ending (rc_main_end page_size size (rc_ends e copy_ok) d c)
unfolding main_end rc_main_end
main_end-same page_size size e copy_ok d c = ground arith
