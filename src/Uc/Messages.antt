-- ===== src/Uc/Messages.antt =====
-- rdma-core/uc_pingpong.c: the requests of `pp_post_recv` and `pp_post_send`, and the exchange of
-- messages with them.
use ibv_bench.Base.{ℕ, ◌^◌, ◌<◌, ◌≡◌, refl, Bool, false, List, map}
use ibv_bench.Rc.Context.{
  Context as RcContext, Verbs, Sge, RecvWr, Submission, post_send, recv_wrid, send_wrid,
  recv_wr as rc_recv_wr, submission,
}
use ibv_bench.Plain.Completion.{Posting}
use ibv_bench.Plain.Loop.{Round, run}
use ibv_bench.Plain.Same.{Alike, rc_run, rc_round, forget_outcome, run-same}

-- `struct pingpong_context`, once it is set up.
pub record Context : Type 0 where
  pub buf : ℕ
  pub lkey : ℕ
  pub size : ℕ
  pub send_flags : ℕ
  pub rx_depth : ℕ

whole_buf : Context → Sge
whole_buf ctx = record { addr = ctx.buf; length = ctx.size; lkey = ctx.lkey }

-- `pp_post_recv`.
recv_wr : Context → RecvWr
unfolding whole_buf
recv_wr ctx = record { wr_id = recv_wrid; sg_list = whole_buf ctx; num_sge = 1 }

-- `pp_post_send`.
send_wr : Context → Submission
unfolding whole_buf
send_wr ctx = post_send send_wrid (whole_buf ctx) 1 ctx.send_flags

pub posting : Verbs → Context → Posting
unfolding recv_wr send_wr
posting v ctx = record {
  recv_ok = λ n. v.takes_recv n (recv_wr ctx);
  send_ok = λ n. v.takes_send n (send_wr ctx);
  rx_depth = ctx.rx_depth;
}

-- The context of rc_pingpong.c without its further options.
abbrev pub rc_context : Context → RcContext
rc_context ctx = record {
  buf = ctx.buf;
  lkey = ctx.lkey;
  size = ctx.size;
  send_flags = ctx.send_flags;
  rx_depth = ctx.rx_depth;
  completion_timestamp_mask = 0;
  use_ts = false;
  use_dm = false;
  use_new_send = false;
}

-- With `iters` below 2^31, for any library and any of its answers: from its first requests on, the
-- program posts the same requests as rc_pingpong.c without that one's further options, counts the
-- same completions and comes to the same end.
pub messages-same :
    (v : Verbs) (ctx : Context) (use_event servername : Bool) (iters : ℕ) (rs : List Round)
    → iters < 2 ^ 31
    → run (posting v ctx) use_event servername iters rs
      ≡ forget_outcome (rc_run v (rc_context ctx) use_event servername iters (map rc_round rs))
unfolding posting rc_recv_wr submission
messages-same v ctx use_event servername iters rs small =
    run-same (posting v ctx) v (rc_context ctx) alike use_event servername iters rs small refl
  where
    alike : Alike (posting v ctx) v (rc_context ctx)
    alike = record { depth = refl; recvs = λ n. refl; sends = λ n. refl }
